-- ===== src/Memorycore/Layout.antt =====
-- internal/memorycore/layout.go. Fields and arguments are `uint16`; sums are made in `uint32`, which
-- two such numbers cannot wrap.
pub mod Laws
use mma.Base.{
  ℕ, ◌+◌, ◌-◌, ◌%◌, ◌^◌, Bool, false, ◌&&◌, ◌==◌, ltb, leb, if◌then◌else◌, Outcome, ok, err,
}
use mma.Words.{u16}
use mma.Memorycore.Errors.{MemoryError, size_zero, start_overflow}

pub record AreaLayout : Type 0 where
  pub start : ℕ
  pub size : ℕ

unfoldable pub validate : AreaLayout → Outcome MemoryError (Unit {0})
validate l =
    if l.size == 0
    then err size_zero
    else let end = l.start + l.size in if ltb 0x10000 end then err start_overflow else ok tt

unfoldable pub contains : AreaLayout → ℕ → ℕ → Bool
contains l address count =
    if count == 0
    then false
    else let start = l.start in
      let end = l.start + l.size in
      let req_end = address + count in leb start address && leb req_end end

-- The `uint32` difference wraps when the address is below the start.
unfoldable pub offset : AreaLayout → ℕ → ℕ
offset l address = u16 ((address + 2 ^ 32 - l.start) % 2 ^ 32)
