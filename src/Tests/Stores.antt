-- ===== src/Tests/Stores.antt =====
-- Stores and frames for the tests of the servers.
use mma.Base.{ℕ, ◌≡◌, refl, arith, true, none, some, List, [], ◌∷◌, All}
use mma.Words.{IsByte}
use mma.Memorycore.Bits.{bytes_for_bits, is_set, put_bit, copy_bits_loop, copy_bits}
use mma.Memorycore.Layout.{contains, offset}
use mma.Memorycore.Memory.{bits_area, read_bits}
use mma.Memorycore.Memory.WellFormed.{IsWellFormed}
use mma.Memorycore.Store.{Store, get, lookup}
use mma.Memorycore.Store.WellFormed.{IsSoundStore}
use mma.Modbus.Conn.{sealed_by, is_blocked}
use mma.Tests.Samples.{
  memory_of, memory_of-IsWellFormed, seal_a, id_a, id_b, store_of, store_of-IsSoundStore,
}

abbrev pub sealed_store : Store
sealed_store = store_of (memory_of 0 0 (some seal_a)) (memory_of 0 0 none)

abbrev pub open_store : Store
open_store = store_of (memory_of 1 0 (some seal_a)) (memory_of 0 0 none)

-- The open store after coil 4 is set.
abbrev pub coil_set_store : Store
coil_set_store = store_of (memory_of 0x11 0 (some seal_a)) (memory_of 0 0 none)

one_memory-IsWellFormed : (bits : ℕ) → IsByte bits → IsWellFormed (memory_of bits 0 (some seal_a))
one_memory-IsWellFormed bits h = memory_of-IsWellFormed bits 0 (some seal_a) h (omega arith)

pub stores-IsSoundStore :
    (bits : ℕ)
    → IsByte bits
    → IsSoundStore (store_of (memory_of bits 0 (some seal_a)) (memory_of 0 0 none))
stores-IsSoundStore bits h =
    store_of-IsSoundStore _ _ (one_memory-IsWellFormed bits h)
      (memory_of-IsWellFormed 0 0 none (omega arith) (omega arith))

abbrev pub coil_frame : List ℕ
coil_frame = 0 ∷ 1 ∷ 0 ∷ 0 ∷ 0 ∷ 6 ∷ 1 ∷ 5 ∷ 0 ∷ 4 ∷ 0xff ∷ 0 ∷ []

abbrev pub unseal_frame : List ℕ
unseal_frame = b'R' ∷ b'I' ∷ 1 ∷ 1 ∷ 0 ∷ 1 ∷ 0 ∷ 0 ∷ 0 ∷ 1 ∷ 1 ∷ []

pub unseal_frame-IsByte : All IsByte unseal_frame
unseal_frame-IsByte = ground arith

pub found_b : get (some open_store) id_b ≡ some 1
unfolding get lookup
found_b = refl

pub found_a : get (some sealed_store) id_a ≡ some 0
unfolding get lookup
found_a = refl

pub sealed : is_blocked sealed_store id_a ≡ true
unfolding is_blocked get lookup sealed_by read_bits bits_area contains offset copy_bits
    copy_bits_loop is_set put_bit bytes_for_bits
sealed = refl
