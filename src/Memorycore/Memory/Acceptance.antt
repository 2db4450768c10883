-- ===== src/Memorycore/Memory/Acceptance.antt =====
-- When the operations of internal/memorycore/memory.go succeed, on a well-formed memory.
use mma.Base.{
  ℕ, ◌*◌, ◌≤◌, ◌≡◌, ◌≢◌, ◌↔◌, refl, arith, ltb, Bool-cases, inl, inr, Option, none, some, List,
  ◌++◌, length, take, drop, ok, panic,
}
use mma.Memorycore.Area.{Area}
use mma.Memorycore.Layout.{AreaLayout, contains, offset}
use mma.Memorycore.Layout.Laws.{InLayout, InLayout→contains, contains→InLayout}
use mma.Memorycore.Bits.{bytes_for_bits, copy_bits, write_bits_at}
use mma.Memorycore.Memory.{
  Memory, bits_area, with_bits, regs_area, with_regs, read_bits, write_bits, read_regs, write_regs,
  read_regs_loop, write_regs_loop,
}
use mma.Memorycore.Memory.Inversion.{
  read_bits-eq_ok, write_bits-eq_ok, read_regs-eq_ok, write_regs-eq_ok,
}
use mma.Memorycore.Memory.WellFormed.{IsWellFormed}
use mma.Memorycore.Memory.Words.{written, write_regs_loop-written, copied, read_regs_loop-copied}
use mma.Memorycore.Memory.RegAreas.{regs_area-IsBacked, offset_fits}

-- The area is allocated, and the range lies in its layout.
abbrev pub BitsCover : Memory → Area → ℕ → ℕ → Type 0
BitsCover m area address count =
    (l : AreaLayout) × (b : List ℕ) × (bits_area m area ≡ some (some l, b))
    × InLayout l address count

abbrev pub RegsCover : Memory → Area → ℕ → ℕ → Type 0
RegsCover m area address count =
    (l : AreaLayout) × (b : List ℕ) × (regs_area m area ≡ some (some l, b))
    × InLayout l address count

module _ (m : Memory) (area : Area) (address count : ℕ) where
  pub write_bits-accepts :
      (src : List ℕ)
      → BitsCover m area address count
      → bytes_for_bits count ≤ length src
      → (m' : Memory) × (write_bits (some m) area address count src ≡ ok m')
  unfolding write_bits
  write_bits-accepts src (l, b, e, range) room =
      let c = InLayout→contains l address count range in
      (
        with_bits m area
            (write_bits_at b (offset l address) count (take (bytes_for_bits count) src)),
        ground arith,
      )

  pub read_bits-accepts :
      (dst : List ℕ)
      → BitsCover m area address count
      → bytes_for_bits count ≤ length dst
      → (dst' : List ℕ) × (read_bits (some m) area address count dst ≡ ok dst')
  unfolding read_bits
  read_bits-accepts dst (l, b, e, range) room =
      let c = InLayout→contains l address count range in
      (
        copy_bits (take (bytes_for_bits count) dst) b (offset l address) count
            ++ drop (bytes_for_bits count) dst,
        ground arith,
      )

  -- ReadBits and WriteBits succeed exactly when the area is allocated, the range is not empty and lies
  -- in it, and the buffer has the bytes that the count asks for.
  pub bits_accept_iff :
      (buffer : List ℕ)
      → (((m' : Memory) × (write_bits (some m) area address count buffer ≡ ok m'))
          ↔ (BitsCover m area address count × (bytes_for_bits count ≤ length buffer)))
        × (((dst' : List ℕ) × (read_bits (some m) area address count buffer ≡ ok dst'))
            ↔ (BitsCover m area address count × (bytes_for_bits count ≤ length buffer)))
  bits_accept_iff buffer = (
    (
      λ (m', h).
          let (l, b, e, range, room, q) = write_bits-eq_ok m area address count buffer h in
          ((l, b, e, range), room),
      λ (cover, room). write_bits-accepts buffer cover room,
    ),
    (
      λ (dst', h).
          let (l, b, e, range, room, q) = read_bits-eq_ok m area address count buffer h in
          ((l, b, e, range), room),
      λ (cover, room). read_bits-accepts buffer cover room,
    ),
  )

  pub bits_never_panic :
      (buffer : List ℕ)
      → (write_bits (some m) area address count buffer ≢ panic)
        × (read_bits (some m) area address count buffer ≢ panic)
  unfolding write_bits read_bits
  bits_never_panic buffer = (ground arith, ground arith)

  module _ (w : IsWellFormed m) where
    write_run :
        (src : List ℕ) (l : AreaLayout) (b : List ℕ)
        → regs_area m area ≡ some (some l, b)
        → InLayout l address count
        → count * 2 ≤ length src
        → write_regs_loop count 0 b (offset l address) src
          ≡ ok (written (offset l address) src count 0 b)
    write_run src l b e range room =
        let (valid, len, hb) = regs_area-IsBacked m area l b e w in
        let fits = offset_fits l address count valid range in
        write_regs_loop-written (offset l address) src count 0 b (omega arith) (omega arith)
          (omega arith)

    read_run :
        (dst : List ℕ) (l : AreaLayout) (b : List ℕ)
        → regs_area m area ≡ some (some l, b)
        → InLayout l address count
        → count * 2 ≤ length dst
        → read_regs_loop count 0 dst b (offset l address)
          ≡ ok (copied b (offset l address) count 0 dst)
    read_run dst l b e range room =
        let (valid, len, hb) = regs_area-IsBacked m area l b e w in
        let fits = offset_fits l address count valid range in
        read_regs_loop-copied b (offset l address) count 0 dst (omega arith) (omega arith)
          (omega arith)

    pub write_regs-accepts :
        (src : List ℕ)
        → RegsCover m area address count
        → count * 2 ≤ length src
        → (m' : Memory) × (write_regs (some m) area address count src ≡ ok m')
    unfolding write_regs
    write_regs-accepts src (l, b, e, range) room =
        let c = InLayout→contains l address count range in
        let run = write_run src l b e range room in
        (with_regs m area (written (offset l address) src count 0 b), ground arith)

    pub read_regs-accepts :
        (dst : List ℕ)
        → RegsCover m area address count
        → count * 2 ≤ length dst
        → (dst' : List ℕ) × (read_regs (some m) area address count dst ≡ ok dst')
    unfolding read_regs
    read_regs-accepts dst (l, b, e, range) room =
        let c = InLayout→contains l address count range in
        let run = read_run dst l b e range room in
        (copied b (offset l address) count 0 dst, ground arith)

    -- ReadRegs and WriteRegs on a well-formed memory succeed exactly when the area is allocated, the
    -- range is not empty and lies in it, and the buffer has two bytes for each register.
    pub regs_accept_iff :
        (buffer : List ℕ)
        → (((m' : Memory) × (write_regs (some m) area address count buffer ≡ ok m'))
            ↔ (RegsCover m area address count × (count * 2 ≤ length buffer)))
          × (((dst' : List ℕ) × (read_regs (some m) area address count buffer ≡ ok dst'))
              ↔ (RegsCover m area address count × (count * 2 ≤ length buffer)))
    regs_accept_iff buffer = (
      (
        λ (m', h).
            let (l, b, e, range, room, regs, r, q) =
              write_regs-eq_ok m area address count buffer h in
            ((l, b, e, range), room),
        λ (cover, room). write_regs-accepts buffer cover room,
      ),
      (
        λ (dst', h).
            let (l, b, e, range, room, r) = read_regs-eq_ok m area address count buffer h in
            ((l, b, e, range), room),
        λ (cover, room). read_regs-accepts buffer cover room,
      ),
    )

    -- On a well-formed memory the register loops never index out of range: neither method panics.
    pub regs_never_panic :
        (buffer : List ℕ)
        → (write_regs (some m) area address count buffer ≢ panic)
          × (read_regs (some m) area address count buffer ≢ panic)
    regs_never_panic buffer = (writes (regs_area m area) refl, reads (regs_area m area) refl)
      where
        writes :
            (o : Option (Option AreaLayout × List ℕ))
            → regs_area m area ≡ o
            → write_regs (some m) area address count buffer ≢ panic
        writes none e = unfold write_regs in ground arith
        writes (some (none, b)) e = unfold write_regs in ground arith
        writes (some (some l, b)) e = elim (Bool-cases (contains l address count)) [
          | inr out ↦ unfold write_regs in ground arith
          | inl cover ↦ elim (Bool-cases (ltb (length buffer) (count * 2))) [
            | inl short ↦ unfold write_regs in ground arith
            | inr room ↦
                let run =
                  write_run buffer l b e (contains→InLayout l address count cover) (ground arith) in
                unfold write_regs in ground arith
          ]
        ]

        reads :
            (o : Option (Option AreaLayout × List ℕ))
            → regs_area m area ≡ o
            → read_regs (some m) area address count buffer ≢ panic
        reads none e = unfold read_regs in ground arith
        reads (some (none, b)) e = unfold read_regs in ground arith
        reads (some (some l, b)) e = elim (Bool-cases (contains l address count)) [
          | inr out ↦ unfold read_regs in ground arith
          | inl cover ↦ elim (Bool-cases (ltb (length buffer) (count * 2))) [
            | inl short ↦ unfold read_regs in ground arith
            | inr room ↦
                let run =
                  read_run buffer l b e (contains→InLayout l address count cover) (ground arith) in
                unfold read_regs in ground arith
          ]
        ]
