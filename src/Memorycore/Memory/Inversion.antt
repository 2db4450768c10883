-- ===== src/Memorycore/Memory/Inversion.antt =====
-- What a successful memory operation has passed, and what it returned.
use mma.Base.{
  ℕ, ◌*◌, ◌≤◌, ◌≡◌, refl, arith, Option, none, some, List, ◌++◌, length, take, drop, Outcome, ok,
  err, panic,
}
use mma.Memorycore.Errors.{MemoryError}
use mma.Memorycore.Area.{Area}
use mma.Memorycore.Layout.{AreaLayout, offset}
use mma.Memorycore.Layout.Laws.{InLayout, contains→InLayout}
use mma.Memorycore.Bits.{bytes_for_bits, copy_bits, write_bits_at}
use mma.Memorycore.Memory.{
  Memory, bits_area, with_bits, regs_area, with_regs, read_bits, write_bits, read_regs, write_regs,
  read_regs_loop, write_regs_loop,
}

module _ (m : Memory) (area : Area) (address count : ℕ) where
  pub write_bits-eq_ok :
      (src : List ℕ) {m' : Memory}
      → write_bits (some m) area address count src ≡ ok m'
      → (l : AreaLayout) × (backing : List ℕ) × (bits_area m area ≡ some (some l, backing))
        × InLayout l address count
        × (bytes_for_bits count ≤ length src)
        × (m'
            ≡ with_bits m area
                (write_bits_at backing (offset l address) count (take (bytes_for_bits count) src)))
  unfolding write_bits
  write_bits-eq_ok src {m'} h = go (bits_area m area) refl
    where
      go :
          (o : Option (Option AreaLayout × List ℕ))
          → bits_area m area ≡ o
          → (l : AreaLayout) × (backing : List ℕ) × (bits_area m area ≡ some (some l, backing))
            × InLayout l address count
            × (bytes_for_bits count ≤ length src)
            × (m'
                ≡ with_bits m area (
                    write_bits_at backing
                      (offset l address)
                      count
                      (take (bytes_for_bits count) src)))
      go none e = absurd (ground arith)
      go (some (none, b)) e = absurd (ground arith)
      go (some (some l, b)) e =
          (l, b, e, contains→InLayout l address count (ground arith), ground arith, ground arith)

  pub read_bits-eq_ok :
      (dst : List ℕ) {dst' : List ℕ}
      → read_bits (some m) area address count dst ≡ ok dst'
      → (l : AreaLayout) × (backing : List ℕ) × (bits_area m area ≡ some (some l, backing))
        × InLayout l address count
        × (bytes_for_bits count ≤ length dst)
        × (dst'
            ≡ copy_bits (take (bytes_for_bits count) dst) backing (offset l address) count
              ++ drop (bytes_for_bits count) dst)
  unfolding read_bits
  read_bits-eq_ok dst {dst'} h = go (bits_area m area) refl
    where
      go :
          (o : Option (Option AreaLayout × List ℕ))
          → bits_area m area ≡ o
          → (l : AreaLayout) × (backing : List ℕ) × (bits_area m area ≡ some (some l, backing))
            × InLayout l address count
            × (bytes_for_bits count ≤ length dst)
            × (dst'
                ≡ copy_bits (take (bytes_for_bits count) dst) backing (offset l address) count
                  ++ drop (bytes_for_bits count) dst)
      go none e = absurd (ground arith)
      go (some (none, b)) e = absurd (ground arith)
      go (some (some l, b)) e =
          (l, b, e, contains→InLayout l address count (ground arith), ground arith, ground arith)

  pub write_regs-eq_ok :
      (src : List ℕ) {m' : Memory}
      → write_regs (some m) area address count src ≡ ok m'
      → (l : AreaLayout) × (backing : List ℕ) × (regs_area m area ≡ some (some l, backing))
        × InLayout l address count
        × (count * 2 ≤ length src)
        × (regs : List ℕ) × (write_regs_loop count 0 backing (offset l address) src ≡ ok regs)
        × (m' ≡ with_regs m area regs)
  unfolding write_regs
  write_regs-eq_ok src {m'} h = go (regs_area m area) refl
    where
      run :
          (l : AreaLayout) (b : List ℕ)
          → regs_area m area ≡ some (some l, b)
          → (r : Outcome MemoryError (List ℕ))
          → write_regs_loop count 0 b (offset l address) src ≡ r
          → (regs : List ℕ) × (write_regs_loop count 0 b (offset l address) src ≡ ok regs)
            × (m' ≡ with_regs m area regs)
      run l b e (ok regs) q = (regs, q, ground arith)
      run l b e (err x) q = absurd (ground arith)
      run l b e panic q = absurd (ground arith)

      go :
          (o : Option (Option AreaLayout × List ℕ))
          → regs_area m area ≡ o
          → (l : AreaLayout) × (backing : List ℕ) × (regs_area m area ≡ some (some l, backing))
            × InLayout l address count
            × (count * 2 ≤ length src)
            × (regs : List ℕ) × (write_regs_loop count 0 backing (offset l address) src ≡ ok regs)
            × (m' ≡ with_regs m area regs)
      go none e = absurd (ground arith)
      go (some (none, b)) e = absurd (ground arith)
      go (some (some l, b)) e =
          let (regs, q, p) = run l b e (write_regs_loop count 0 b (offset l address) src) refl in
          (l, b, e, contains→InLayout l address count (ground arith), ground arith, regs, q, p)

  pub read_regs-eq_ok :
      (dst : List ℕ) {dst' : List ℕ}
      → read_regs (some m) area address count dst ≡ ok dst'
      → (l : AreaLayout) × (backing : List ℕ) × (regs_area m area ≡ some (some l, backing))
        × InLayout l address count
        × (count * 2 ≤ length dst)
        × (read_regs_loop count 0 dst backing (offset l address) ≡ ok dst')
  unfolding read_regs
  read_regs-eq_ok dst {dst'} h = go (regs_area m area) refl
    where
      go :
          (o : Option (Option AreaLayout × List ℕ))
          → regs_area m area ≡ o
          → (l : AreaLayout) × (backing : List ℕ) × (regs_area m area ≡ some (some l, backing))
            × InLayout l address count
            × (count * 2 ≤ length dst)
            × (read_regs_loop count 0 dst backing (offset l address) ≡ ok dst')
      go none e = absurd (ground arith)
      go (some (none, b)) e = absurd (ground arith)
      go (some (some l, b)) e =
          (l, b, e, contains→InLayout l address count (ground arith), ground arith, ground arith)
