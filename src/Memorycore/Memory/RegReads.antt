-- ===== src/Memorycore/Memory/RegReads.antt =====
-- ReadRegs of internal/memorycore/memory.go against the view of a memory as one register at each
-- address.
use mma.Base.{
  ℕ, ◌+◌, ◌-◌, ◌≤◌, ◌<◌, ◌≡◌, refl, sym, ap, ◌∙◌, arith, ltb, if◌then◌else◌, Bool-cases, inl, inr,
  within-true, within_past, some, List, length, All, ok, ok-injective,
}
use mma.Words.{IsByte, word_at}
use mma.Memorycore.Area.{Area}
use mma.Memorycore.Layout.{offset}
use mma.Memorycore.Memory.{Memory, read_regs}
use mma.Memorycore.Memory.Inversion.{read_regs-eq_ok}
use mma.Memorycore.Memory.Words.{
  copied, read_regs_loop-copied, length-copied, copied-IsByte, word_at-copied,
}
use mma.Memorycore.Memory.WellFormed.{IsWellFormed, reg_value}
use mma.Memorycore.Memory.RegAreas.{regs_area-IsBacked, offset_in, offset_fits}

pub read_regs-parts :
    (m : Memory) (area : Area) (address count : ℕ) (dst : List ℕ) {dst' : List ℕ}
    → IsWellFormed m
    → read_regs (some m) area address count dst ≡ ok dst'
    → (k : ℕ)
    → (k < count → some (word_at dst' k) ≡ reg_value m area (address + k))
      × (count ≤ k → word_at dst' k ≡ word_at dst k)
      × (length dst' ≡ length dst)
unfolding reg_value
read_regs-parts m area address count dst {dst'} w h k =
    let (l, b, e, range, room, r) = read_regs-eq_ok m area address count dst h in
    let (valid, len, hb) = regs_area-IsBacked m area l b e w in
    let fits = offset_fits l address count valid range in
    let off = offset l address in
    let off_eq = offset_in l address count valid range in
    let run = read_regs_loop-copied b off count 0 dst (omega arith) (omega arith) (omega arith) in
    let q : dst' ≡ copied b off count 0 dst = ok-injective (sym r ∙ run) in
    let shift : address + k - l.start ≡ off + k = omega (arith, off_eq) in
    rw (q, word_at-copied b off count 0 dst k hb (omega arith), e, shift)
      (
        λ lt. rw (within-true 0 count k (omega arith) (omega arith)) (ground arith),
        λ ge. rw (within_past 0 count k (omega arith)) refl,
        length-copied b off count 0 dst,
      )

-- On a well-formed memory, a ReadRegs that succeeds puts the registers of its range, big-endian, at
-- the front of the buffer, and leaves the buffer's length and its other words.
pub read_regs-view :
    (m : Memory) (area : Area) (address count : ℕ) (dst : List ℕ) {dst' : List ℕ}
    → IsWellFormed m
    → read_regs (some m) area address count dst ≡ ok dst'
    → (k : ℕ)
    → (some (word_at dst' k)
        ≡ (if ltb k count then reg_value m area (address + k) else some (word_at dst k)))
      × (length dst' ≡ length dst)
read_regs-view m area address count dst w h k =
    let (inside, outside, len) = read_regs-parts m area address count dst w h k in
    elim (Bool-cases (ltb k count)) [
      | inl e ↦ rw e (inside (ground arith), len)
      | inr e ↦ rw e (ap some (outside (ground arith)), len)
    ]

-- ReadRegs leaves bytes in a buffer of bytes.
pub read_regs-IsByte :
    (m : Memory) (area : Area) (address count : ℕ) (dst : List ℕ) {dst' : List ℕ}
    → IsWellFormed m
    → All IsByte dst
    → read_regs (some m) area address count dst ≡ ok dst'
    → All IsByte dst'
read_regs-IsByte m area address count dst {dst'} w hd h =
    let (l, b, e, range, room, r) = read_regs-eq_ok m area address count dst h in
    let (valid, len, hb) = regs_area-IsBacked m area l b e w in
    let fits = offset_fits l address count valid range in
    let off = offset l address in
    let run = read_regs_loop-copied b off count 0 dst (omega arith) (omega arith) (omega arith) in
    let q : dst' ≡ copied b off count 0 dst = ok-injective (sym r ∙ run) in
    rw q (copied-IsByte b off count 0 dst hd)
