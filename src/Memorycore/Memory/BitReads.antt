-- ===== src/Memorycore/Memory/BitReads.antt =====
-- ReadBits of internal/memorycore/memory.go against the view of a memory as one bit at each address.
use mma.Base.{
  ℕ, ◌+◌, ◌-◌, ◌/◌, ◌≤◌, ◌<◌, ◌≡◌, refl, ap, ◌∙◌, arith, ltb, if◌then◌else◌, Bool-cases, inl, inr,
  within, within-true, within_past, some, List, ◌++◌, length, take, drop, All, All-take, All-append,
  All-drop, length-take, get_or-append-drop, length-append, length-drop, ok,
}
use mma.Words.{IsByte}
use mma.Memorycore.Area.{Area}
use mma.Memorycore.Layout.{AreaLayout, offset}
use mma.Memorycore.Layout.Laws.{InLayout}
use mma.Memorycore.Bits.{bytes_for_bits, copy_bits, copy_bits_loop}
use mma.Memorycore.Bits.Loops.{
  copy_bits_loop-IsByte, bit_at, bit_at-copy_bits_loop, length-copy_bits_loop,
}
use mma.Memorycore.Memory.{Memory, bits_area, read_bits}
use mma.Memorycore.Memory.Inversion.{read_bits-eq_ok}
use mma.Memorycore.Memory.WellFormed.{IsWellFormed, HasNarrowBits, bit_value}
use mma.Memorycore.Memory.BitAreas.{
  bytes_for_bits-le, bits_area-IsBacked, bits_area-IsNarrow, offset_in, bit_at-take,
}

-- The bits of `ys`, then those of `xs`.
bit_at-append-drop :
    (ys xs : List ℕ) (n k : ℕ)
    → length ys ≡ n
    → bit_at (ys ++ drop n xs) k ≡ (if ltb (k / 8) n then bit_at ys k else bit_at xs k)
unfolding bit_at
bit_at-append-drop ys xs n k e = rw (← e, get_or-append-drop ys xs (k / 8) 0) (ground arith)

-- The read bits, as the memory's view has them.
bit_value-offset :
    (m : Memory) (area : Area) (l : AreaLayout) (b : List ℕ) (address count k : ℕ)
    → bits_area m area ≡ some (some l, b)
    → InLayout l address count
    → k < count
    → bit_value m area (address + k) ≡ some (bit_at b (address - l.start + k))
unfolding bit_value
bit_value-offset m area l b address count k e range h =
    let shift : address + k - l.start ≡ address - l.start + k = omega arith in
    rw (e, shift) (ground arith)

pub read_bits-parts :
    (m : Memory) (area : Area) (address count : ℕ) (dst : List ℕ) {dst' : List ℕ}
    → IsWellFormed m
    → HasNarrowBits m
    → All IsByte dst
    → read_bits (some m) area address count dst ≡ ok dst'
    → (k : ℕ)
    → (k < count → some (bit_at dst' k) ≡ bit_value m area (address + k))
      × (count ≤ k → bit_at dst' k ≡ bit_at dst k)
      × (length dst' ≡ length dst)
unfolding copy_bits
read_bits-parts m area address count dst {dst'} w narrow hd h k =
    let (l, b, e, range, room, q) = read_bits-eq_ok m area address count dst h in
    let (valid, len, hb) = bits_area-IsBacked m area l b e w in
    let small = bits_area-IsNarrow m area l b e narrow in
    let want = bytes_for_bits count in
    let front = take want dst in
    let fits = bytes_for_bits-le count (omega arith) in
    let fits_b = bytes_for_bits-le l.size small in
    let front_len : length front ≡ want = omega (arith, length-take want dst) in
    let off = offset l address in
    let off_eq = offset_in l address count valid range in
    let copied = copy_bits_loop count 0 front b off in
    let copied_len = length-copy_bits_loop b off count 0 front in
    let bits =
      bit_at-copy_bits_loop b off count 0 front k hb (All-take IsByte want dst hd)
        (omega (arith, off_eq)) (omega (arith, off_eq)) (omega arith) in
    let back = bit_at-append-drop copied dst want k (copied_len ∙ front_len) in
    let pick : bit_at (copied ++ drop want dst) k
        ≡ (if within 0 count k then bit_at b (off + k) else bit_at dst k) =
      ground (arith, back, bits, bit_at-take want dst k) in
    rw (q, pick)
      (
        λ lt.
            rw (bit_value-offset m area l b address count k e range lt, off_eq)
              (rw (within-true 0 count k (omega arith) (omega arith)) refl),
        λ ge. rw (within_past 0 count k (omega arith)) refl,
        rw length-append (omega (arith, copied_len, front_len, length-drop want dst)),
      )

-- On a well-formed memory with narrow bit areas, a ReadBits into a byte buffer that succeeds puts the
-- bits of its range at the front of the buffer, and leaves the buffer's length and its other bits.
pub read_bits-view :
    (m : Memory) (area : Area) (address count : ℕ) (dst : List ℕ) {dst' : List ℕ}
    → IsWellFormed m
    → HasNarrowBits m
    → All IsByte dst
    → read_bits (some m) area address count dst ≡ ok dst'
    → (k : ℕ)
    → (some (bit_at dst' k)
        ≡ (if ltb k count then bit_value m area (address + k) else some (bit_at dst k)))
      × (length dst' ≡ length dst)
read_bits-view m area address count dst w narrow hd h k =
    let (inside, outside, len) = read_bits-parts m area address count dst w narrow hd h k in
    elim (Bool-cases (ltb k count)) [
      | inl e ↦ rw e (inside (ground arith), len)
      | inr e ↦ rw e (ap some (outside (ground arith)), len)
    ]

module _ (m : Memory) (area : Area) (address count : ℕ) where
  -- ReadBits leaves bytes in a buffer of bytes.
  pub read_bits-IsByte :
      (dst : List ℕ) {dst' : List ℕ}
      → All IsByte dst
      → read_bits (some m) area address count dst ≡ ok dst'
      → All IsByte dst'
  unfolding copy_bits
  read_bits-IsByte dst hd h =
      let (l, b, e, range, room, q) = read_bits-eq_ok m area address count dst h in
      let want = bytes_for_bits count in
      rw q (
        All-append IsByte _ _
          (copy_bits_loop-IsByte b (offset l address) count 0 (take want dst)
            (All-take IsByte want dst hd))
          (All-drop IsByte want dst hd))
