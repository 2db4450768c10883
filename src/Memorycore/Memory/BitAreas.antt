-- ===== src/Memorycore/Memory/BitAreas.antt =====
-- WriteBits of internal/memorycore/memory.go against the view of a memory as one bit at
-- each address.
use mma.Base.{
  get_or-take, ℕ, ◌-◌, ◌*◌, ◌/◌, ◌≤◌, ◌<◌, ◌≡◌, refl, ap, ◌∙◌, arith, Bool, ◌&&◌, ◌==◌,
  if◌then◌else◌, Bool-cases, inl, inr, within, if-intro, within_congr, Option, none, some, List,
  length, take, All, All-take, length-take, ok,
}
use mathlib.Core.Path.{subst}
use mma.Words.{IsByte}
use mma.Memorycore.Area.{Area}
use mma.Memorycore.Layout.{AreaLayout, offset}
use mma.Memorycore.Layout.Laws.{InLayout, IsLayout, offset-eq}
use mma.Memorycore.Bits.{bytes_for_bits, write_bits_at}
use mma.Memorycore.Bits.Loops.{
  bit_at, bit_at-write_bits_loop, length-write_bits_loop, write_bits_loop-IsByte,
}
use mma.Memorycore.Memory.{Memory, bits_area, with_bits, regs_area, write_bits}
use mma.Memorycore.Memory.Inversion.{write_bits-eq_ok}
use mma.Memorycore.Memory.WellFormed.{
  IsBacked, IsBacked-replace, IsWellFormed, IsNarrow, HasNarrowBits, SameLayouts, at_address,
  bit_value, reg_value,
}

-- Below the wrap, `bytesForBits` gives room for all bits.
pub bytes_for_bits-le : (n : ℕ) → n ≤ 65528 → n ≤ 8 * bytes_for_bits n
unfolding bytes_for_bits
bytes_for_bits-le n h = ground arith

abbrev BitsBacked : Option (Option AreaLayout × List ℕ) → Type 0
BitsBacked none = Unit {0}
BitsBacked (some (layout, b)) = IsBacked bytes_for_bits IsByte layout b

abbrev BitsNarrow : Option (Option AreaLayout × List ℕ) → Type 0
BitsNarrow none = Unit {0}
BitsNarrow (some (layout, b)) = IsNarrow layout

pub bits_area-BitsBacked :
    (m : Memory) (area : Area) → IsWellFormed m → BitsBacked (bits_area m area)
unfolding bits_area
bits_area-BitsBacked m area w =
    if-intro BitsBacked (area == 1) w.coils (if-intro BitsBacked (area == 2) w.discrete tt)

bits_area-BitsNarrow : (m : Memory) (area : Area) → HasNarrowBits m → BitsNarrow (bits_area m area)
unfolding bits_area
bits_area-BitsNarrow m area h =
    if-intro BitsNarrow (area == 1) h.0 (if-intro BitsNarrow (area == 2) h.1 tt)

module _ (m : Memory) (area : Area) (l : AreaLayout) (b : List ℕ)
    (e : bits_area m area ≡ some (some l, b)) where
  pub bits_area-IsBacked : IsWellFormed m → IsBacked bytes_for_bits IsByte (some l) b
  bits_area-IsBacked w = subst BitsBacked e (bits_area-BitsBacked m area w)

  pub bits_area-IsNarrow : HasNarrowBits m → l.size ≤ 65528
  bits_area-IsNarrow h = subst BitsNarrow e (bits_area-BitsNarrow m area h)

  pub bits_area-with_bits :
      (b' : List ℕ) (x : Area)
      → bits_area (with_bits m area b') x ≡ (if x == area then some (some l, b') else bits_area m x)
  unfolding bits_area with_bits
  bits_area-with_bits b' x = ground arith

  pub regs_area-with_bits :
      (b' : List ℕ) (x : Area) → regs_area (with_bits m area b') x ≡ regs_area m x
  unfolding regs_area with_bits
  regs_area-with_bits b' x = ground arith

state_sealing-with_bits :
    (m : Memory) (area : Area) (b : List ℕ) → (with_bits m area b).state_sealing ≡ m.state_sealing
unfolding with_bits
state_sealing-with_bits m area b = ground arith

module _ (l : AreaLayout) (address count : ℕ) (valid : IsLayout l)
    (within_l : InLayout l address count) where
  pub offset_in : offset l address ≡ address - l.start
  offset_in = offset-eq l address valid within_l.from (omega arith)

  -- The written slice, as a client sees it.
  at_address-write_bits_at :
      (b src : List ℕ) (x : ℕ)
      → l.size ≤ 65528
      → All IsByte b
      → All IsByte src
      → length b ≡ bytes_for_bits l.size
      → count ≤ 8 * length src
      → at_address (some l) (bit_at (write_bits_at b (offset l address) count src)) x ≡ (
          if within address count x
          then some (bit_at src (x - address))
          else at_address (some l) (bit_at b) x)
  unfolding write_bits_at
  at_address-write_bits_at b src x small hb hs len room =
      let room_b = bytes_for_bits-le l.size small in
      rw
        (
          offset_in,
          bit_at-write_bits_loop (address - l.start) src count 0 b (x - l.start) hs hb (omega arith)
              (omega arith) (omega arith),
        )
        (ground (arith, moved))
    where
      moved : l.start ≤ x → x - l.start - (address - l.start) ≡ x - address
      moved h = omega arith

pub bit_at-take : (n : ℕ) (xs : List ℕ) (j : ℕ) → j < 8 * n → bit_at (take n xs) j ≡ bit_at xs j
unfolding bit_at
bit_at-take n xs j h = rw (get_or-take n (j / 8) xs 0 (omega arith))

-- The bits of `m` at one area, after that area's slice is replaced.
bits_view-with_bits :
    (m : Memory) (area : Area) (l : AreaLayout) (b b' : List ℕ) (address count k : ℕ)
    (f : ℕ → Option Bool)
    → bits_area m area ≡ some (some l, b)
    → at_address (some l) (bit_at b') k
      ≡ (if within address count k then f k else at_address (some l) (bit_at b) k)
    → (x : Area)
    → bit_value (with_bits m area b') x k
      ≡ (if x == area && within address count k then f k else bit_value m x k)
unfolding bit_value
bits_view-with_bits m area l b b' address count k f e h x = elim (Bool-cases (x == area)) [
  | inl p ↦
      let p' : x ≡ area = ground arith in rw (bits_area-with_bits m area l b e b' x, p, p', e) h
  | inr p ↦ rw (bits_area-with_bits m area l b e b' x, p)
]

-- On a well-formed memory with narrow bit areas, a WriteBits of bytes that succeeds changes the bits
-- of its range to those of `src`, and no other bit, no register and no sealing definition.
pub write_bits-view :
    (m : Memory) (area : Area) (address count : ℕ) (src : List ℕ) {m' : Memory}
    → IsWellFormed m
    → HasNarrowBits m
    → All IsByte src
    → write_bits (some m) area address count src ≡ ok m'
    → (x : Area) (k : ℕ)
    → (bit_value m' x k ≡ (
        if x == area && within address count k
        then some (bit_at src (k - address))
        else bit_value m x k))
      × (reg_value m' x k ≡ reg_value m x k)
      × (m'.state_sealing ≡ m.state_sealing)
unfolding reg_value
write_bits-view m area address count src {m'} w narrow hs h x k =
    let (l, b, e, range, room, q) = write_bits-eq_ok m area address count src h in
    let (valid, len, hb) = bits_area-IsBacked m area l b e w in
    let small = bits_area-IsNarrow m area l b e narrow in
    let want = bytes_for_bits count in
    let src' = take want src in
    let fits = bytes_for_bits-le count (omega arith) in
    let b' = write_bits_at b (offset l address) count src' in
    let view =
      at_address-write_bits_at l address count valid range b src' k small hb
        (All-take IsByte want src hs) len (omega (arith, length-take want src)) in
    rw q (
      bits_view-with_bits m area l b b' address count k (λ j. some (bit_at src (j - address))) e
          (view
            ∙ within_congr address count k _ _ _
                (λ lo hi. ap some (bit_at-take want src (k - address) (omega arith))))
          x,
      rw (regs_area-with_bits m area l b e b' x) refl,
      state_sealing-with_bits m area b',
    )

with_bits-IsWellFormed :
    (m : Memory) (area : Area) (l : AreaLayout) (b b' : List ℕ)
    → bits_area m area ≡ some (some l, b)
    → IsWellFormed m
    → length b' ≡ length b
    → All IsByte b'
    → IsWellFormed (with_bits m area b')
unfolding bits_area with_bits
with_bits-IsWellFormed m area l b b' e w len hb = elim (Bool-cases (area == 1)) [
  | inl p ↦
      let own : m.coils_bits ≡ b = ground arith in
      rw p (record {
        coils =
            IsBacked-replace bytes_for_bits IsByte m.coils_layout m.coils_bits b' w.coils
              (rw own len) hb;
        discrete = w.discrete;
        holding = w.holding;
        input = w.input;
      })
  | inr p ↦
      let own : m.discrete_inputs_bits ≡ b = ground arith in
      rw p (record {
        coils = w.coils;
        discrete =
            IsBacked-replace bytes_for_bits IsByte m.discrete_inputs_layout m.discrete_inputs_bits
              b' w.discrete (rw own len) hb;
        holding = w.holding;
        input = w.input;
      })
]

-- A WriteBits that succeeds keeps a well-formed memory well formed.
pub write_bits-IsWellFormed :
    (m : Memory) (area : Area) (address count : ℕ) (src : List ℕ) {m' : Memory}
    → IsWellFormed m
    → write_bits (some m) area address count src ≡ ok m'
    → IsWellFormed m'
unfolding write_bits_at
write_bits-IsWellFormed m area address count src w h =
    let (l, b, e, range, room, q) = write_bits-eq_ok m area address count src h in
    let (valid, len, hb) = bits_area-IsBacked m area l b e w in
    let src' = take (bytes_for_bits count) src in
    rw q (
      with_bits-IsWellFormed m area l b _ e w
        (length-write_bits_loop (offset l address) src' count 0 b)
        (write_bits_loop-IsByte (offset l address) src' count 0 b hb))

-- WriteBits changes no layout.
pub write_bits-SameLayouts :
    (m : Memory) (area : Area) (address count : ℕ) (src : List ℕ) {m' : Memory}
    → write_bits (some m) area address count src ≡ ok m'
    → SameLayouts m m'
write_bits-SameLayouts m area address count src h =
    let (l, b, e, range, room, q) = write_bits-eq_ok m area address count src h in
    rw q (kept (write_bits_at b (offset l address) count (take (bytes_for_bits count) src)))
  where
    kept : (b : List ℕ) → SameLayouts m (with_bits m area b)
    kept b = unfold with_bits in record { coils = ground arith; discrete = ground arith }

pub write_bits-HasNarrowBits :
    (m : Memory) (area : Area) (address count : ℕ) (src : List ℕ) {m' : Memory}
    → write_bits (some m) area address count src ≡ ok m'
    → HasNarrowBits m
    → HasNarrowBits m'
write_bits-HasNarrowBits m area address count src h narrow =
    let same = write_bits-SameLayouts m area address count src h in
    rw (same.coils, same.discrete) narrow
