-- ===== src/Memorycore/Memory/RegAreas.antt =====
-- WriteRegs of internal/memorycore/memory.go against the view of a memory as one
-- register at each address.
use mathlib.Core.Path.{subst}
use mma.Base.{
  true, ℕ, ◌+◌, ◌-◌, ◌≤◌, ◌≡◌, refl, sym, ap, ◌∙◌, arith, ◌&&◌, ◌==◌, if◌then◌else◌, Bool-cases,
  inl, inr, within, if-intro, Option, none, some, List, length, All, ok, ok-injective,
}
use mma.Words.{IsByte, IsU16, word_at}
use mma.Memorycore.Area.{Area}
use mma.Memorycore.Layout.{AreaLayout, offset}
use mma.Memorycore.Layout.Laws.{InLayout, IsLayout, offset-eq}
use mma.Memorycore.Memory.{Memory, bits_area, regs_area, with_regs, write_regs}
use mma.Memorycore.Memory.Inversion.{write_regs-eq_ok}
use mma.Memorycore.Memory.Words.{
  written, write_regs_loop-written, length-written, written-IsU16, get_or-written,
}
use mma.Memorycore.Memory.WellFormed.{
  IsBacked, IsBacked-replace, IsWellFormed, SameLayouts, regs_view, bit_value, reg_value,
}

abbrev RegsBacked : Option (Option AreaLayout × List ℕ) → Type 0
RegsBacked none = Unit {0}
RegsBacked (some (layout, b)) = IsBacked (λ size. size) IsU16 layout b

pub regs_area-RegsBacked :
    (m : Memory) (area : Area) → IsWellFormed m → RegsBacked (regs_area m area)
unfolding regs_area
regs_area-RegsBacked m area w =
    if-intro RegsBacked (area == 3) w.holding (if-intro RegsBacked (area == 4) w.input tt)

module _ (m : Memory) (area : Area) (l : AreaLayout) (b : List ℕ)
    (e : regs_area m area ≡ some (some l, b)) where
  pub regs_area-IsBacked : IsWellFormed m → IsBacked (λ size. size) IsU16 (some l) b
  regs_area-IsBacked w = subst RegsBacked e (regs_area-RegsBacked m area w)

  regs_area-with_regs :
      (b' : List ℕ) (x : Area)
      → regs_area (with_regs m area b') x ≡ (if x == area then some (some l, b') else regs_area m x)
  unfolding regs_area with_regs
  regs_area-with_regs b' x = ground arith

  bits_area-with_regs : (b' : List ℕ) (x : Area) → bits_area (with_regs m area b') x ≡ bits_area m x
  unfolding bits_area with_regs
  bits_area-with_regs b' x = ground arith

state_sealing-with_regs :
    (m : Memory) (area : Area) (b : List ℕ) → (with_regs m area b).state_sealing ≡ m.state_sealing
unfolding with_regs
state_sealing-with_regs m area b = ground arith

-- The registers of `m` at one area, after that area's slice is replaced.
regs_view-with_regs :
    (m : Memory) (area : Area) (l : AreaLayout) (b b' : List ℕ) (address count k : ℕ)
    (f : ℕ → Option ℕ)
    → regs_area m area ≡ some (some l, b)
    → regs_view (some (some l, b')) k
      ≡ (if within address count k then f k else regs_view (some (some l, b)) k)
    → (x : Area)
    → reg_value (with_regs m area b') x k
      ≡ (if x == area && within address count k then f k else reg_value m x k)
unfolding reg_value
regs_view-with_regs m area l b b' address count k f e h x = elim (Bool-cases (x == area)) [
  | inl p ↦
      let p' : x ≡ area = ground arith in rw (regs_area-with_regs m area l b e b' x, p, p', e) h
  | inr p ↦ rw (regs_area-with_regs m area l b e b' x, p)
]

with_regs-IsWellFormed :
    (m : Memory) (area : Area) (l : AreaLayout) (b b' : List ℕ)
    → regs_area m area ≡ some (some l, b)
    → IsWellFormed m
    → length b' ≡ length b
    → All IsU16 b'
    → IsWellFormed (with_regs m area b')
unfolding regs_area with_regs
with_regs-IsWellFormed m area l b b' e w len hb = elim (Bool-cases (area == 3)) [
  | inl p ↦
      let own : m.holding_regs ≡ b = ground arith in
      rw p (record {
        coils = w.coils;
        discrete = w.discrete;
        holding =
            IsBacked-replace (λ size. size) IsU16 m.holding_regs_layout m.holding_regs b' w.holding
              (rw own len) hb;
        input = w.input;
      })
  | inr p ↦
      let own : m.input_regs ≡ b = ground arith in
      rw p (record {
        coils = w.coils;
        discrete = w.discrete;
        holding = w.holding;
        input =
            IsBacked-replace (λ size. size) IsU16 m.input_regs_layout m.input_regs b' w.input
              (rw own len) hb;
      })
]

module _ (l : AreaLayout) (address count : ℕ) (valid : IsLayout l)
    (range : InLayout l address count) where
  pub offset_in : offset l address ≡ address - l.start
  offset_in = offset-eq l address valid range.from (omega arith)

  pub offset_fits : offset l address + 0 + count ≤ l.size
  offset_fits = omega (arith, offset_in)

  -- The written slice, as a client sees it.
  regs_view-written :
      (b src : List ℕ) (x : ℕ)
      → length b ≡ l.size
      → regs_view (some (some l, written (offset l address) src count 0 b)) x ≡ (
          if within address count x
          then some (word_at src (x - address))
          else regs_view (some (some l, b)) x)
  regs_view-written b src x len =
      rw (offset_in, get_or-written (address - l.start) src count 0 b (x - l.start) (omega arith))
        (ground (arith, moved))
    where
      moved : l.start ≤ x → x - l.start - (address - l.start) ≡ x - address
      moved h = omega arith

module _ (m : Memory) (area : Area) (address count : ℕ) (src : List ℕ) {m' : Memory}
    (w : IsWellFormed m) (h : write_regs (some m) area address count src ≡ ok m') where
  -- The slice that a successful WriteRegs leaves.
  write_regs-slice :
      (l : AreaLayout) × (b : List ℕ) × (regs_area m area ≡ some (some l, b))
      × InLayout l address count
      × IsBacked (λ size. size) IsU16 (some l) b
      × (m' ≡ with_regs m area (written (offset l address) src count 0 b))
  write_regs-slice =
      let (l, b, e, range, room, regs, r, q) = write_regs-eq_ok m area address count src h in
      let (valid, len, hb) = regs_area-IsBacked m area l b e w in
      let fits = offset_fits l address count valid range in
      let run =
        write_regs_loop-written (offset l address) src count 0 b (omega arith) (omega arith)
          (omega arith) in
      (l, b, e, range, (valid, len, hb), q ∙ ap (with_regs m area) (ok-injective (sym r ∙ run)))

  -- On a well-formed memory, a WriteRegs that succeeds changes the registers of its range to the
  -- big-endian words of `src`, and no other register, no bit and no sealing definition.
  pub write_regs-view :
      (x : Area) (k : ℕ)
      → (reg_value m' x k ≡ (
          if x == area && within address count k
          then some (word_at src (k - address))
          else reg_value m x k))
        × (bit_value m' x k ≡ bit_value m x k)
        × (m'.state_sealing ≡ m.state_sealing)
  unfolding bit_value
  write_regs-view x k =
      let (l, b, e, range, (valid, len, hb), q) = write_regs-slice in
      let b' = written (offset l address) src count 0 b in
      rw q (
        regs_view-with_regs m area l b b' address count k (λ j. some (word_at src (j - address))) e
            (regs_view-written l address count valid range b src k len) x,
        rw (bits_area-with_regs m area l b e b' x) refl,
        state_sealing-with_regs m area b',
      )

  -- A WriteRegs of bytes that succeeds keeps a well-formed memory well formed.
  pub write_regs-IsWellFormed : All IsByte src → IsWellFormed m'
  write_regs-IsWellFormed hs =
      let (l, b, e, range, (valid, len, hb), q) = write_regs-slice in
      rw q (
        with_regs-IsWellFormed m area l b _ e w (length-written (offset l address) src count 0 b)
          (written-IsU16 (offset l address) src count 0 b hs hb))

  -- WriteRegs changes no layout.
  pub write_regs-SameLayouts : SameLayouts m m'
  write_regs-SameLayouts =
      let (l, b, e, range, backed, q) = write_regs-slice in
      rw q (kept (written (offset l address) src count 0 b))
    where
      kept : (b : List ℕ) → SameLayouts m (with_regs m area b)
      kept b = unfold with_regs in record { coils = ground arith; discrete = ground arith }

  -- What WriteRegs covered it covers afterwards.
  pub write_regs-RegsCover :
      (l : AreaLayout) × (b : List ℕ) × (regs_area m' area ≡ some (some l, b))
      × InLayout l address count
  write_regs-RegsCover =
      let (l, b, e, range, backed, q) = write_regs-slice in
      let b' = written (offset l address) src count 0 b in
      let self : (area == area) ≡ true = ground arith in
      (l, b', rw (q, regs_area-with_regs m area l b e b' area, self), range)
