-- ===== src/Memorycore/Units/Views.antt =====
-- The cells of a memory and the units of a store of internal/memorycore, and how a write changes them.
use mma.Base.{
  ℕ, zero, suc, ◌+◌, ◌-◌, ◌<◌, ◌≤◌, ◌≡◌, ◌≢◌, inl, inr, refl, sym, ap, ◌∙◌, fun_ext, arith, Bool,
  true, false, ◌&&◌, ◌==◌, if◌then◌else◌, Bool-cases, within, Option, none, some, List, get_or, All,
  ok,
}
use mma.Words.{IsByte, word_at}
use mma.Memorycore.Area.{Area}
use mma.Memorycore.Layout.{AreaLayout}
use mma.Memorycore.Layout.Laws.{InLayout}
use mma.Memorycore.Bits.Loops.{bit_at}
use mma.Memorycore.Memory.{Memory, bits_area, regs_area, write_bits, write_regs}
use mma.Memorycore.Memory.WellFormed.{
  IsWellFormed, HasNarrowBits, at_address, bits_view, regs_view, bit_value, reg_value,
}
use mma.Memorycore.Memory.Acceptance.{BitsCover, RegsCover}
use mma.Memorycore.Memory.BitAreas.{write_bits-view}
use mma.Memorycore.Memory.RegAreas.{write_regs-view}
use mma.Memorycore.Store.{MemoryId, same_id, Store, Pointer, deref, update, get}
use mma.Memorycore.Store.Laws.{same_id_refl, same_id→eq}
use mma.Memorycore.Store.WellFormed.{IsSoundStore, get-update, deref-update_self, deref-update_ne}
use mma.Memorycore.Units.{Cells, Units, holds, put_bits_in, put_regs_in, with_unit}

-- The abstraction functions.
abbrev pub cells : Memory → Cells
cells m = record { bit = bit_value m; reg = reg_value m; seal = m.state_sealing }

abbrev pub unit_of : Store → Option Pointer → Option Cells
unit_of s none = none
unit_of s (some p) = elim (deref s p) [ none ↦ none | some m ↦ some (cells m) ]

abbrev pub units : Store → Units
units s id = unit_of s (get (some s) id)

-- A range of a layout holds a value at each address, and only such a range does.
module _ {ℓ} {A : Type ℓ} (l : AreaLayout) (value : ℕ → A) where
  holds-at_address :
      (quantity address : ℕ)
      → l.start ≤ address
      → address + quantity ≤ l.start + l.size
      → holds (at_address (some l) value) address quantity ≡ true
  unfolding holds
  holds-at_address zero address lo hi = refl
  holds-at_address (suc quantity) address lo hi =
      ground (arith, holds-at_address quantity (address + 1) (omega arith) (omega arith))

  at_address-holds :
      (quantity address : ℕ)
      → 0 < quantity
      → holds (at_address (some l) value) address quantity ≡ true
      → InLayout l address quantity
  unfolding holds
  at_address-holds zero address pos h = absurd (omega arith)
  at_address-holds (suc zero) address pos h = record {
    nonempty = omega arith;
    from = ground arith;
    until = ground arith;
  }
  at_address-holds (suc (suc quantity)) address pos h =
      let here : l.start ≤ address = ground arith in
      let rest = at_address-holds (suc quantity) (address + 1) (omega arith) (ground arith) in
      record { nonempty = omega arith; from = here; until = omega (arith, rest.until) }

holds-none {ℓ} :
    (A : Type ℓ) (quantity address : ℕ)
    → 0 < quantity
    → holds {A = A} (λ _. none) address quantity ≡ false
unfolding holds
holds-none A zero address pos = absurd (omega arith)
holds-none A (suc quantity) address pos = refl

-- The test of the contract, and the range check of the code.
module _ (m : Memory) (area : Area) (address quantity : ℕ) where
  bit_value-area :
      (o : Option (Option AreaLayout × List ℕ))
      → bits_area m area ≡ o
      → bit_value m area ≡ bits_view o
  unfolding bit_value
  bit_value-area o e = ap bits_view e

  reg_value-area :
      (o : Option (Option AreaLayout × List ℕ))
      → regs_area m area ≡ o
      → reg_value m area ≡ regs_view o
  unfolding reg_value
  reg_value-area o e = ap regs_view e

  pub BitsCover-holds :
      BitsCover m area address quantity → holds (bit_value m area) address quantity ≡ true
  BitsCover-holds (l, b, e, range) =
      rw (bit_value-area _ e)
        (holds-at_address l (bit_at b) quantity address range.from range.until)

  pub RegsCover-holds :
      RegsCover m area address quantity → holds (reg_value m area) address quantity ≡ true
  RegsCover-holds (l, b, e, range) =
      rw (reg_value-area _ e)
        (holds-at_address l (λ k. get_or b k 0) quantity address range.from range.until)

  pub holds-BitsCover :
      0 < quantity
      → holds (bit_value m area) address quantity ≡ true
      → BitsCover m area address quantity
  holds-BitsCover pos h = found (bits_area m area) refl
    where
      found :
          (o : Option (Option AreaLayout × List ℕ))
          → bits_area m area ≡ o
          → BitsCover m area address quantity
      found none e =
          absurd (cc (rw (bit_value-area _ e) at h, holds-none Bool quantity address pos))
      found (some (none, b)) e =
          absurd (cc (rw (bit_value-area _ e) at h, holds-none Bool quantity address pos))
      found (some (some l, b)) e = (
        l,
        b,
        e,
        at_address-holds l (bit_at b) quantity address pos (rw (bit_value-area _ e) at h),
      )

  pub holds-RegsCover :
      0 < quantity
      → holds (reg_value m area) address quantity ≡ true
      → RegsCover m area address quantity
  holds-RegsCover pos h = found (regs_area m area) refl
    where
      found :
          (o : Option (Option AreaLayout × List ℕ))
          → regs_area m area ≡ o
          → RegsCover m area address quantity
      found none e = absurd (cc (rw (reg_value-area _ e) at h, holds-none ℕ quantity address pos))
      found (some (none, b)) e =
          absurd (cc (rw (reg_value-area _ e) at h, holds-none ℕ quantity address pos))
      found (some (some l, b)) e = (
        l,
        b,
        e,
        at_address-holds l (λ k. get_or b k 0) quantity address pos (rw (reg_value-area _ e) at h),
      )

-- Only the values of the range count.
module _ {ℓ} {A : Type ℓ} (old : Area → ℕ → Option A) (address quantity : ℕ) (f g : ℕ → A)
    (same : (k : ℕ) → k < quantity → f k ≡ g k) where
  put_congr :
      (area x : Area) (k : ℕ)
      → (if x == area && within address quantity k then some (f (k - address)) else old x k)
        ≡ (if x == area && within address quantity k then some (g (k - address)) else old x k)
  put_congr area x k = elim (Bool-cases (x == area && within address quantity k)) [
    | inr off ↦ rw off refl
    | inl on ↦ rw on (ap some (same (k - address) (ground arith)))
  ]

pub put_bits_in-congr :
    (c : Cells) (area : Area) (address quantity : ℕ) (f g : ℕ → Bool)
    → ((k : ℕ) → k < quantity → f k ≡ g k)
    → put_bits_in c area address quantity f ≡ put_bits_in c area address quantity g
put_bits_in-congr c area address quantity f g same =
    λ i. record c { bit = λ x k. put_congr c.bit address quantity f g same area x k i }

pub put_regs_in-congr :
    (c : Cells) (area : Area) (address quantity : ℕ) (f g : ℕ → ℕ)
    → ((k : ℕ) → k < quantity → f k ≡ g k)
    → put_regs_in c area address quantity f ≡ put_regs_in c area address quantity g
put_regs_in-congr c area address quantity f g same =
    λ i. record c { reg = λ x k. put_congr c.reg address quantity f g same area x k i }

-- A write that succeeds, on the cells.
module _ (m : Memory) (area : Area) (address quantity : ℕ) (src : List ℕ) {m' : Memory}
    (w : IsWellFormed m) where
  pub cells-write_bits :
      HasNarrowBits m
      → All IsByte src
      → write_bits (some m) area address quantity src ≡ ok m'
      → cells m' ≡ put_bits_in (cells m) area address quantity (bit_at src)
  cells-write_bits narrow hs h =
      let view = write_bits-view m area address quantity src w narrow hs h in
      let bits : bit_value m' ≡ (put_bits_in (cells m) area address quantity (bit_at src)).bit =
        fun_ext λ x. fun_ext λ k. (view x k).0 in
      let regs : reg_value m' ≡ reg_value m = fun_ext λ x. fun_ext λ k. (view x k).1 in
      λ i. record { bit = bits i; reg = regs i; seal = (view 0 0).2 i }

  pub cells-write_regs :
      write_regs (some m) area address quantity src ≡ ok m'
      → cells m' ≡ put_regs_in (cells m) area address quantity (word_at src)
  cells-write_regs h =
      let view = write_regs-view m area address quantity src w h in
      let regs : reg_value m' ≡ (put_regs_in (cells m) area address quantity (word_at src)).reg =
        fun_ext λ x. fun_ext λ k. (view x k).0 in
      let bits : bit_value m' ≡ bit_value m = fun_ext λ x. fun_ext λ k. (view x k).1 in
      λ i. record { bit = bits i; reg = regs i; seal = (view 0 0).2 i }

same_id_apart : (i j : MemoryId) → same_id i j ≡ false → i ≢ j
same_id_apart i j h same = cc (h, same_id_refl j, ap (λ (k : MemoryId). same_id k j) same)

-- A write through the pointer of an identifier changes the unit of that identifier and no other.
pub units-update :
    (s : Store) (id : MemoryId) (p : Pointer) (m' : Memory)
    → IsSoundStore s
    → get (some s) id ≡ some p
    → units (update s p m') ≡ with_unit (units s) id (cells m')
units-update s id p m' w g = fun_ext λ j. elim (Bool-cases (same_id id j)) [
  | inl e ↦
      rw
        (
          e,
          ← same_id→eq id j e,
          get-update s p m' id,
          g,
          deref-update_self s p m' (w.reaches id p g),
          unit_of,
        )
        refl
  | inr e ↦ rw (e, get-update s p m' j) (other j e (get (some s) j) refl)
]
  where
    other :
        (j : MemoryId)
        → same_id id j ≡ false
        → (o : Option Pointer) → get (some s) j ≡ o
        → unit_of (update s p m') o ≡ unit_of s o
    other j e none h = refl
    other j e (some q) h =
        rw
          (
            deref-update_ne s p m' q
                (λ same. same_id_apart id j e (w.unshared id j p g (h ∙ ap some (sym same)))),
            unit_of,
          )
          refl
