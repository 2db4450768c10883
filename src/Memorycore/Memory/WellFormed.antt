-- ===== src/Memorycore/Memory/WellFormed.antt =====
-- The invariant of a memory, and what a client sees of it: a value at each address of each area.
use mma.Base.{
  ℕ, ◌+◌, ◌-◌, ◌≤◌, ◌≡◌, Bool, ◌&&◌, if◌then◌else◌, leb, ltb, Option, none, some, List, length,
  get_or, All, ◌∙◌,
}
use mma.Words.{IsByte, IsU16}
use mma.Memorycore.Area.{Area}
use mma.Memorycore.Layout.{AreaLayout}
use mma.Memorycore.Layout.Laws.{IsLayout}
use mma.Memorycore.Bits.{bytes_for_bits}
use mma.Memorycore.Bits.Loops.{bit_at}
use mma.Memorycore.Memory.{Memory, bits_area, regs_area}

-- The backing slice of an area has the cells that its layout asks for, each in range.
abbrev pub IsBacked : (ℕ → ℕ) → (ℕ → Type 0) → Option AreaLayout → List ℕ → Type 0
IsBacked cells P none backing = Unit {0}
IsBacked cells P (some l) backing = IsLayout l × (length backing ≡ cells l.size) × All P backing

pub record IsWellFormed (m : Memory) : Type 0 where
  pub coils : IsBacked bytes_for_bits IsByte m.coils_layout m.coils_bits
  pub discrete : IsBacked bytes_for_bits IsByte m.discrete_inputs_layout m.discrete_inputs_bits
  pub holding : IsBacked (λ size. size) IsU16 m.holding_regs_layout m.holding_regs
  pub input : IsBacked (λ size. size) IsU16 m.input_regs_layout m.input_regs

-- From 65529 bits on, `bytesForBits` wraps and a layout gets too few bytes.
abbrev pub IsNarrow : Option AreaLayout → Type 0
IsNarrow none = Unit {0}
IsNarrow (some l) = l.size ≤ 65528

abbrev pub HasNarrowBits : Memory → Type 0
HasNarrowBits m = IsNarrow m.coils_layout × IsNarrow m.discrete_inputs_layout

-- No write changes the bit areas' layouts.
pub record SameLayouts (m m' : Memory) : Type 0 where
  pub coils : m'.coils_layout ≡ m.coils_layout
  pub discrete : m'.discrete_inputs_layout ≡ m.discrete_inputs_layout

-- A value for each address of a layout.
abbrev pub at_address {ℓ} : {A : Type ℓ} → Option AreaLayout → (ℕ → A) → ℕ → Option A
at_address none value x = none
at_address (some l) value x =
    if leb l.start x && ltb x (l.start + l.size) then some (value (x - l.start)) else none

abbrev pub bits_view : Option (Option AreaLayout × List ℕ) → ℕ → Option Bool
bits_view none x = none
bits_view (some (layout, backing)) x = at_address layout (bit_at backing) x

abbrev pub regs_view : Option (Option AreaLayout × List ℕ) → ℕ → Option ℕ
regs_view none x = none
regs_view (some (layout, backing)) x = at_address layout (λ k. get_or backing k 0) x

-- The bit, and the register, that a client sees at an address of an area.
unfoldable pub bit_value : Memory → Area → ℕ → Option Bool
bit_value m area x = bits_view (bits_area m area) x

unfoldable pub reg_value : Memory → Area → ℕ → Option ℕ
reg_value m area x = regs_view (regs_area m area) x

-- Another slice of the same length backs the area as well.
pub IsBacked-replace :
    (cells : ℕ → ℕ) (P : ℕ → Type 0) (layout : Option AreaLayout) (b b' : List ℕ)
    → IsBacked cells P layout b
    → length b' ≡ length b
    → All P b'
    → IsBacked cells P layout b'
IsBacked-replace cells P none b b' w len h = tt
IsBacked-replace cells P (some l) b b' (valid, n, _) len h = (valid, len ∙ n, h)
