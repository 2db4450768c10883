-- ===== src/Memorycore/Units.antt =====
-- What internal/memorycore is to its clients: a table of units, and for each unit a value at each
-- address, whatever the layouts and the packing.
pub mod Views
use mma.Base.{
  ℕ, zero, suc, ◌+◌, ◌-◌, Bool, true, false, ◌&&◌, ◌==◌, if◌then◌else◌, within, Option, none, some,
}
use mma.Memorycore.Area.{Area}
use mma.Memorycore.Memory.{StateSealingDef}
use mma.Memorycore.Store.{MemoryId, same_id}

-- The values that one unit has: `none` where an address has no value. `seal` names the bit that seals
-- the unit while it is not set.
pub record Cells : Type 0 where
  pub bit : Area → ℕ → Option Bool
  pub reg : Area → ℕ → Option ℕ
  pub seal : Option StateSealingDef

abbrev pub Units : Type 0
Units = MemoryId → Option Cells

-- Every one of the `quantity` addresses has a value.
unfoldable pub holds {ℓ} : {A : Type ℓ} → (ℕ → Option A) → ℕ → ℕ → Bool
holds f address zero = true
holds f address (suc quantity) = elim (f address) [
  | none ↦ false
  | some a ↦ holds f (address + 1) quantity
]

-- The values of an area replaced in a range.
abbrev pub put_bits_in : Cells → Area → ℕ → ℕ → (ℕ → Bool) → Cells
put_bits_in c area address quantity values = record c {
  bit = λ x k.
      if x == area && within address quantity k then some (values (k - address)) else c.bit x k;
}

abbrev pub put_regs_in : Cells → Area → ℕ → ℕ → (ℕ → ℕ) → Cells
put_regs_in c area address quantity values = record c {
  reg = λ x k.
      if x == area && within address quantity k then some (values (k - address)) else c.reg x k;
}

abbrev pub with_unit : Units → MemoryId → Cells → Units
with_unit u id c = λ j. if same_id id j then some c else u j
