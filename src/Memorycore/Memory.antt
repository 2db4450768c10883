-- ===== src/Memorycore/Memory.antt =====
-- internal/memorycore/memory.go and state_sealing.go. A nil pointer is `none`. A method that writes
-- returns the new memory; `dst` buffers are returned too. The mutex makes each method one step.
pub mod Create
pub mod Acceptance
pub mod RoundTrip
pub mod RegAreas
pub mod BitAreas
pub mod BitReads
pub mod RegReads
pub mod Words
pub mod WellFormed
pub mod Inversion
use mma.Base.{
  ℕ, zero, suc, ◌+◌, ◌*◌, Bool, not, ◌==◌, ltb, leb, if◌then◌else◌, Option, none, some, List, [],
  ◌++◌, length, get_elem?, set, take, drop, replicate, Outcome, ok, err, panic, ◌>>=◌, ◌>>◌,
  fail_if, non_nil,
}
use mma.Words.{u16, load_u16, store_u16}
use mma.Memorycore.Errors.{
  MemoryError, nil_memory, count_zero, invalid_area, area_not_defined, out_of_bounds, dst_too_small,
  src_too_small,
}
use mma.Memorycore.Area.{Area, area_coils, area_discrete_inputs, area_holding_regs, area_input_regs}
use mma.Memorycore.Layout.{AreaLayout, validate, contains, offset}
use mma.Memorycore.Bits.{bytes_for_bits, copy_bits, write_bits_at}

-- internal/memorycore/state_sealing.go
pub record StateSealingDef : Type 0 where
  pub area : Area
  pub address : ℕ

pub record MemoryLayouts : Type 0 where
  pub coils : Option AreaLayout
  pub discrete_inputs : Option AreaLayout
  pub holding_regs : Option AreaLayout
  pub input_regs : Option AreaLayout

pub record Memory : Type 0 where
  pub coils_layout : Option AreaLayout
  pub discrete_inputs_layout : Option AreaLayout
  pub holding_regs_layout : Option AreaLayout
  pub input_regs_layout : Option AreaLayout
  pub coils_bits : List ℕ
  pub discrete_inputs_bits : List ℕ
  pub holding_regs : List ℕ
  pub input_regs : List ℕ
  pub state_sealing : Option StateSealingDef

-- The layout of one area validated, and its backing slice allocated with `cells` cells.
unfoldable pub allocate : Option AreaLayout → (ℕ → ℕ) → Outcome MemoryError (List ℕ)
unfolding validate
allocate none cells = ok []
allocate (some l) cells = do validate l; ok (replicate (cells l.size) 0)

unfoldable pub new_memory : MemoryLayouts → Outcome MemoryError Memory
new_memory layouts = do
  coils ← allocate layouts.coils bytes_for_bits
  discrete ← allocate layouts.discrete_inputs bytes_for_bits
  holding ← allocate layouts.holding_regs (λ size. size)
  input ← allocate layouts.input_regs (λ size. size)
  ok (record {
    coils_layout = layouts.coils;
    discrete_inputs_layout = layouts.discrete_inputs;
    holding_regs_layout = layouts.holding_regs;
    input_regs_layout = layouts.input_regs;
    coils_bits = coils;
    discrete_inputs_bits = discrete;
    holding_regs = holding;
    input_regs = input;
    state_sealing = none;
  })

unfoldable pub set_state_sealing : Memory → StateSealingDef → Memory
set_state_sealing m def = record m { state_sealing = some def }

-- The `switch area` of ReadBits and WriteBits: layout and backing.
unfoldable pub bits_area : Memory → Area → Option (Option AreaLayout × List ℕ)
bits_area m area =
    if area == area_coils
    then some (m.coils_layout, m.coils_bits)
    else if area == area_discrete_inputs
    then some (m.discrete_inputs_layout, m.discrete_inputs_bits)
    else none

-- `backing` is the memory's own slice: what is written to it is seen in the memory.
unfoldable pub with_bits : Memory → Area → List ℕ → Memory
with_bits m area bits =
    if area == area_coils
    then record m { coils_bits = bits }
    else record m { discrete_inputs_bits = bits }

-- The `switch area` of ReadRegs and WriteRegs.
unfoldable pub regs_area : Memory → Area → Option (Option AreaLayout × List ℕ)
regs_area m area =
    if area == area_holding_regs
    then some (m.holding_regs_layout, m.holding_regs)
    else if area == area_input_regs
    then some (m.input_regs_layout, m.input_regs)
    else none

unfoldable pub with_regs : Memory → Area → List ℕ → Memory
with_regs m area regs =
    if area == area_holding_regs
    then record m { holding_regs = regs }
    else record m { input_regs = regs }

unfoldable pub read_bits : Option Memory → Area → ℕ → ℕ → List ℕ → Outcome MemoryError (List ℕ)
read_bits none area address count dst = err nil_memory
read_bits (some m) area address count dst = do
  fail_if (count == 0) count_zero
  (layout, backing) ← non_nil (bits_area m area) invalid_area
  l ← non_nil layout area_not_defined
  fail_if (not (contains l address count)) out_of_bounds
  let want = bytes_for_bits count
  fail_if (ltb (length dst) want) dst_too_small
  let off = offset l address
  ok (copy_bits (take want dst) backing off count ++ drop want dst)

unfoldable pub write_bits : Option Memory → Area → ℕ → ℕ → List ℕ → Outcome MemoryError Memory
write_bits none area address count src = err nil_memory
write_bits (some m) area address count src = do
  fail_if (count == 0) count_zero
  (layout, backing) ← non_nil (bits_area m area) invalid_area
  l ← non_nil layout area_not_defined
  fail_if (not (contains l address count)) out_of_bounds
  let want = bytes_for_bits count
  fail_if (ltb (length src) want) src_too_small
  let off = offset l address
  ok (with_bits m area (write_bits_at backing off count (take want src)))

unfoldable pub read_regs_loop : ℕ → ℕ → List ℕ → List ℕ → ℕ → Outcome MemoryError (List ℕ)
read_regs_loop zero i dst backing off = ok dst
read_regs_loop (suc rounds) i dst backing off = do
  v ← elim (get_elem? backing (u16 (off + i))) [ none ↦ panic | some v ↦ ok v ]
  dst' ← store_u16 dst (i * 2) v
  read_regs_loop rounds (i + 1) dst' backing off

unfoldable pub read_regs : Option Memory → Area → ℕ → ℕ → List ℕ → Outcome MemoryError (List ℕ)
read_regs none area address count dst = err nil_memory
read_regs (some m) area address count dst = do
  fail_if (count == 0) count_zero
  let want = count * 2
  fail_if (ltb (length dst) want) dst_too_small
  (layout, backing) ← non_nil (regs_area m area) invalid_area
  l ← non_nil layout area_not_defined
  fail_if (not (contains l address count)) out_of_bounds
  let off = offset l address
  read_regs_loop count 0 dst backing off

unfoldable pub write_regs_loop : ℕ → ℕ → List ℕ → ℕ → List ℕ → Outcome MemoryError (List ℕ)
write_regs_loop zero i backing off src = ok backing
write_regs_loop (suc rounds) i backing off src = do
  v ← load_u16 src (i * 2)
  let k = u16 (off + i)
  backing' ← if ltb k (length backing) then ok (set backing k v) else panic
  write_regs_loop rounds (i + 1) backing' off src

unfoldable pub write_regs : Option Memory → Area → ℕ → ℕ → List ℕ → Outcome MemoryError Memory
write_regs none area address count src = err nil_memory
write_regs (some m) area address count src = do
  fail_if (count == 0) count_zero
  let want = count * 2
  fail_if (ltb (length src) want) src_too_small
  (layout, backing) ← non_nil (regs_area m area) invalid_area
  l ← non_nil layout area_not_defined
  fail_if (not (contains l address count)) out_of_bounds
  let off = offset l address
  regs ← write_regs_loop count 0 backing off src
  ok (with_regs m area regs)
