-- ===== src/Raw/Adapter.antt =====
-- internal/transport/raw: memory_adapter.go and resolver.go. The package internal/runtime, whose
-- memories the adapter writes, is not in the repository: RuntimeMemory and Runtime are what the code
-- uses of it.
pub mod Writes
pub mod Lands
pub mod Frames
pub mod Resolves
use mma.Base.{
  ℕ, ◌+◌, ◌%◌, ◌≡◌, Bool, true, false, ltb, if◌then◌else◌, Option, none, some, List, [], ◌∷◌,
  length, set, Outcome, ok, panic, ◌>>=◌,
}
use mma.Raw.Loop.{RawWritableMemory, MemoryResolver}

-- One slice, `Data`, behind a memory: how the state `W` has it, and the state after an element of it
-- is assigned.
pub record Slice (W : Type 0) : Type 0 where
  pub cells : W → List ℕ
  pub with_cells : List ℕ → W → W

-- `*runtime.Memory`
pub record RuntimeMemory (W : Type 0) : Type 0 where
  pub coils : Slice W
  pub discrete_inputs : Slice W
  pub holding_regs : Slice W
  pub input_regs : Slice W

-- `*runtime.Runtime`: the ports in the order in which `range` takes them, and for each the memory of a
-- unit, `none` where there is no unit.
pub record Runtime (W : Type 0) : Type 0 where
  pub ports : List (ℕ → Option (RuntimeMemory W))

unfoldable pub bool_to_uint16 : Bool → ℕ
bool_to_uint16 v = if v then 1 else 0

-- The loop of the four methods: element `k`, and so on, take the values. An index out of range panics.
unfoldable pub put_cells {ℓ} :
    {A : Type ℓ} {W : Type 0} → (A → ℕ) → Slice W → ℕ → List A → W → Outcome W W
put_cells cell slice k [] w = ok w
put_cells cell slice k (v ∷ values) w =
    let rest =
      put_cells cell slice (k + 1) values (slice.with_cells (set (slice.cells w) k (cell v)) w) in
    if ltb k (length (slice.cells w)) then rest else panic

-- memoryAdapter
unfoldable pub memory_adapter : {W : Type 0} → RuntimeMemory W → RawWritableMemory W
memory_adapter mem = record {
  write_coils = λ addr values w. put_cells bool_to_uint16 mem.coils addr values w;
  write_discrete_inputs =
      λ addr values w. put_cells bool_to_uint16 mem.discrete_inputs addr values w;
  write_holding_registers = λ addr values w. put_cells (λ v. v) mem.holding_regs addr values w;
  write_input_registers = λ addr values w. put_cells (λ v. v) mem.input_regs addr values w;
}

-- ResolveMemoryByID: the identifier is converted to `uint8`.
unfoldable pub resolve_in :
    {W : Type 0} → List (ℕ → Option (RuntimeMemory W)) → ℕ → Option (RawWritableMemory W)
unfolding memory_adapter
resolve_in [] id = none
resolve_in (units ∷ ports) id = elim (units (id % 256)) [
  | some mem ↦ some (memory_adapter mem)
  | none ↦ resolve_in ports id
]

-- NewRuntimeResolver
unfoldable pub new_runtime_resolver : {W : Type 0} → Runtime W → MemoryResolver W
unfolding resolve_in
new_runtime_resolver rt = record { resolve_memory_by_id = resolve_in rt.ports }
