-- ===== src/Memorycore/Store.antt =====
-- internal/memorycore/memory_id.go and store.go. The map holds pointers: `table` is the map, and
-- `heap` the memories that the pointers reach, so that two identifiers may share one memory.
pub mod Laws
pub mod WellFormed
use mma.Base.{
  ℕ, ◌+◌, Bool, ◌&&◌, ◌==◌, if◌then◌else◌, Option, none, some, List, [], ◌∷◌, ◌++◌, length,
  get_elem?, set, Outcome, ok, err, ◌>>=◌, ◌>>◌, fail_if, non_nil,
}
use mma.Memorycore.Errors.{MemoryError, nil_memory, empty_port, unit_id_zero, unknown_memory_id}
use mma.Memorycore.Memory.{Memory}

pub record MemoryId : Type 0 where
  pub port : ℕ
  pub unit_id : ℕ

unfoldable pub validate_id : MemoryId → Outcome MemoryError (Unit {0})
validate_id id = do fail_if (id.port == 0) empty_port; fail_if (id.unit_id == 0) unit_id_zero

-- Equality of map keys.
abbrev pub same_id : MemoryId → MemoryId → Bool
same_id a b = a.port == b.port && a.unit_id == b.unit_id

-- A Go map keyed by `MemoryID`.
module _ {ℓ} {V : Type ℓ} where
  unfoldable pub lookup : List (MemoryId × V) → MemoryId → Option V
  lookup [] id = none
  lookup ((j, v) ∷ rest) id = if same_id j id then some v else lookup rest id

  unfoldable pub insert : List (MemoryId × V) → MemoryId → V → List (MemoryId × V)
  insert [] id v = (id, v) ∷ []
  insert ((j, w) ∷ rest) id v = if same_id j id then (id, v) ∷ rest else (j, w) ∷ insert rest id v

-- A `*Memory`: a place in the heap.
abbrev pub Pointer : Type 0
Pointer = ℕ

pub record Store : Type 0 where
  pub table : List (MemoryId × Pointer)
  pub heap : List Memory

abbrev pub new_store : Store
new_store = record { table = []; heap = [] }

-- The memory behind a pointer, and a write through it.
abbrev pub deref : Store → Pointer → Option Memory
deref s p = get_elem? s.heap p

abbrev pub update : Store → Pointer → Memory → Store
update s p m = record s { heap = set s.heap p m }

unfoldable pub add : Option Store → MemoryId → Option Pointer → Outcome MemoryError Store
unfolding validate_id insert
add none id mem = err nil_memory
add (some s) id mem = do
  validate_id id
  p ← non_nil mem nil_memory
  ok (record s { table = insert s.table id p })

unfoldable pub get : Option Store → MemoryId → Option Pointer
unfolding lookup
get none id = none
get (some s) id = lookup s.table id

unfoldable pub must_get : Option Store → MemoryId → Outcome MemoryError Pointer
unfolding get
must_get s id = non_nil (get s id) unknown_memory_id
