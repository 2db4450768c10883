-- ===== src/Memorycore/Store/Laws.antt =====
-- The map of internal/memorycore/store.go: registering and looking up.
use mma.Base.{◌≡◌, ◌≢◌, ◌↔◌, refl, arith, true, if◌then◌else◌, some, List, [], ◌∷◌, ok}
use mma.Memorycore.Store.{MemoryId, same_id, validate_id, lookup, insert, Pointer, Store, add, get}

pub same_id_refl : (a : MemoryId) → same_id a a ≡ true
same_id_refl a = ground arith

pub same_id→eq : (a b : MemoryId) → same_id a b ≡ true → a ≡ b
same_id→eq a b h = ground arith

module _ {ℓ} {V : Type ℓ} where
  -- A map that was written at one key.
  pub lookup-insert :
      (l : List (MemoryId × V)) (id j : MemoryId) (v : V)
      → lookup (insert l id v) j ≡ (if same_id id j then some v else lookup l j)
  unfolding lookup insert
  lookup-insert [] id j v = refl
  lookup-insert ((i, w) ∷ l) id j v = ground (arith, lookup-insert l id j v)

-- `Add` of a pointer succeeds exactly for the identifiers without a zero.
pub add_iff :
    (s : Store) (id : MemoryId) (p : Pointer)
    → ((s' : Store) × (add (some s) id (some p) ≡ ok s')) ↔ ((id.port ≢ 0) × (id.unit_id ≢ 0))
unfolding add validate_id
add_iff s id p = (
  λ (s', h). (ground arith, ground arith),
  λ (a, b). (record s { table = insert s.table id p }, ground arith),
)

-- After an `Add` that succeeds, `Get` finds the pointer under its identifier, and under any other what
-- it found before; the memories are as they were.
pub get-add :
    (s : Store) (id : MemoryId) (p : Pointer) {s' : Store}
    → add (some s) id (some p) ≡ ok s'
    → (j : MemoryId)
    → (get (some s') j ≡ (if same_id id j then some p else get (some s) j)) × (s'.heap ≡ s.heap)
unfolding add get validate_id
get-add s id p {s'} h j =
    let q : s' ≡ record s { table = insert s.table id p } = ground arith in
    rw q (lookup-insert s.table id j p, refl)
