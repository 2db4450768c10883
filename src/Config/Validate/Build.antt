-- ===== src/Config/Validate/Build.antt =====
-- BuildMemoryStore (internal/config/build_memory_store.go) on a configuration that Validate
-- (internal/config/validate.go) accepts.
use Prim.Native.String.{String}
use mma.Base.{
  ℕ, zero, suc, ◌≡◌, ◌≢◌, refl, true, false, Bool-cases, inl, inr, some, List, [], ◌∷◌, ◌++◌,
  length, get_elem?, All, All-map, ok, fail_if-eq_ok, >>=-eq-ok, ok-injective,
}
use mma.Golang.Text.{TextLibrary}
use mma.Golang.Netip.{Parser}
use mma.Golang.Sets.Fresh.{has_key-put_all}
use mma.Memorycore.Memory.{Memory}
use mma.Memorycore.Store.{MemoryId, same_id, insert, Pointer, Store, new_store, deref, get}
use mma.Memorycore.Store.Laws.{same_id_refl, same_id→eq, lookup-insert}
use mma.Config.{
  MemoryDefinition, IngressGate, Config, identity_conflict, parse_listen_port, build_memories,
  build_gate, build_gates, build_memory_store,
}
use mma.Config.Sound.{AreU16Definitions, AreU16Gates}
use mma.Config.Validate.{
  has_identity, validate_nested_memory_def, validate_nested, validate_gate, validate_gates,
  validate_legacy, validate_ingress, validate_all_memories, validate_config,
}
use mma.Config.Validate.Distinct.{
  validate_nested-IsFresh, nested_ids, has_identity_head, has_identity_tail,
}
use mma.Config.Validate.Accepted.{identity, IsFreshMemory, definition-build_one_memory}

-- The unit ids that Add takes.
abbrev pub HasUnits : List MemoryDefinition → Type 0
HasUnits defs = All (λ (def : MemoryDefinition). def.unit_id ≢ 0) defs

abbrev pub AllHaveUnits : List IngressGate → Type 0
AllHaveUnits gates = All (λ (gate : IngressGate). HasUnits gate.memory) gates

-- The store has a fresh memory for the definition, as it describes it.
abbrev pub Serves : Store → ℕ → MemoryDefinition → Type 0
Serves s port def =
    (p : Pointer) × (m : Memory) × (get (some s) (identity port def) ≡ some p)
    × (deref s p ≡ some m)
    × IsFreshMemory def m

abbrev pub GateServed : TextLibrary → Store → String → List MemoryDefinition → Type 0
GateServed lib s listen [] = Unit {0}
GateServed lib s listen (def ∷ defs) =
    (port : ℕ) × (parse_listen_port lib listen ≡ ok port) × All (Serves s port) (def ∷ defs)

abbrev pub GatesServed : TextLibrary → Store → List IngressGate → Type 0
GatesServed lib s gates =
    All (λ (gate : IngressGate). GateServed lib s gate.listen gate.memory) gates

-- The identities of a set are registered still, and with the same memories.
abbrev Kept : List MemoryId → Store → Store → Type 0
Kept seen s s' =
    (id : MemoryId) (p : Pointer) (m : Memory)
    → has_identity seen id ≡ true
    → get (some s) id ≡ some p
    → deref s p ≡ some m
    → (get (some s') id ≡ some p) × (deref s' p ≡ some m)

get_elem?-append_some :
    (l : List Memory) (m x : Memory) (p : ℕ)
    → get_elem? l p ≡ some x
    → get_elem? (l ++ m ∷ []) p ≡ some x
get_elem?-append_some [] m x p h = cc
get_elem?-append_some (y ∷ l) m x zero h = h
get_elem?-append_some (y ∷ l) m x (suc p) h = get_elem?-append_some l m x p h

get_elem?-append_last : (l : List Memory) (m : Memory) → get_elem? (l ++ m ∷ []) (length l) ≡ some m
get_elem?-append_last [] m = refl
get_elem?-append_last (y ∷ l) m = get_elem?-append_last l m

module _ (s : Store) (id : MemoryId) (m : Memory) where
  abbrev extended : Store
  extended = record { table = insert s.table id (length s.heap); heap = s.heap ++ m ∷ [] }

  get-extended : get (some extended) id ≡ some (length s.heap)
  unfolding get
  get-extended = rw (lookup-insert s.table id id (length s.heap), same_id_refl id)

  Kept-extended : (seen : List MemoryId) → has_identity seen id ≡ false → Kept seen s extended
  unfolding get
  Kept-extended seen new j p x there g d = elim (Bool-cases (same_id id j)) [
    | inl e ↦ let q : id ≡ j = same_id→eq id j e in cc (q, new, there)
    | inr e ↦
        (rw (lookup-insert s.table id j (length s.heap), e) g, get_elem?-append_some s.heap m x p d)
  ]

-- What a larger set keeps, a smaller one keeps.
module _ (seen seen1 : List MemoryId)
    (grows : (k : MemoryId) → has_identity seen k ≡ true → has_identity seen1 k ≡ true) where
  Kept-trans : (s s1 s2 : Store) → Kept seen s s1 → Kept seen1 s1 s2 → Kept seen s s2
  Kept-trans s s1 s2 a b id p m there g d =
      let (g1, d1) = a id p m there g d in b id p m (grows id there) g1 d1

-- A definition that is served, and whose identity is in the set.
abbrev Held : Store → List MemoryId → ℕ → MemoryDefinition → Type 0
Held s seen port def = Serves s port def × (has_identity seen (identity port def) ≡ true)

Held-Kept :
    (seen seen' : List MemoryId) (s s' : Store) (port : ℕ) (def : MemoryDefinition)
    → Kept seen s s'
    → ((k : MemoryId) → has_identity seen k ≡ true → has_identity seen' k ≡ true)
    → Held s seen port def
    → Held s' seen' port def
Held-Kept seen seen' s s' port def kept grows ((p, m, g, d, f), there) =
    let (g', d') = kept (identity port def) p m there g d in
    ((p, m, g', d', f), grows (identity port def) there)

-- The definitions of one listener, and of all.
abbrev GateHeld : TextLibrary → Store → List MemoryId → String → List MemoryDefinition → Type 0
GateHeld lib s seen listen [] = Unit {0}
GateHeld lib s seen listen (def ∷ defs) =
    (port : ℕ) × (parse_listen_port lib listen ≡ ok port) × All (Held s seen port) (def ∷ defs)

module _ (lib : TextLibrary) (parser : Parser) where
  nested_grows :
      (port : ℕ) (seen : List MemoryId) (defs : List MemoryDefinition) {seen' : List MemoryId}
      → validate_nested lib parser port seen defs ≡ ok seen'
      → (k : MemoryId) → has_identity seen k ≡ true
      → has_identity seen' k ≡ true
  nested_grows port seen defs h k there =
      let (_, q) = validate_nested-IsFresh lib parser port seen defs h in
      rw q (has_key-put_all same_id seen (nested_ids port defs) k there)

  -- The inner loops of Validate and BuildMemoryStore, side by side.
  build_memories-Held :
      (port : ℕ) (seen : List MemoryId) (s : Store) (defs : List MemoryDefinition)
      {seen' : List MemoryId}
      → validate_nested lib parser port seen defs ≡ ok seen'
      → AreU16Definitions defs
      → HasUnits defs
      → (s' : Store) × (build_memories lib s port defs ≡ ok s')
        × Kept seen s s'
        × All (Held s' seen' port) defs
  unfolding build_memories validate_nested
  build_memories-Held port seen s [] h u n = (s, refl, λ id p m _ g d. (g, d), tt)
  build_memories-Held port seen s (def ∷ defs) {seen'} h u n =
      let id = identity port def in
      let (_, valid, h1) = >>=-eq-ok (validate_nested_memory_def lib parser port def) _ h in
      let (new, h2) = fail_if-eq_ok (has_identity seen id) identity_conflict _ h1 in
      let (m, built, fresh) = definition-build_one_memory lib parser port def valid s u.0 n.0 in
      let s1 = extended s id m in
      let (s', rest, kept, held) = build_memories-Held port (id ∷ seen) s1 defs h2 u.1 n.1 in
      let mine : Held s1 (id ∷ seen) port def = (
        (length s.heap, m, get-extended s id m, get_elem?-append_last s.heap m, fresh),
        has_identity_head id seen,
      ) in
      (
        s',
        rw built rest,
        Kept-trans seen (id ∷ seen) (has_identity_tail id seen) s s1 s'
            (Kept-extended s id m seen new) kept,
        (
          Held-Kept (id ∷ seen) seen' s1 s' port def kept (nested_grows port (id ∷ seen) defs h2)
              mine,
          held,
        ),
      )

  build_gate-Held :
      (seen : List MemoryId) (s : Store) (listen : String) (defs : List MemoryDefinition)
      {seen' : List MemoryId}
      → validate_gate lib parser seen listen defs ≡ ok seen'
      → AreU16Definitions defs
      → HasUnits defs
      → (s' : Store) × (build_gate lib s listen defs ≡ ok s')
        × Kept seen s s'
        × GateHeld lib s' seen' listen defs
        × ((k : MemoryId) → has_identity seen k ≡ true → has_identity seen' k ≡ true)
  build_gate-Held seen s listen [] h u n =
      (s, refl, λ id p m _ g d. (g, d), tt, λ k there. rw (← ok-injective h) there)
  build_gate-Held seen s listen (def ∷ defs) h u n =
      let (port, e, h1) = >>=-eq-ok (parse_listen_port lib listen) _ h in
      let (s', built, kept, held) = build_memories-Held port seen s (def ∷ defs) h1 u n in
      (s', rw e built, kept, (port, e, held), nested_grows port seen (def ∷ defs) h1)

  GateHeld-Kept :
      (seen seen' : List MemoryId) (s s' : Store) (listen : String) (defs : List MemoryDefinition)
      → Kept seen s s'
      → ((k : MemoryId) → has_identity seen k ≡ true → has_identity seen' k ≡ true)
      → GateHeld lib s seen listen defs
      → GateHeld lib s' seen' listen defs
  GateHeld-Kept seen seen' s s' listen [] kept grows h = tt
  GateHeld-Kept seen seen' s s' listen (def ∷ defs) kept grows (port, e, h) = (
    port,
    e,
    All-map (Held s seen port) (Held s' seen' port) (def ∷ defs)
        (λ d. Held-Kept seen seen' s s' port d kept grows) h,
  )

  build_gates-Held :
      (seen : List MemoryId) (s : Store) (gates : List IngressGate) {seen' : List MemoryId}
      → validate_gates lib parser seen gates ≡ ok seen'
      → AreU16Gates gates
      → AllHaveUnits gates
      → (s' : Store) × (build_gates lib s gates ≡ ok s')
        × Kept seen s s'
        × All (λ (gate : IngressGate). GateHeld lib s' seen' gate.listen gate.memory) gates
        × ((k : MemoryId) → has_identity seen k ≡ true → has_identity seen' k ≡ true)
  unfolding build_gates validate_gates
  build_gates-Held seen s [] h u n =
      (s, refl, λ id p m _ g d. (g, d), tt, λ k there. rw (← ok-injective h) there)
  build_gates-Held seen s (gate ∷ gates) {seen'} h u n =
      let (seen1, e, h1) = >>=-eq-ok (validate_gate lib parser seen gate.listen gate.memory) _ h in
      let (s1, built, kept, held, grows) =
        build_gate-Held seen s gate.listen gate.memory e u.0 n.0 in
      let (s', rest, kept', held', grows') = build_gates-Held seen1 s1 gates h1 u.1 n.1 in
      (
        s',
        rw built rest,
        Kept-trans seen seen1 grows s s1 s' kept kept',
        (GateHeld-Kept seen1 seen' s1 s' gate.listen gate.memory kept' grows' held, held'),
        λ k there. grows' k (grows k there),
      )

  GateHeld-GateServed :
      (s : Store) (seen : List MemoryId) (listen : String) (defs : List MemoryDefinition)
      → GateHeld lib s seen listen defs
      → GateServed lib s listen defs
  GateHeld-GateServed s seen listen [] h = tt
  GateHeld-GateServed s seen listen (def ∷ defs) (port, e, h) =
      (port, e, All-map (Held s seen port) (Serves s port) (def ∷ defs) (λ d h. h.0) h)

  -- For a configuration with `uint16` fields that Validate accepts, without legacy memories and without
  -- a unit id of zero, BuildMemoryStore succeeds, and gives every memory definition of a listener its
  -- own memory under the listener's port and the definition's unit id: with the layouts and the sealing
  -- bit that the definition states, and nothing set in it.
  pub build_memory_store-GatesServed :
      (cfg : Config)
      → validate_config lib parser (some cfg) ≡ ok tt
      → cfg.memories ≡ []
      → AreU16Gates cfg.ingress
      → AllHaveUnits cfg.ingress
      → (s : Store) × (build_memory_store lib (some cfg) ≡ ok s) × GatesServed lib s cfg.ingress
  unfolding validate_config validate_all_memories build_memory_store
  build_memory_store-GatesServed cfg h no_legacy u n =
      let (_, _, h1) = >>=-eq-ok (validate_ingress lib [] cfg.ingress) _ h in
      let (seen, e1, _) = >>=-eq-ok (validate_all_memories lib parser cfg) _ h1 in
      let (old, _, e2) = >>=-eq-ok (validate_legacy lib parser [] cfg.memories) _ e1 in
      let (s, built, _, held, _) = build_gates-Held old new_store cfg.ingress e2 u n in
      (
        s,
        rw no_legacy built,
        All-map _ _ cfg.ingress (λ gate. GateHeld-GateServed s seen gate.listen gate.memory) held,
      )
