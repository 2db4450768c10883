-- ===== src/Config/Sound.antt =====
-- What BuildMemoryStore (internal/config/build_memory_store.go) establishes.
use mma.Base.{
  ok-injective, ltb, ℕ, zero, suc, ◌<◌, ◌≡◌, ◌⊎◌, inl, inr, arith, Bool-cases, Option, none, some,
  List, [], ◌∷◌, ◌++◌, length, get_elem?, length-append, All, Outcome, ok, err, panic,
  fail_if-eq_ok, >>=-eq-ok,
}
use Prim.Native.String.{String}
use mma.Memorycore.Errors.{MemoryError}
use mma.Golang.Text.{TextLibrary}
use mma.Memorycore.Memory.{Memory, set_state_sealing, new_memory}
use mma.Memorycore.Memory.WellFormed.{IsWellFormed}
use mma.Memorycore.Memory.Create.{AreU16Layouts, new_memory-IsWellFormed}
use mma.Memorycore.Store.{MemoryId, same_id, lookup, insert, Pointer, Store, new_store, get, add}
use mma.Memorycore.Store.Laws.{same_id→eq, lookup-insert}
use mma.Memorycore.Store.WellFormed.{IsSoundStore}
use mma.Config.{
  AreaConfig, StateSealingConfig, MemoryDefinition, IngressGate, Config, ConfigError, wrap,
  layouts_of, attach_sealing, create_failed, legacy_memories, parse_listen_port, build_one_memory,
  build_memories, build_gate, build_gates, build_memory_store,
}

pub get_elem?-append_one :
    (l : List Memory) (m x : Memory) (p : ℕ)
    → get_elem? (l ++ m ∷ []) p ≡ some x
    → (get_elem? l p ≡ some x) ⊎ (x ≡ m)
get_elem?-append_one [] m x zero h = inr (cc h)
get_elem?-append_one [] m x (suc p) h = cc
get_elem?-append_one (y ∷ l) m x zero h = inl h
get_elem?-append_one (y ∷ l) m x (suc p) h = get_elem?-append_one l m x p h

-- A new well-formed memory registered under an identifier keeps the store sound.
module _ (s : Store) (id : MemoryId) (m : Memory) (w : IsSoundStore s) (wm : IsWellFormed m) where
  abbrev registered : Store
  registered = record { table = insert s.table id (length s.heap); heap = s.heap ++ m ∷ [] }

  get-registered :
      (j : MemoryId) (p : Pointer)
      → get (some registered) j ≡ some p
      → ((id ≡ j) × (p ≡ length s.heap)) ⊎ ((get (some s) j ≡ some p) × (p < length s.heap))
  unfolding get
  get-registered j p h = elim (Bool-cases (same_id id j)) [
    | inl e ↦ inl (same_id→eq id j e, ground (arith, lookup-insert s.table id j (length s.heap)))
    | inr e ↦
        let old : get (some s) j ≡ some p =
          ground (arith, lookup-insert s.table id j (length s.heap)) in
        inr (old, w.reaches j p old)
  ]

  registered-IsSoundStore : IsSoundStore registered
  registered-IsSoundStore = record {
    reaches = λ j p h. elim (get-registered j p h) [
      | inl (_, e) ↦ omega (arith, e, length-append s.heap (m ∷ []))
      | inr (_, l) ↦ omega (arith, l, length-append s.heap (m ∷ []))
    ];
    formed = λ p x h. elim (get_elem?-append_one s.heap m x p h) [
      | inl old ↦ w.formed p x old
      | inr e ↦ rw e wm
    ];
    unshared = λ i j p hi hj. elim (get-registered i p hi) [
      | inl (ei, pi) ↦ elim (get-registered j p hj) [
        | inl (ej, _) ↦ cc (ei, ej)
        | inr (_, lj) ↦ absurd (omega (arith, pi, lj))
      ]
      | inr (gi, li) ↦ elim (get-registered j p hj) [
        | inl (_, pj) ↦ absurd (omega (arith, pj, li))
        | inr (gj, _) ↦ w.unshared i j p gi gj
      ]
    ];
  }

-- The fields of the configured areas are `uint16`s.
abbrev pub AreU16Definitions : List MemoryDefinition → Type 0
AreU16Definitions defs = All (λ def. AreU16Layouts (layouts_of def)) defs

abbrev pub AreU16Gates : List IngressGate → Type 0
AreU16Gates gates = All (λ (gate : IngressGate). AreU16Definitions gate.memory) gates

pub wrap-eq_ok {ℓ} :
    {A : Type ℓ} (f : MemoryError → ConfigError) (o : Outcome MemoryError A) {a : A}
    → wrap f o ≡ ok a
    → o ≡ ok a
wrap-eq_ok f (ok x) h = ground arith
wrap-eq_ok f (err e) h = cc
wrap-eq_ok f panic h = cc

module _ (lib : TextLibrary) where
  attach_sealing-IsWellFormed :
      (coils : AreaConfig) (m : Memory) (seal : Option StateSealingConfig) {m' : Memory}
      → attach_sealing lib coils m seal ≡ ok m'
      → IsWellFormed m
      → IsWellFormed m'
  unfolding attach_sealing set_state_sealing
  attach_sealing-IsWellFormed coils m none h w = let e : m ≡ _ = ok-injective h in rw (← e) w
  attach_sealing-IsWellFormed coils m (some seal) {m'} h w =
      let e : m' ≡ record m { state_sealing = some (record { area = 1; address = seal.address }) } =
        ground arith in
      rw e (record { coils = w.coils; discrete = w.discrete; holding = w.holding; input = w.input })

  build_one_memory-IsSoundStore :
      (s : Store) (port : ℕ) (def : MemoryDefinition) {s' : Store}
      → build_one_memory lib s port def ≡ ok s'
      → AreU16Layouts (layouts_of def)
      → IsSoundStore s
      → IsSoundStore s'
  unfolding build_one_memory add
  build_one_memory-IsSoundStore s port def {s'} h u w =
      let (mem, e, h1) = >>=-eq-ok (wrap create_failed (new_memory (layouts_of def))) _ h in
      let (m, a, h2) = >>=-eq-ok (attach_sealing lib def.coils mem def.state_sealing) _ h1 in
      let wm =
        attach_sealing-IsWellFormed def.coils mem def.state_sealing a
          (new_memory-IsWellFormed (layouts_of def) mem (wrap-eq_ok _ _ e) u) in
      let id : MemoryId = record { port = port; unit_id = def.unit_id } in
      let q : s' ≡ registered s id m w wm = ground (arith, wrap-eq_ok _ _ h2) in
      rw q (registered-IsSoundStore s id m w wm)

  -- What every memory that is built keeps, the two loops keep.
  module _ (P : Store → Type 0)
      (keep : (s : Store) (port : ℕ) (def : MemoryDefinition) (s' : Store)
        → build_one_memory lib s port def ≡ ok s'
        → AreU16Layouts (layouts_of def)
        → P s
        → P s') where
    build_memories_keep :
        (s : Store) (port : ℕ) (defs : List MemoryDefinition) {s' : Store}
        → build_memories lib s port defs ≡ ok s'
        → AreU16Definitions defs
        → P s
        → P s'
    unfolding build_memories
    build_memories_keep s port [] h u w = rw (← ok-injective h) w
    build_memories_keep s port (def ∷ defs) h u w =
        let (s1, e, h1) = >>=-eq-ok (build_one_memory lib s port def) _ h in
        build_memories_keep s1 port defs h1 u.1 (keep s port def s1 e u.0 w)

    build_gate_keep :
        (s : Store) (listen : String) (defs : List MemoryDefinition) {s' : Store}
        → build_gate lib s listen defs ≡ ok s'
        → AreU16Definitions defs
        → P s
        → P s'
    build_gate_keep s listen [] h u w = rw (← ok-injective h) w
    build_gate_keep s listen (def ∷ defs) h u w =
        let (port, e, h1) = >>=-eq-ok (parse_listen_port lib listen) _ h in
        build_memories_keep s port (def ∷ defs) h1 u w

    pub build_gates_keep :
        (s : Store) (gates : List IngressGate) {s' : Store}
        → build_gates lib s gates ≡ ok s'
        → AreU16Gates gates
        → P s
        → P s'
    unfolding build_gates
    build_gates_keep s [] h u w = rw (← ok-injective h) w
    build_gates_keep s (gate ∷ gates) h u w =
        let (s1, e, h1) = >>=-eq-ok (build_gate lib s gate.listen gate.memory) _ h in
        build_gates_keep s1 gates h1 u.1 (build_gate_keep s gate.listen gate.memory e u.0 w)

  new_store-IsSoundStore : IsSoundStore new_store
  unfolding get lookup
  new_store-IsSoundStore = record {
    reaches = λ id p h. cc;
    formed = λ p m h. cc;
    unshared = λ i j p hi hj. cc;
  }

  -- A store that BuildMemoryStore makes from a configuration whose areas have `uint16` fields is
  -- sound: every identifier reaches a well-formed memory, and no two share one.
  pub build_memory_store-IsSoundStore :
      (cfg : Config) {s : Store}
      → AreU16Gates cfg.ingress
      → build_memory_store lib (some cfg) ≡ ok s
      → IsSoundStore s
  unfolding build_memory_store
  build_memory_store-IsSoundStore cfg u h =
      let (_, h1) = fail_if-eq_ok (ltb 0 (length cfg.memories)) legacy_memories _ h in
      build_gates_keep IsSoundStore
        (λ s port def s' h u w. build_one_memory-IsSoundStore s port def h u w) new_store
        cfg.ingress h1 u new_store-IsSoundStore
