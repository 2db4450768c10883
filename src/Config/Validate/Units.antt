-- ===== src/Config/Validate/Units.antt =====
-- When BuildMemoryStore (internal/config/build_memory_store.go) succeeds on a configuration that
-- Validate (internal/config/validate.go) accepts.
use mma.Base.{
  ℕ, ◌≡◌, ◌≢◌, ◌↔◌, refl, arith, false, some, List, [], ◌∷◌, length, ltb, ok, fail_if-eq_ok,
  >>=-eq-ok,
}
use mma.Golang.Text.{TextLibrary}
use mma.Golang.Netip.{Parser}
use mma.Memorycore.Memory.{new_memory}
use mma.Memorycore.Store.{validate_id, Store, new_store, add}
use mma.Config.{
  MemoryDefinition, IngressGate, Config, wrap, layouts_of, attach_sealing, create_failed,
  register_failed, legacy_memories, parse_listen_port, build_one_memory, build_memories, build_gate,
  build_gates, build_memory_store,
}
use mma.Config.Sound.{AreU16Gates, wrap-eq_ok}
use mma.Config.Validate.{validate_config}
use mma.Config.Validate.Build.{HasUnits, AllHaveUnits, build_memory_store-GatesServed}

no_memories : {A : Type 0} → (l : List A) → ltb 0 (length l) ≡ false → l ≡ []
no_memories [] h = refl
no_memories (x ∷ l) h = ground arith

module _ (lib : TextLibrary) where
  build_one_memory_unit :
      (s : Store) (port : ℕ) (def : MemoryDefinition) {s' : Store}
      → build_one_memory lib s port def ≡ ok s'
      → def.unit_id ≢ 0
  unfolding build_one_memory add validate_id
  build_one_memory_unit s port def h =
      let (mem, _, h1) = >>=-eq-ok (wrap create_failed (new_memory (layouts_of def))) _ h in
      let (m, _, h2) = >>=-eq-ok (attach_sealing lib def.coils mem def.state_sealing) _ h1 in
      ground (arith, wrap-eq_ok register_failed _ h2)

  build_memories-HasUnits :
      (s : Store) (port : ℕ) (defs : List MemoryDefinition) {s' : Store}
      → build_memories lib s port defs ≡ ok s'
      → HasUnits defs
  unfolding build_memories
  build_memories-HasUnits s port [] h = tt
  build_memories-HasUnits s port (def ∷ defs) h =
      let (s1, e, h1) = >>=-eq-ok (build_one_memory lib s port def) _ h in
      (build_one_memory_unit s port def e, build_memories-HasUnits s1 port defs h1)

  build_gates-AllHaveUnits :
      (s : Store) (gates : List IngressGate) {s' : Store}
      → build_gates lib s gates ≡ ok s'
      → AllHaveUnits gates
  unfolding build_gates
  build_gates-AllHaveUnits s [] h = tt
  build_gates-AllHaveUnits s (gate ∷ gates) h =
      let (s1, e, h1) = >>=-eq-ok (build_gate lib s gate.listen gate.memory) _ h in
      (build_gate-HasUnits gate.memory e, build_gates-AllHaveUnits s1 gates h1)
    where
      build_gate-HasUnits :
          (defs : List MemoryDefinition) {s1 : Store}
          → build_gate lib s gate.listen defs ≡ ok s1
          → HasUnits defs
      build_gate-HasUnits [] e = tt
      build_gate-HasUnits (def ∷ defs) e =
          let (port, _, h1) = >>=-eq-ok (parse_listen_port lib gate.listen) _ e in
          build_memories-HasUnits s port (def ∷ defs) h1

  pub build_memory_store_demands :
      (cfg : Config) {s : Store}
      → build_memory_store lib (some cfg) ≡ ok s
      → (cfg.memories ≡ []) × AllHaveUnits cfg.ingress
  unfolding build_memory_store
  build_memory_store_demands cfg h =
      let (e, h1) = fail_if-eq_ok (ltb 0 (length cfg.memories)) legacy_memories _ h in
      (no_memories cfg.memories e, build_gates-AllHaveUnits new_store cfg.ingress h1)

-- For a configuration with `uint16` fields that Validate accepts, BuildMemoryStore succeeds exactly when
-- the configuration has no legacy memories and no unit id of zero.
pub build_memory_store_iff :
    (lib : TextLibrary) (parser : Parser) (cfg : Config)
    → validate_config lib parser (some cfg) ≡ ok tt
    → AreU16Gates cfg.ingress
    → ((s : Store) × (build_memory_store lib (some cfg) ≡ ok s))
      ↔ ((cfg.memories ≡ []) × AllHaveUnits cfg.ingress)
build_memory_store_iff lib parser cfg valid u = (
  λ (s, h). build_memory_store_demands lib cfg h,
  λ (no_legacy, units).
      let (s, h, _) = build_memory_store-GatesServed lib parser cfg valid no_legacy u units in
      (s, h),
)
