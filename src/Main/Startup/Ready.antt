-- ===== src/Main/Startup/Ready.antt =====
-- The server that main (cmd/mma2/main.go) has when it opens the listeners.
use Prim.Native.String.{String}
use mma.Base.{
  ℕ, ◌≡◌, refl, sym, arith, ◌∙◌, false, if◌then◌else◌, Bool-cases, inl, inr, none, some, List, [],
  ◌∷◌, All-map, ok, >>=-eq-ok, ok-injective, map_err, map_err-eq_ok, non_nil-eq_ok,
}
use mma.Golang.Text.{TextLibrary}
use mma.Golang.Netip.{Parser}
use mma.Golang.Sets.{has_key}
use mma.Golang.Sets.Fresh.{IsDistinct}
use mma.Memorycore.Store.{MemoryId, same_id, lookup}
use mma.Memorycore.Store.Laws.{same_id→eq, lookup-insert}
use mma.Memorycore.Store.WellFormed.{IsSoundStore}
use mma.Authority.Evaluate.{Authority, new_authority, set_memory_policy}
use mma.Config.{MemoryDefinition, Config, build_memory_store}
use mma.Config.Load.{FileLibrary, load, read_failed, parse_failed}
use mma.Config.Sound.{AreU16Gates, build_memory_store-IsSoundStore}
use mma.Config.Validate.{validate_config}
use mma.Config.Validate.Accepted.{identity}
use mma.Config.Validate.Build.{GatesServed, build_memory_store-GatesServed}
use mma.Config.Validate.Units.{build_memory_store_demands}
use mma.Config.Policies.{Policies, build_authority_policies}
use mma.Config.Policies.Nested.{PolicySet-SameOn, Configured}
use mma.Config.Policies.Configured.{
  GateConfigured, GatesConfigured, build_authority_policies-GatesConfigured,
}
use mma.Config.Policies.Distinct.{keys, build_authority_policies-IsDistinct}
use mma.Main.Startup.{
  Server, start, set_policies, load_failed, validation_failed, memory_build_failed,
  policy_build_failed,
}

lookup_fresh :
    (out : Policies) (k : MemoryId) → has_key same_id (keys out) k ≡ false → lookup out k ≡ none
unfolding has_key lookup
lookup_fresh [] k h = refl
lookup_fresh ((j, w) ∷ out) k h = ground (arith, lookup_fresh out k)

-- The range over the map leaves each entry as it is in the map.
lookup-set_policies :
    (auth : Authority) (out : Policies) (k : MemoryId)
    → IsDistinct same_id (keys out)
    → lookup (set_policies auth out).policies k
      ≡ (if has_key same_id (keys out) k then lookup out k else lookup auth.policies k)
unfolding set_policies set_memory_policy has_key lookup
lookup-set_policies auth [] k h = refl
lookup-set_policies auth ((id, p) ∷ out) k (new, h) =
    let rest = lookup-set_policies (set_memory_policy auth id p) out k h in
    elim (Bool-cases (same_id id k)) [
      | inl e ↦
          let q : id ≡ k = same_id→eq id k e in
          rest ∙ (rw (rw q at new, lookup-insert auth.policies id k p, e) refl)
      | inr e ↦ rest ∙ (rw (lookup-insert auth.policies id k p, e) refl)
    ]

pub lookup-policies :
    (out : Policies) (k : MemoryId)
    → IsDistinct same_id (keys out)
    → lookup (set_policies new_authority out).policies k ≡ lookup out k
unfolding lookup
lookup-policies out k h = elim (Bool-cases (has_key same_id (keys out) k)) [
  | inl e ↦ lookup-set_policies new_authority out k h ∙ (rw e refl)
  | inr e ↦ lookup-set_policies new_authority out k h ∙ (rw (e, lookup_fresh out k e) refl)
]

Configured-set_policies :
    (parser : Parser) (out : Policies) (port : ℕ) (def : MemoryDefinition)
    → IsDistinct same_id (keys out)
    → Configured parser out port def
    → Configured parser (set_policies new_authority out).policies port def
Configured-set_policies parser out port def d h =
    PolicySet-SameOn parser out (set_policies new_authority out).policies (identity port def)
      def.policy (lookup-policies out (identity port def) d) h

module _ (files : FileLibrary) (lib : TextLibrary) (parser : Parser) where
  GateConfigured-set_policies :
      (out : Policies) (listen : String) (defs : List MemoryDefinition)
      → IsDistinct same_id (keys out)
      → GateConfigured parser lib out listen defs
      → GateConfigured parser lib (set_policies new_authority out).policies listen defs
  GateConfigured-set_policies out listen [] d h = tt
  GateConfigured-set_policies out listen (def ∷ defs) d (port, e, h) = (
    port,
    e,
    All-map _ (Configured parser (set_policies new_authority out).policies port) (def ∷ defs)
        (λ x. Configured-set_policies parser out port x d) h,
  )

  -- The fields of a decoded area are `uint16`s.
  abbrev pub DecodesU16 : Type 0
  DecodesU16 =
      (bytes : List ℕ) (cfg : Config) → files.unmarshal bytes ≡ some cfg → AreU16Gates cfg.ingress

  load-AreU16Gates :
      DecodesU16
      → (path : String) {cfg : Config} → load files path ≡ ok cfg
      → AreU16Gates cfg.ingress
  unfolding load
  load-AreU16Gates u16 path {cfg} h =
      let (bytes, _, h1) = non_nil-eq_ok (files.read_file path) read_failed _ h in
      let (c, e, h2) = non_nil-eq_ok (files.unmarshal bytes) parse_failed _ h1 in
      u16 bytes cfg (rw (ok-injective h2) at e)

  -- When main reaches its listeners, and decoded areas have `uint16` fields, the store is sound, every
  -- memory definition of a listener has its own fresh memory in it, and the authority has for every
  -- definition what the definition states: no policy, or one rule for each entry of its policy, in their
  -- order, with the id of the entry, that matches the addresses and lists the function codes of the entry.
  pub start-IsReady :
      (args : List String) {server : Server}
      → DecodesU16
      → start files lib parser args ≡ ok server
      → IsSoundStore server.store
        × GatesServed lib server.store server.gates
        × GatesConfigured parser lib server.auth.policies server.gates
  unfolding start
  start-IsReady [] u16 h = cc h
  start-IsReady (name ∷ []) u16 h = cc h
  start-IsReady (name ∷ path ∷ args) {server} u16 h =
      let (cfg, e1, h1) = >>=-eq-ok (map_err load_failed (load files path)) _ h in
      let (_, e2, h2) =
        >>=-eq-ok (map_err validation_failed (validate_config lib parser (some cfg))) _ h1 in
      let (store, e3, h3) =
        >>=-eq-ok (map_err memory_build_failed (build_memory_store lib (some cfg))) _ h2 in
      let (out, e4, h4) =
        >>=-eq-ok (map_err policy_build_failed (build_authority_policies lib parser (some cfg))) _
          h3 in
      let u = load-AreU16Gates u16 path (map_err-eq_ok load_failed _ e1) in
      let valid = map_err-eq_ok validation_failed _ e2 in
      let built = map_err-eq_ok memory_build_failed _ e3 in
      let policies = map_err-eq_ok policy_build_failed _ e4 in
      let (no_legacy, units) = build_memory_store_demands lib cfg built in
      let (s, same, served) =
        build_memory_store-GatesServed lib parser cfg valid no_legacy u units in
      let configured =
        build_authority_policies-GatesConfigured parser lib cfg valid no_legacy policies in
      let d = build_authority_policies-IsDistinct lib parser cfg policies in
      rw (← ok-injective h4) (
        build_memory_store-IsSoundStore lib cfg u built,
        rw (ok-injective (sym same ∙ built)) at served,
        All-map _ _ cfg.ingress (λ gate. GateConfigured-set_policies out gate.listen gate.memory d)
            configured,
      )
