-- ===== src/Config/Policies/Distinct.antt =====
-- The keys of the map that BuildAuthorityPolicies (internal/config/build_authority_policies.go) makes.
use Prim.Native.String.{String}
use mma.Base.{
  ℕ, ◌≡◌, refl, arith, false, Bool-cases, inl, inr, Option, none, some, List, [], ◌∷◌, ok,
  fail_if-eq_ok, >>=-eq-ok, ok-injective,
}
use mma.Golang.Text.{TextLibrary}
use mma.Golang.Netip.{Parser}
use mma.Golang.Sets.{has_key}
use mma.Golang.Sets.Fresh.{IsDistinct}
use mma.Memorycore.Store.{MemoryId, same_id, lookup, insert}
use mma.Memorycore.Store.Laws.{same_id→eq}
use mma.Authority.Evaluate.{MemoryPolicy}
use mma.Config.{
  MemoryPolicyConfig, MemoryDefinition, IngressGate, Config, parse_listen_port, duplicate_policy,
}
use mma.Config.Policies.{
  Policies, exists_key, build_policy_from_def, add_policy, legacy_policies, nested_policies,
  gate_policies, gates_policies, build_authority_policies,
}

abbrev pub keys : Policies → List MemoryId
keys [] = []
keys ((id, p) ∷ out) = id ∷ keys out

has_key-keys-insert :
    (out : Policies) (id : MemoryId) (v : Option MemoryPolicy) (k : MemoryId)
    → has_key same_id (keys out) k ≡ false
    → same_id id k ≡ false
    → has_key same_id (keys (insert out id v)) k ≡ false
unfolding has_key insert
has_key-keys-insert [] id v k h n = ground arith
has_key-keys-insert ((j, w) ∷ out) id v k h n = ground (arith, has_key-keys-insert out id v k)

keys-insert-IsDistinct :
    (out : Policies) (id : MemoryId) (v : Option MemoryPolicy)
    → IsDistinct same_id (keys out)
    → IsDistinct same_id (keys (insert out id v))
unfolding has_key insert
keys-insert-IsDistinct [] id v h = (refl, tt)
keys-insert-IsDistinct ((j, w) ∷ out) id v (new, h) = elim (Bool-cases (same_id j id)) [
  | inl e ↦ let q : j ≡ id = same_id→eq j id e in rw e (rw q at new, h)
  | inr e ↦
      rw e (has_key-keys-insert out id v j new (ground arith), keys-insert-IsDistinct out id v h)
]

module _ (lib : TextLibrary) (parser : Parser) (P : Policies → Type 0)
    (keep : (out : Policies) (id : MemoryId) (v : Option MemoryPolicy)
      → P out
      → P (insert out id v)) where
  add_policy_keep :
      (out : Policies) (id : MemoryId) (pc : Option MemoryPolicyConfig) {out' : Policies}
      → add_policy parser out id pc ≡ ok out'
      → P out
      → P out'
  unfolding add_policy
  add_policy_keep out id none h p = rw (← ok-injective h) p
  add_policy_keep out id (some pc) h p =
      let (_, h1) = fail_if-eq_ok (exists_key (lookup out id)) duplicate_policy _ h in
      let (v, _, h2) = >>=-eq-ok (build_policy_from_def parser (some pc)) _ h1 in
      rw (← ok-injective h2) (keep out id v p)

  legacy_policies_keep :
      (out : Policies) (memories : List (String × MemoryDefinition)) {out' : Policies}
      → legacy_policies parser out memories ≡ ok out'
      → P out
      → P out'
  unfolding legacy_policies
  legacy_policies_keep out [] h p = rw (← ok-injective h) p
  legacy_policies_keep out ((key, def) ∷ memories) h p =
      let id : MemoryId = record { port = def.port; unit_id = def.unit_id } in
      let (out1, e, h1) = >>=-eq-ok (add_policy parser out id def.policy) _ h in
      legacy_policies_keep out1 memories h1 (add_policy_keep out id def.policy e p)

  nested_policies_keep :
      (port : ℕ) (out : Policies) (defs : List MemoryDefinition) {out' : Policies}
      → nested_policies parser port out defs ≡ ok out'
      → P out
      → P out'
  unfolding nested_policies
  nested_policies_keep port out [] h p = rw (← ok-injective h) p
  nested_policies_keep port out (def ∷ defs) h p =
      let id : MemoryId = record { port = port; unit_id = def.unit_id } in
      let (out1, e, h1) = >>=-eq-ok (add_policy parser out id def.policy) _ h in
      nested_policies_keep port out1 defs h1 (add_policy_keep out id def.policy e p)

  gate_policies_keep :
      (out : Policies) (listen : String) (defs : List MemoryDefinition) {out' : Policies}
      → gate_policies lib parser out listen defs ≡ ok out'
      → P out
      → P out'
  gate_policies_keep out listen [] h p = rw (← ok-injective h) p
  gate_policies_keep out listen (def ∷ defs) h p =
      let (port, _, h1) = >>=-eq-ok (parse_listen_port lib listen) _ h in
      nested_policies_keep port out (def ∷ defs) h1 p

  gates_policies_keep :
      (out : Policies) (gates : List IngressGate) {out' : Policies}
      → gates_policies lib parser out gates ≡ ok out'
      → P out
      → P out'
  unfolding gates_policies
  gates_policies_keep out [] h p = rw (← ok-injective h) p
  gates_policies_keep out (gate ∷ gates) h p =
      let (out1, e, h1) = >>=-eq-ok (gate_policies lib parser out gate.listen gate.memory) _ h in
      gates_policies_keep out1 gates h1 (gate_policies_keep out gate.listen gate.memory e p)

  -- What holds of the empty map and is kept by every write holds of the map that is made.
  pub build_authority_policies_keep :
      (cfg : Config) {out : Policies}
      → build_authority_policies lib parser (some cfg) ≡ ok out
      → P []
      → P out
  unfolding build_authority_policies
  build_authority_policies_keep cfg h p =
      let (out1, e, h1) = >>=-eq-ok (legacy_policies parser [] cfg.memories) _ h in
      gates_policies_keep out1 cfg.ingress h1 (legacy_policies_keep [] cfg.memories e p)

module _ (lib : TextLibrary) (parser : Parser) where
  pub build_authority_policies-IsDistinct :
      (cfg : Config) {out : Policies}
      → build_authority_policies lib parser (some cfg) ≡ ok out
      → IsDistinct same_id (keys out)
  build_authority_policies-IsDistinct cfg h =
      build_authority_policies_keep lib parser (λ out. IsDistinct same_id (keys out))
        (λ out id v. keys-insert-IsDistinct out id v) cfg h tt
