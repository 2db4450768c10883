-- ===== src/Config/Policies/Nested.antt =====
-- The policies of the definitions of one port (internal/config/build_authority_policies.go).
use mma.Base.{
  ℕ, ◌≡◌, refl, sym, arith, ◌∙◌, true, false, Bool-cases, inl, inr, Option, none, some, List, [],
  ◌∷◌, All, ok, fail_if-eq_ok, >>=-eq-ok, ok-injective,
}
use mma.Golang.Netip.{Parser}
use mma.Golang.Sets.{has_key}
use mma.Golang.Sets.Fresh.{IsFresh, put_all, has_key-put_all}
use mma.Memorycore.Store.{MemoryId, same_id, lookup, insert}
use mma.Memorycore.Store.Laws.{same_id_refl, same_id→eq, lookup-insert}
use mma.Authority.Rules.{Rule}
use mma.Authority.Evaluate.{MemoryPolicy}
use mma.Config.{MemoryPolicyConfig, MemoryDefinition, duplicate_policy}
use mma.Config.Validate.{has_identity}
use mma.Config.Validate.Distinct.{nested_ids, has_identity_head, has_identity_tail}
use mma.Config.Validate.Accepted.{identity}
use mma.Config.Policies.Stated.{StatesAll, build_rules-StatesAll}
use mma.Config.Policies.{
  Policies, exists_key, build_rules, build_policy_from_def, add_policy, nested_policies,
}

-- The map has the policy of the configuration for an identity: none, or one rule for
-- each entry, in their order, that states the same.
abbrev pub PolicySet : Parser → Policies → MemoryId → Option MemoryPolicyConfig → Type 0
PolicySet parser out id none = lookup out id ≡ none
PolicySet parser out id (some pc) =
    (rules : List (Option Rule)) × StatesAll parser pc.rules rules
    × (lookup out id ≡ some (some (record { rules = rules })))

-- Only keys of the set are in the map.
abbrev pub Bound : Policies → List MemoryId → Type 0
Bound out seen = (k : MemoryId) → has_identity seen k ≡ false → lookup out k ≡ none

abbrev pub SameOn : List MemoryId → Policies → Policies → Type 0
SameOn seen out out' = (k : MemoryId) → has_identity seen k ≡ true → lookup out' k ≡ lookup out k

insert-Bound :
    (out : Policies) (id : MemoryId) (v : Option MemoryPolicy) (seen : List MemoryId)
    → Bound out seen
    → Bound (insert out id v) (id ∷ seen)
unfolding has_key
insert-Bound out id v seen bound k e = elim (Bool-cases (same_id id k)) [
  | inl same ↦ cc (same, e)
  | inr other ↦ rw (lookup-insert out id k v, other) (bound k (rw other at e))
]

insert-SameOn :
    (out : Policies) (id : MemoryId) (v : Option MemoryPolicy) (seen : List MemoryId)
    → has_identity seen id ≡ false
    → SameOn seen out (insert out id v)
insert-SameOn out id v seen new k e = elim (Bool-cases (same_id id k)) [
  | inl same ↦ let q : id ≡ k = same_id→eq id k same in cc (q, new, e)
  | inr other ↦ rw (lookup-insert out id k v, other) refl
]

module _ (parser : Parser) where
  pub PolicySet-SameOn :
      (out out' : Policies) (id : MemoryId) (pc : Option MemoryPolicyConfig)
      → lookup out' id ≡ lookup out id
      → PolicySet parser out id pc
      → PolicySet parser out' id pc
  PolicySet-SameOn out out' id none e h = e ∙ h
  PolicySet-SameOn out out' id (some pc) e (rules, q, h) = (rules, q, e ∙ h)

  add_policy-PolicySet :
      (out : Policies) (id : MemoryId) (pc : Option MemoryPolicyConfig) (seen : List MemoryId)
      {out' : Policies}
      → add_policy parser out id pc ≡ ok out'
      → has_identity seen id ≡ false
      → Bound out seen
      → PolicySet parser out' id pc × Bound out' (id ∷ seen) × SameOn seen out out'
  unfolding add_policy build_policy_from_def has_key
  add_policy-PolicySet out id none seen {out'} h new bound =
      let q : out' ≡ out = sym (ok-injective h) in
      rw q (bound id new, λ k e. bound k (ground arith), λ k e. refl)
  add_policy-PolicySet out id (some pc) seen {out'} h new bound =
      let (_, h1) = fail_if-eq_ok (exists_key (lookup out id)) duplicate_policy _ h in
      let (p, e1, h2) = >>=-eq-ok (build_policy_from_def parser (some pc)) _ h1 in
      let (rules, e2, h3) = >>=-eq-ok (build_rules parser pc.rules) _ e1 in
      let q : out' ≡ insert out id (some (record { rules = rules })) =
        rw (ok-injective (sym h3)) at (ok-injective (sym h2)) in
      rw q (
        (
          rules,
          build_rules-StatesAll parser pc.rules e2,
          rw (lookup-insert out id id (some (record { rules = rules })), same_id_refl id) refl,
        ),
        insert-Bound out id (some (record { rules = rules })) seen bound,
        insert-SameOn out id (some (record { rules = rules })) seen new,
      )

  abbrev pub Configured : Policies → ℕ → MemoryDefinition → Type 0
  Configured out port def = PolicySet parser out (identity port def) def.policy

  -- A definition that has its policy, and whose identity is in the set.
  abbrev pub Held : Policies → List MemoryId → ℕ → MemoryDefinition → Type 0
  Held out seen port def = Configured out port def × (has_identity seen (identity port def) ≡ true)

  pub Held-SameOn :
      (out out' : Policies) (seen seen' : List MemoryId)
      → SameOn seen out out'
      → ((k : MemoryId) → has_identity seen k ≡ true → has_identity seen' k ≡ true)
      → (port : ℕ) (def : MemoryDefinition) → Held out seen port def
      → Held out' seen' port def
  Held-SameOn out out' seen seen' same grows port def (set, there) =
      let id = identity port def in
      (PolicySet-SameOn out out' id def.policy (same id there) set, grows id there)

  -- What the loop over the definitions of one port keeps and sets.
  pub nested_policies-Held :
      (port : ℕ) (out : Policies) (defs : List MemoryDefinition) (seen : List MemoryId)
      {out' : Policies}
      → nested_policies parser port out defs ≡ ok out'
      → IsFresh same_id seen (nested_ids port defs)
      → Bound out seen
      → All (Held out' (put_all same_id seen (nested_ids port defs)) port) defs
        × Bound out' (put_all same_id seen (nested_ids port defs))
        × SameOn seen out out'
  unfolding nested_policies
  nested_policies-Held port out [] seen h fresh bound =
      let q = ok-injective (sym h) in rw q (tt, bound, λ k e. refl)
  nested_policies-Held port out (def ∷ defs) seen {out'} h (new, fresh) bound =
      let id = identity port def in
      let (out1, e, h1) = >>=-eq-ok (add_policy parser out id def.policy) _ h in
      let (set, bound1, same1) = add_policy-PolicySet out id def.policy seen e new bound in
      let (sets, bound2, same2) = nested_policies-Held port out1 defs (id ∷ seen) h1 fresh bound1 in
      let mine : Held out1 (id ∷ seen) port def = (set, has_identity_head id seen) in
      (
        (
          Held-SameOn out1 out' (id ∷ seen) _ same2
              (has_key-put_all same_id (id ∷ seen) (nested_ids port defs)) port def mine,
          sets,
        ),
        bound2,
        λ k there. same2 k (has_identity_tail id seen k there) ∙ same1 k there,
      )
