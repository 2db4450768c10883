-- ===== src/Config/Policies/Stated.antt =====
-- What a policy of the configuration states, and that the rules which buildPolicyFromDef
-- (internal/config/build_authority_policies.go) makes with NewRule state the same.
use Prim.Native.String.{String, ◌++◌}
use text.Mathlib.Text.{◌==◌ as str_eq}
use mma.Base.{
  ℕ, ◌≡◌, refl, sym, ap, ◌∙◌, arith, Bool, true, false, ◌==◌, ◌&&◌, ◌||◌, if◌then◌else◌, Bool-cases,
  inl, inr, Option, none, some, Option-cases, List, [], ◌∷◌, length, Outcome, ok, err, panic,
  fail_if-eq_ok, >>=-eq-ok, ok-injective,
}
use mma.Golang.Strings.{trim_space, contains_slash}
use mma.Golang.Netip.{Addr, AddrPrefix, Parser, is_valid, is6, masked, prefix_from, contains_addr}
use mma.Authority.Decision.{Decision, allow, deny}
use mma.Authority.IpMatch.{
  RuleError, rule_id_required, item_prefix, item_prefixes, new_ip_matcher, any_contains, match,
}
use mma.Authority.Rules.{Rule, has_code, put_code, allow_codes, new_rule, matches, allows_fc}
use mma.Authority.Evaluate.{evaluate_rules, evaluate_policy}
use mma.Config.{PolicyRuleConfig}
use mma.Config.Policies.{wrap_rule, build_rules}

module _ (parser : Parser) where
  -- One item of a source list covers an address.
  abbrev pub covers : String → Addr → Bool
  covers s addr =
      if contains_slash s
      then elim (parser.parse_prefix s) [ none ↦ false | some p ↦ contains_addr (masked p) addr ]
      else elim (parser.parse_addr s) [
        | none ↦ false
        | some a ↦ contains_addr (prefix_from a (if is6 a then 128 else 32)) addr
      ]

  -- Some item of a source list does; blank items are passed over.
  unfoldable pub lists_source : List String → Addr → Bool
  lists_source [] addr = false
  lists_source (raw ∷ items) addr =
      let rest = lists_source items addr in
      if str_eq (trim_space raw) ""
      then rest
      else if covers (trim_space raw) addr
      then true
      else rest

  unfoldable pub lists_code : List ℕ → ℕ → Bool
  lists_code [] fc = false
  lists_code (c ∷ codes) fc = if c == fc then true else lists_code codes fc

  -- The rule of one entry of the configuration.
  pub record States (rc : PolicyRuleConfig) (r : Rule) : Type 0 where
    pub id : r.id ≡ rc.id
    pub sources :
        (addr : Addr) → matches (some r) addr ≡ (is_valid addr && lists_source rc.source_ip addr)
    pub codes : (fc : ℕ) → allows_fc (some r) fc ≡ lists_code rc.allow_fc fc

  -- The rules of the entries, one for each and in their order.
  abbrev pub StatesAll : List PolicyRuleConfig → List (Option Rule) → Type 0
  StatesAll [] [] = Unit {0}
  StatesAll (rc ∷ entries) (some r ∷ rules) = States rc r × StatesAll entries rules
  StatesAll _ _ = ⊥

  -- The decision that the entries ask for: the first that lists the source address decides.
  unfoldable pub decide_by : List PolicyRuleConfig → Addr → ℕ → Decision
  decide_by [] src fc = deny 1 "no rule matched (default deny)"
  decide_by (rc ∷ entries) src fc =
      if is_valid src && lists_source rc.source_ip src
      then if lists_code rc.allow_fc fc
        then allow ("matched rule: " ++ rc.id)
        else deny 1 ("rule matched but function code not allowed: " ++ rc.id)
      else decide_by entries src fc

  item_prefix-covers :
      (s : String) (p : AddrPrefix) (addr : Addr)
      → item_prefix parser s ≡ ok p
      → contains_addr p addr ≡ covers s addr
  unfolding item_prefix
  item_prefix-covers s p addr h = elim (Bool-cases (contains_slash s)) [
    | inl slash ↦ elim (Option-cases (parser.parse_prefix s)) [
      | inl e ↦ absurd (cc (rw (slash, e, item_prefix) at h))
      | inr (q, e) ↦
          let same : masked q ≡ p = ok-injective (rw (slash, e, item_prefix) at h) in
          rw (slash, e) (ap (λ x. contains_addr x addr) (sym same))
    ]
    | inr bare ↦ elim (Option-cases (parser.parse_addr s)) [
      | inl e ↦ absurd (cc (rw (bare, e, item_prefix) at h))
      | inr (a, e) ↦
          let same : prefix_from a (if is6 a then 128 else 32) ≡ p =
            ok-injective (rw (bare, e, item_prefix) at h) in
          rw (bare, e) (ap (λ x. contains_addr x addr) (sym same))
    ]
  ]

  item_prefixes-lists_source :
      (items : List String) (addr : Addr) {pfxs : List AddrPrefix}
      → item_prefixes parser items ≡ ok pfxs
      → any_contains pfxs addr ≡ lists_source items addr
  unfolding item_prefixes any_contains lists_source
  item_prefixes-lists_source [] addr h = rw (← ok-injective h) refl
  item_prefixes-lists_source (raw ∷ items) addr {pfxs} h =
      elim (Bool-cases (str_eq (trim_space raw) "")) [
        | inl blank ↦
            rw blank (item_prefixes-lists_source items addr (rw (blank, item_prefixes) at h))
        | inr there ↦
            let (p, e, h1) =
              >>=-eq-ok (item_prefix parser (trim_space raw)) _ (rw (there, item_prefixes) at h) in
            let (rest, e1, h2) = >>=-eq-ok (item_prefixes parser items) _ h1 in
            rw
              (
                there,
                ← ok-injective h2,
                item_prefix-covers (trim_space raw) p addr e,
                item_prefixes-lists_source items addr e1,
              )
              refl
      ]

  has_code-put_code :
      (codes : List ℕ) (c fc : ℕ)
      → has_code (put_code codes c) fc ≡ (if c == fc then true else has_code codes fc)
  unfolding put_code has_code
  has_code-put_code codes c fc = elim (Bool-cases (has_code codes c)) [
    | inr new ↦ rw new refl
    | inl old ↦ elim (Bool-cases (c == fc)) [
      | inr other ↦ rw (old, other) refl
      | inl same ↦ let e : c ≡ fc = ground (arith, same) in rw (old, same) (rw e at old)
    ]
  ]

  has_code-allow_codes :
      (codes allow_fc : List ℕ) (fc : ℕ)
      → has_code (allow_codes codes allow_fc) fc ≡ (has_code codes fc || lists_code allow_fc fc)
  unfolding allow_codes lists_code
  has_code-allow_codes codes [] fc = elim (Bool-cases (has_code codes fc)) [
    | inl e ↦ rw e refl
    | inr e ↦ rw e refl
  ]
  has_code-allow_codes codes (c ∷ allow_fc) fc =
      has_code-allow_codes (put_code codes c) allow_fc fc
      ∙ rw (has_code-put_code codes c fc) (elim (Bool-cases (c == fc)) [
        | inl same ↦ elim (Bool-cases (has_code codes fc)) [
          | inl e ↦ rw (same, e) refl
          | inr e ↦ rw (same, e) refl
        ]
        | inr other ↦ rw other refl
      ])

  new_rule-States :
      (rc : PolicyRuleConfig) {r : Rule}
      → new_rule parser rc.id rc.source_ip rc.allow_fc ≡ ok r
      → States rc r
  unfolding new_rule new_ip_matcher matches match allows_fc has_code
  new_rule-States rc {r} h =
      let (_, h1) = fail_if-eq_ok (str_eq rc.id "") rule_id_required _ h in
      let (m, e, h2) = >>=-eq-ok (new_ip_matcher parser rc.source_ip) _ h1 in
      let (pfxs, e1, h3) = >>=-eq-ok (item_prefixes parser rc.source_ip) _ e in
      rw (← ok-injective h2) (record {
        id = refl;
        sources = λ addr. elim (Bool-cases (is_valid addr)) [
          | inl valid ↦
              rw (valid, ← ok-injective h3) (item_prefixes-lists_source rc.source_ip addr e1)
          | inr not_valid ↦ rw not_valid refl
        ];
        codes = λ fc. has_code-allow_codes [] rc.allow_fc fc;
      })

  wrap_rule-eq_ok : {A : Type 0} (o : Outcome RuleError A) {a : A} → wrap_rule o ≡ ok a → o ≡ ok a
  wrap_rule-eq_ok (ok x) h = cc h
  wrap_rule-eq_ok (err e) h = cc
  wrap_rule-eq_ok panic h = cc

  pub build_rules-StatesAll :
      (entries : List PolicyRuleConfig) {rules : List (Option Rule)}
      → build_rules parser entries ≡ ok rules
      → StatesAll entries rules
  unfolding build_rules
  build_rules-StatesAll [] h = rw (← ok-injective h) tt
  build_rules-StatesAll (rc ∷ entries) h =
      let (r, e, h1) = >>=-eq-ok (wrap_rule (new_rule parser rc.id rc.source_ip rc.allow_fc)) _ h in
      let (rules, e1, h2) = >>=-eq-ok (build_rules parser entries) _ h1 in
      rw (← ok-injective h2)
        (new_rule-States rc (wrap_rule-eq_ok _ e), build_rules-StatesAll entries e1)

  -- Rules that state the entries decide as the entries ask.
  evaluate_rules-decide_by :
      (entries : List PolicyRuleConfig) (rules : List (Option Rule)) (src : Addr) (fc : ℕ)
      → StatesAll entries rules
      → evaluate_rules rules src fc ≡ decide_by entries src fc
  unfolding evaluate_rules decide_by
  evaluate_rules-decide_by [] [] src fc h = refl
  evaluate_rules-decide_by [] (r ∷ rules) src fc h = absurd h
  evaluate_rules-decide_by (rc ∷ entries) [] src fc h = absurd h
  evaluate_rules-decide_by (rc ∷ entries) (none ∷ rules) src fc h = absurd h
  evaluate_rules-decide_by (rc ∷ entries) (some r ∷ rules) src fc (one, rest) =
      rw (one.sources src, one.codes fc, one.id, evaluate_rules-decide_by entries rules src fc rest)
        refl

  -- The decision of a whole policy: without an entry it denies.
  abbrev pub decide_policy : List PolicyRuleConfig → Addr → ℕ → Decision
  decide_policy [] src fc = deny 1 "no access rules (default deny)"
  decide_policy (rc ∷ entries) src fc = decide_by (rc ∷ entries) src fc

  pub evaluate_policy-decide_policy :
      (entries : List PolicyRuleConfig) (rules : List (Option Rule)) (src : Addr) (fc : ℕ)
      → StatesAll entries rules
      → evaluate_policy (some (some (record { rules = rules }))) src fc
        ≡ decide_policy entries src fc
  unfolding evaluate_policy
  evaluate_policy-decide_policy [] [] src fc h = refl
  evaluate_policy-decide_policy [] (r ∷ rules) src fc h = absurd h
  evaluate_policy-decide_policy (rc ∷ entries) [] src fc h = absurd h
  evaluate_policy-decide_policy (rc ∷ entries) (r ∷ rules) src fc h =
      let some_rules : (length (r ∷ rules) == 0) ≡ false = ground arith in
      rw (some_rules, evaluate_policy)
        (evaluate_rules-decide_by (rc ∷ entries) (r ∷ rules) src fc h)
