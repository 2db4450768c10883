-- ===== src/Authority/Evaluate/FirstMatch.antt =====
-- Evaluate of internal/authority/authority.go against the rule that decides: the first that matches.
use mma.Base.{
  ℕ, ◌<◌, length, ◌≡◌, ◌↔◌, inl, inr, refl, arith, true, false, if◌then◌else◌, Bool-cases, Option,
  none, some, List, [], ◌∷◌,
}
use mma.Golang.Netip.{Addr}
use mma.Memorycore.Store.{lookup}
use mma.Authority.Decision.{allow, deny}
use mma.Authority.Rules.{Rule, matches, allows_fc}
use mma.Authority.Sealing.{is_sealed}
use mma.Authority.Evaluate.{
  Authority, AuthRequest, MemoryPolicy, evaluate_rules, evaluate_policy, evaluate,
}

-- `r` is the first rule of the list that matches the address; nil rules are passed over.
pub data FirstMatch (src : Addr) : List (Option Rule) → Rule → Type 0 where
  here :
      {r : Rule} {rs : List (Option Rule)}
      → matches (some r) src ≡ true
      → FirstMatch src (some r ∷ rs) r
  skip_nil :
      {r : Rule} {rs : List (Option Rule)} → FirstMatch src rs r → FirstMatch src (none ∷ rs) r
  skip :
      {q r : Rule} {rs : List (Option Rule)}
      → matches (some q) src ≡ false
      → FirstMatch src rs r
      → FirstMatch src (some q ∷ rs) r

module _ (src : Addr) (fc : ℕ) where
  evaluate_rules-FirstMatch :
      (rules : List (Option Rule))
      → (evaluate_rules rules src fc).allowed ≡ true
      → (r : Rule) × FirstMatch src rules r × (allows_fc (some r) fc ≡ true)
  unfolding evaluate_rules deny allow
  evaluate_rules-FirstMatch [] h = cc
  evaluate_rules-FirstMatch (none ∷ rules) h =
      let (r, f, a) = evaluate_rules-FirstMatch rules h in (r, skip_nil f, a)
  evaluate_rules-FirstMatch (some q ∷ rules) h = elim (Bool-cases (matches (some q) src)) [
    | inl hit ↦ (q, here hit, ground arith)
    | inr miss ↦
        let (r, f, a) = evaluate_rules-FirstMatch rules (ground arith) in (r, skip miss f, a)
  ]

  FirstMatch-evaluate_rules :
      (rules : List (Option Rule)) (r : Rule)
      → FirstMatch src rules r
      → allows_fc (some r) fc ≡ true
      → (evaluate_rules rules src fc).allowed ≡ true
  unfolding evaluate_rules deny allow
  FirstMatch-evaluate_rules rules r (here hit) a = ground arith
  FirstMatch-evaluate_rules rules r (skip_nil f) a = FirstMatch-evaluate_rules _ r f a
  FirstMatch-evaluate_rules rules r (skip miss f) a = rw miss (FirstMatch-evaluate_rules _ r f a)

  FirstMatch-length :
      (rules : List (Option Rule)) (r : Rule) → FirstMatch src rules r → 0 < length rules
  FirstMatch-length rules r (here hit) = omega arith
  FirstMatch-length rules r (skip_nil f) = omega arith
  FirstMatch-length rules r (skip miss f) = omega arith

  evaluate_rules_code :
      (rules : List (Option Rule))
      → (evaluate_rules rules src fc).allowed ≡ false
      → (evaluate_rules rules src fc).exception_code ≡ 1
  unfolding evaluate_rules deny allow
  evaluate_rules_code [] h = refl
  evaluate_rules_code (none ∷ rules) h = evaluate_rules_code rules h
  evaluate_rules_code (some q ∷ rules) h = ground (arith, evaluate_rules_code rules)

module _ (a : Authority) (req : AuthRequest) where
  -- A request is allowed exactly when its memory is not sealed, has a policy, and the first rule of
  -- that policy which matches the source address lists the function code.
  pub evaluate_iff : ((evaluate a req).allowed ≡ true) ↔ (
      (is_sealed a.sealing req.memory_id ≡ false)
      × (p : MemoryPolicy) × (lookup a.policies req.memory_id ≡ some (some p))
      × (r : Rule) × FirstMatch req.source_ip p.rules r
      × (allows_fc (some r) req.function_code ≡ true))
  unfolding evaluate evaluate_policy deny allow
  evaluate_iff = (
    λ h. forth (lookup a.policies req.memory_id) refl h,
    λ (open_, p, e, r, f, c).
        let go = FirstMatch-evaluate_rules req.source_ip req.function_code p.rules r f c in
        let some_rules = FirstMatch-length req.source_ip req.function_code p.rules r f in
        ground arith,
  )
    where
      forth :
          (o : Option (Option MemoryPolicy))
          → lookup a.policies req.memory_id ≡ o
          → (evaluate a req).allowed ≡ true
          → (is_sealed a.sealing req.memory_id ≡ false)
            × (p : MemoryPolicy) × (lookup a.policies req.memory_id ≡ some (some p))
            × (r : Rule) × FirstMatch req.source_ip p.rules r
            × (allows_fc (some r) req.function_code ≡ true)
      forth (some (some p)) e h =
          let (r, f, c) =
            evaluate_rules-FirstMatch req.source_ip req.function_code p.rules (ground arith) in
          (ground arith, p, e, r, f, c)
      forth (some none) e h = absurd (ground arith)
      forth none e h = absurd (ground arith)

  -- A request that is refused gets Device Busy if its memory is sealed, and Illegal Function otherwise.
  pub evaluate_code :
      (evaluate a req).allowed ≡ false
      → (evaluate a req).exception_code ≡ (if is_sealed a.sealing req.memory_id then 6 else 1)
  unfolding evaluate evaluate_policy deny allow
  evaluate_code h = code (lookup a.policies req.memory_id) refl
    where
      code :
          (o : Option (Option MemoryPolicy))
          → lookup a.policies req.memory_id ≡ o
          → (evaluate a req).exception_code ≡ (if is_sealed a.sealing req.memory_id then 6 else 1)
      code (some (some p)) e =
          ground (arith, evaluate_rules_code req.source_ip req.function_code p.rules)
      code (some none) e = ground arith
      code none e = ground arith
