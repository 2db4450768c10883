-- ===== src/Config/Policies.antt =====
-- internal/config/build_authority_policies.go. The map of policies is the one that an Authority has.
pub mod Stated
pub mod Nested
pub mod Configured
pub mod Distinct
use Prim.Native.String.{String}
use mma.Base.{
  ℕ, Bool, true, false, Option, none, some, List, [], ◌∷◌, Outcome, ok, err, panic, ◌>>=◌, ◌>>◌,
  fail_if,
}
use mma.Golang.Text.{TextLibrary}
use mma.Golang.Netip.{Parser}
use mma.Memorycore.Store.{MemoryId, lookup, insert}
use mma.Authority.IpMatch.{RuleError}
use mma.Authority.Rules.{Rule, new_rule}
use mma.Authority.Evaluate.{MemoryPolicy}
use mma.Config.{
  PolicyRuleConfig, MemoryPolicyConfig, MemoryDefinition, IngressGate, Config, ConfigError,
  config_is_nil, duplicate_policy, rule_failed, parse_listen_port,
}

abbrev pub Policies : Type 0
Policies = List (MemoryId × Option MemoryPolicy)

-- `fmt.Errorf("...: %w", err)`
abbrev pub wrap_rule {ℓ} : {A : Type ℓ} → Outcome RuleError A → Outcome ConfigError A
wrap_rule (ok a) = ok a
wrap_rule (err e) = err (rule_failed e)
wrap_rule panic = panic

-- The loop of buildPolicyFromDef.
unfoldable pub build_rules :
    Parser → List PolicyRuleConfig → Outcome ConfigError (List (Option Rule))
build_rules parser [] = ok []
build_rules parser (rc ∷ rules) = do
  r ← wrap_rule (new_rule parser rc.id rc.source_ip rc.allow_fc)
  rs ← build_rules parser rules
  ok (some r ∷ rs)

unfoldable pub build_policy_from_def :
    Parser → Option MemoryPolicyConfig → Outcome ConfigError (Option MemoryPolicy)
build_policy_from_def parser none = ok none
build_policy_from_def parser (some p) = do
  rules ← build_rules parser p.rules
  ok (some (record { rules = rules }))

abbrev exists_key : Option (Option MemoryPolicy) → Bool
exists_key none = false
exists_key (some p) = true

-- The body of both loops: a definition without a policy is passed over.
unfoldable pub add_policy :
    Parser → Policies → MemoryId → Option MemoryPolicyConfig → Outcome ConfigError Policies
add_policy parser out mid none = ok out
add_policy parser out mid (some pc) = do
  fail_if (exists_key (lookup out mid)) duplicate_policy
  p ← build_policy_from_def parser (some pc)
  ok (insert out mid p)

unfoldable pub legacy_policies :
    Parser → Policies → List (String × MemoryDefinition) → Outcome ConfigError Policies
legacy_policies parser out [] = ok out
legacy_policies parser out ((key, def) ∷ memories) = do
  out' ← add_policy parser out (record { port = def.port; unit_id = def.unit_id }) def.policy
  legacy_policies parser out' memories

unfoldable pub nested_policies :
    Parser → ℕ → Policies → List MemoryDefinition → Outcome ConfigError Policies
nested_policies parser port out [] = ok out
nested_policies parser port out (def ∷ defs) = do
  out' ← add_policy parser out (record { port = port; unit_id = def.unit_id }) def.policy
  nested_policies parser port out' defs

abbrev pub gate_policies :
    TextLibrary → Parser → Policies → String → List MemoryDefinition → Outcome ConfigError Policies
gate_policies lib parser out listen [] = ok out
gate_policies lib parser out listen (def ∷ defs) = do
  port ← parse_listen_port lib listen
  nested_policies parser port out (def ∷ defs)

unfoldable pub gates_policies :
    TextLibrary → Parser → Policies → List IngressGate → Outcome ConfigError Policies
gates_policies lib parser out [] = ok out
gates_policies lib parser out (gate ∷ gates) = do
  out' ← gate_policies lib parser out gate.listen gate.memory
  gates_policies lib parser out' gates

unfoldable pub build_authority_policies :
    TextLibrary → Parser → Option Config → Outcome ConfigError Policies
build_authority_policies lib parser none = err config_is_nil
build_authority_policies lib parser (some cfg) = do
  out ← legacy_policies parser [] cfg.memories
  gates_policies lib parser out cfg.ingress
