-- ===== src/Config/Validate.antt =====
-- internal/config/validate.go. The sets of what was seen are lists, and the legacy map is the list of
-- its entries in the order of the iteration.
pub mod Distinct
pub mod Accepted
pub mod Build
pub mod Units
use Prim.Native.String.{String}
use text.Mathlib.Text.{◌==◌ as str_eq}
use mma.Base.{
  ℕ, ◌+◌, Bool, true, false, not, ◌==◌, ◌||◌, ltb, leb, if◌then◌else◌, Option, none, some, List, [],
  ◌∷◌, Outcome, ok, err, panic, ◌>>=◌, ◌>>◌, fail_if,
}
use mma.Golang.Sets.{has_key}
use mma.Golang.Strings.{trim_space}
use mma.Golang.Text.{TextLibrary}
use mma.Golang.Netip.{Parser}
use mma.Memorycore.Store.{MemoryId, same_id}
use mma.Config.{
  AreaConfig, StateSealingConfig, PolicyRuleConfig, MemoryPolicyConfig, MemoryDefinition,
  IngressGate, Config, ConfigError, config_is_nil, sealing_not_coil, sealing_without_coils,
  sealing_out_of_bounds, id_required, duplicate_id, listen_required, identity_conflict, port_zero,
  unit_id_too_large, area_overflow, invalid_ip_or_cidr, invalid_function_code, parse_listen_port,
}

-- `seen[g.ID]` and `seen[id]`
abbrev pub has_text : List String → String → Bool
has_text seen id = has_key str_eq seen id

abbrev pub has_identity : List MemoryId → MemoryId → Bool
has_identity seen id = has_key same_id seen id

-- `if len(g.Memory) > 0`, the port must be parseable.
unfoldable pub check_listen :
    TextLibrary → String → List MemoryDefinition → Outcome ConfigError (Unit {0})
check_listen lib listen [] = ok tt
check_listen lib listen (def ∷ defs) = do port ← parse_listen_port lib listen; ok tt

unfoldable pub validate_ingress :
    TextLibrary → List String → List IngressGate → Outcome ConfigError (Unit {0})
validate_ingress lib seen [] = ok tt
validate_ingress lib seen (g ∷ gates) = do
  fail_if (str_eq g.id "") id_required
  fail_if (has_text seen g.id) duplicate_id
  fail_if (str_eq (trim_space g.listen) "") listen_required
  check_listen lib g.listen g.memory
  validate_ingress lib (g.id ∷ seen) gates

unfoldable pub validate_area : AreaConfig → Outcome ConfigError (Unit {0})
validate_area a =
    if a.count == 0
    then ok tt
    else let end = a.start + a.count in if ltb 0x10000 end then err area_overflow else ok tt

unfoldable pub validate_areas : MemoryDefinition → Outcome ConfigError (Unit {0})
validate_areas def = do
  validate_area def.coils
  validate_area def.discrete_inputs
  validate_area def.holding_regs
  validate_area def.input_regs

unfoldable pub validate_state_sealing :
    TextLibrary → AreaConfig → Option StateSealingConfig → Outcome ConfigError (Unit {0})
validate_state_sealing lib coils none = ok tt
validate_state_sealing lib coils (some seal) = do
  fail_if (not (str_eq (lib.to_lower (trim_space seal.area)) "coil")) sealing_not_coil
  fail_if (coils.count == 0) sealing_without_coils
  let end_exclusive = coils.start + coils.count
  fail_if (ltb seal.address coils.start || leb end_exclusive seal.address) sealing_out_of_bounds

-- Whether a text is a prefix or an address.
unfoldable pub parse_ip_or_cidr : Parser → String → Bool
parse_ip_or_cidr parser s = elim (parser.parse_prefix s) [
  | some p ↦ true
  | none ↦ elim (parser.parse_addr s) [ some a ↦ true | none ↦ false ]
]

unfoldable pub validate_sources : Parser → List String → Outcome ConfigError (Unit {0})
validate_sources parser [] = ok tt
validate_sources parser (raw ∷ items) = do
  let s = trim_space raw
  fail_if (if str_eq s "" then false else not (parse_ip_or_cidr parser s)) invalid_ip_or_cidr
  validate_sources parser items

unfoldable pub validate_codes : List ℕ → Outcome ConfigError (Unit {0})
validate_codes [] = ok tt
validate_codes (fc ∷ codes) = do fail_if (fc == 0) invalid_function_code; validate_codes codes

unfoldable pub validate_rules : Parser → List PolicyRuleConfig → Outcome ConfigError (Unit {0})
validate_rules parser [] = ok tt
validate_rules parser (r ∷ rules) = do
  validate_sources parser r.source_ip
  validate_codes r.allow_fc
  validate_rules parser rules

unfoldable pub validate_policy : Parser → Option MemoryPolicyConfig → Outcome ConfigError (Unit {0})
validate_policy parser none = ok tt
validate_policy parser (some p) = validate_rules parser p.rules

-- The checks that both kinds of definition share.
unfoldable pub validate_definition :
    TextLibrary → Parser → ℕ → MemoryDefinition → Outcome ConfigError (Unit {0})
validate_definition lib parser port def = do
  fail_if (port == 0) port_zero
  fail_if (ltb 0xff def.unit_id) unit_id_too_large
  validate_areas def
  validate_state_sealing lib def.coils def.state_sealing
  validate_policy parser def.policy

abbrev pub validate_legacy_memory_def :
    TextLibrary → Parser → MemoryDefinition → Outcome ConfigError (Unit {0})
validate_legacy_memory_def lib parser def = validate_definition lib parser def.port def

abbrev pub validate_nested_memory_def :
    TextLibrary → Parser → ℕ → MemoryDefinition → Outcome ConfigError (Unit {0})
validate_nested_memory_def lib parser port def = validate_definition lib parser port def

-- The loop over the legacy model; the identities that were seen.
unfoldable pub validate_legacy :
    TextLibrary
    → Parser
    → List MemoryId
    → List (String × MemoryDefinition)
    → Outcome ConfigError (List MemoryId)
validate_legacy lib parser seen [] = ok seen
validate_legacy lib parser seen ((key, def) ∷ memories) = do
  validate_legacy_memory_def lib parser def
  let id : MemoryId = record { port = def.port; unit_id = def.unit_id }
  fail_if (has_identity seen id) identity_conflict
  validate_legacy lib parser (id ∷ seen) memories

-- The loops over the nested model.
unfoldable pub validate_nested :
    TextLibrary
    → Parser
    → ℕ
    → List MemoryId
    → List MemoryDefinition
    → Outcome ConfigError (List MemoryId)
validate_nested lib parser port seen [] = ok seen
validate_nested lib parser port seen (def ∷ defs) = do
  validate_nested_memory_def lib parser port def
  let id : MemoryId = record { port = port; unit_id = def.unit_id }
  fail_if (has_identity seen id) identity_conflict
  validate_nested lib parser port (id ∷ seen) defs

abbrev pub validate_gate :
    TextLibrary
    → Parser
    → List MemoryId
    → String
    → List MemoryDefinition
    → Outcome ConfigError (List MemoryId)
validate_gate lib parser seen listen [] = ok seen
validate_gate lib parser seen listen (def ∷ defs) = do
  port ← parse_listen_port lib listen
  validate_nested lib parser port seen (def ∷ defs)

unfoldable pub validate_gates :
    TextLibrary → Parser → List MemoryId → List IngressGate → Outcome ConfigError (List MemoryId)
validate_gates lib parser seen [] = ok seen
validate_gates lib parser seen (gate ∷ gates) = do
  seen' ← validate_gate lib parser seen gate.listen gate.memory
  validate_gates lib parser seen' gates

unfoldable pub validate_all_memories :
    TextLibrary → Parser → Config → Outcome ConfigError (List MemoryId)
validate_all_memories lib parser cfg = do
  seen ← validate_legacy lib parser [] cfg.memories
  validate_gates lib parser seen cfg.ingress

unfoldable pub validate_config :
    TextLibrary → Parser → Option Config → Outcome ConfigError (Unit {0})
validate_config lib parser none = err config_is_nil
validate_config lib parser (some cfg) = do
  validate_ingress lib [] cfg.ingress
  seen ← validate_all_memories lib parser cfg
  ok tt
