-- ===== src/Authority/Evaluate.antt =====
-- internal/authority/authority.go: sealing first, then the rules of the memory top-down, and denial
-- when none decides.
pub mod FirstMatch
use Prim.Native.String.{String, ◌++◌}
use mma.Base.{ℕ, Bool, true, false, if◌then◌else◌, Option, none, some, List, [], ◌∷◌, length, ◌==◌}
use mma.Memorycore.Store.{MemoryId, lookup, insert}
use mma.Golang.Netip.{Addr}
use mma.Authority.Decision.{Decision, allow, deny}
use mma.Authority.Rules.{Rule, matches, allows_fc}
use mma.Authority.Sealing.{Sealing, new_sealing, is_sealed}

abbrev pub exception_illegal_function : ℕ
exception_illegal_function = 0x01

abbrev pub exception_device_busy : ℕ
exception_device_busy = 0x06

pub record AuthRequest : Type 0 where
  pub memory_id : MemoryId
  pub source_ip : Addr
  pub function_code : ℕ

pub record MemoryPolicy : Type 0 where
  pub rules : List (Option Rule)

pub record Authority : Type 0 where
  pub sealing : Sealing
  pub policies : List (MemoryId × Option MemoryPolicy)

abbrev pub new_authority : Authority
new_authority = record { sealing = new_sealing; policies = [] }

unfoldable pub set_memory_policy : Authority → MemoryId → Option MemoryPolicy → Authority
set_memory_policy a mid p = record a { policies = insert a.policies mid p }

-- The loop over the rules: the first that matches decides.
unfoldable pub evaluate_rules : List (Option Rule) → Addr → ℕ → Decision
evaluate_rules [] src fc = deny exception_illegal_function "no rule matched (default deny)"
evaluate_rules (none ∷ rules) src fc = evaluate_rules rules src fc
evaluate_rules (some r ∷ rules) src fc =
    if matches (some r) src
    then if allows_fc (some r) fc
      then allow ("matched rule: " ++ r.id)
      else deny exception_illegal_function ("rule matched but function code not allowed: " ++ r.id)
    else evaluate_rules rules src fc

-- `p == nil || len(p.Rules) == 0`, then the loop. A missing key reads as nil.
unfoldable pub evaluate_policy : Option (Option MemoryPolicy) → Addr → ℕ → Decision
evaluate_policy (some (some p)) src fc =
    if length p.rules == 0
    then deny exception_illegal_function "no access rules (default deny)"
    else evaluate_rules p.rules src fc
evaluate_policy _ src fc = deny exception_illegal_function "no access rules (default deny)"

unfoldable pub evaluate : Authority → AuthRequest → Decision
evaluate a req =
    if is_sealed a.sealing req.memory_id
    then deny exception_device_busy "state sealing enabled"
    else evaluate_policy (lookup a.policies req.memory_id) req.source_ip req.function_code
