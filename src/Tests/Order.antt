-- ===== src/Tests/Order.antt =====
-- The theorem on the order of the policies at a configuration with two.
use mathlib.Core.List.Permᴰ as PermD
use mma.Base.{◌≡◌, refl, Option, some, [], ◌∷◌, ◌++◌, ok}
use mma.Golang.Strings.{trim_space, contains_slash}
use mma.Golang.Netip.{v4, is_valid, is6, prefix_from}
use mma.Memorycore.Store.{MemoryId, insert, lookup}
use mma.Authority.Rules.{has_code, put_code, allow_codes, new_rule}
use mma.Authority.IpMatch.{item_prefix, item_prefixes, new_ip_matcher}
use mma.Authority.Evaluate.{MemoryPolicy, new_authority, evaluate}
use mma.Config.{Config, parse_listen_port}
use mma.Config.Policies.{
  build_rules, build_policy_from_def, add_policy, legacy_policies, nested_policies, gates_policies,
  build_authority_policies,
}
use mma.Main.Startup.{set_policies}
use mma.Main.Startup.Order.{set_policies_any_order}
use mma.Tests.Startup.{library_a}
use mma.Tests.Launch.{parser_a, definition_p, server_p}
use mma.Tests.Samples.{id_a}

abbrev two_units : Config
two_units = record {
  ingress =
      record {
        id = "lan";
        listen = ":502";
        memory =
            definition_p
            ∷ record definition_p { unit_id = 2; policy = some (record { rules = [] }) }
            ∷ [];
      }
      ∷ [];
  memories = [];
}

abbrev second : MemoryId × Option MemoryPolicy
second = (record { port = 502; unit_id = 2 }, some (record { rules = [] }))

two_policies :
    build_authority_policies library_a parser_a (some two_units)
    ≡ ok (server_p.auth.policies ++ second ∷ [])
unfolding build_authority_policies legacy_policies gates_policies nested_policies add_policy
    build_policy_from_def build_rules parse_listen_port lookup insert new_rule new_ip_matcher
    item_prefixes item_prefix trim_space contains_slash prefix_from is_valid is6 allow_codes
    put_code has_code
two_policies = refl

set_policies_any_order_example :
    evaluate
      (set_policies new_authority (second ∷ server_p.auth.policies))
      (record { memory_id = id_a; source_ip = v4 10; function_code = 5 })
    ≡ evaluate
        (set_policies new_authority (server_p.auth.policies ++ second ∷ []))
        (record { memory_id = id_a; source_ip = v4 10; function_code = 5 })
set_policies_any_order_example =
    set_policies_any_order library_a parser_a two_units (server_p.auth.policies ++ second ∷ [])
      (second ∷ server_p.auth.policies) two_policies (PermD.swap refl refl)
      (record { memory_id = id_a; source_ip = v4 10; function_code = 5 })
