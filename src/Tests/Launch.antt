-- ===== src/Tests/Launch.antt =====
-- The theorems on the start of the server at a concrete configuration.
use mathlib.Core.List.Memᴰ as MemD
use mma.Base.{◌≡◌, ◌↔◌, refl, arith, true, none, some, some-injective, [], ◌∷◌, ok}
use mma.Golang.Strings.{trim_space, contains_slash}
use mma.Golang.Sets.{has_key}
use mma.Golang.Netip.{Parser, v4, is_valid, is6, prefix_from}
use mma.Memorycore.Bits.{bytes_for_bits}
use mma.Memorycore.Layout.{validate}
use mma.Memorycore.Memory.{allocate, new_memory, set_state_sealing}
use mma.Memorycore.Store.{Store, validate_id, insert, lookup, add, same_id}
use mma.Authority.Rules.{has_code, put_code, allow_codes, new_rule}
use mma.Authority.IpMatch.{item_prefix, item_prefixes, new_ip_matcher}
use mma.Authority.Sealing.{new_sealing}
use mma.Authority.Evaluate.{set_memory_policy}
use mma.Config.{
  MemoryPolicyConfig, MemoryDefinition, Config, parse_listen_port, layout_of, layouts_of,
  attach_sealing, build_one_memory, build_memories, build_gates, build_memory_store,
}
use mma.Config.Load.{FileLibrary, load}
use mma.Config.Validate.{
  validate_ingress, check_listen, validate_area, validate_areas, validate_state_sealing,
  validate_sources, validate_codes, validate_rules, validate_policy, parse_ip_or_cidr,
  validate_definition, validate_legacy, validate_nested, validate_gates, validate_all_memories,
  validate_config,
}
use mma.Config.Policies.{
  build_rules, build_policy_from_def, add_policy, legacy_policies, nested_policies, gates_policies,
  build_authority_policies,
}
use mma.Main.Startup.{Server, start, set_policies}
use mma.Tests.Startup.{library_a, definition_a, config_a-AreU16Gates, store_a}
use mma.Tests.Samples.{id_a}
use text.Mathlib.Text.{◌==◌ as str_eq}
use mma.Golang.Sets.Fresh.{IsDistinct}
use mma.Memorycore.Memory.WellFormed.{IsNarrow}
use mma.Memorycore.Store.WellFormed.{IsSoundStore}
use mma.Authority.Evaluate.{evaluate}
use mma.Modbus.Conn.{is_blocked}
use mma.Config.Sound.{AreU16Gates}
use mma.Config.Validate.Distinct.{identities, validate_config-IsDistinct}
use mma.Config.Validate.Build.{AllHaveUnits, GatesServed}
use mma.Config.Validate.Units.{build_memory_store_iff}
use mma.Config.Policies.Configured.{GatesConfigured}
use mma.Main.Startup.Ready.{DecodesU16, start-IsReady}
use mma.Main.Startup.Guarded.{Decided, start-Decided, start-is_blocked}

abbrev pub parser_a : Parser
parser_a = record { parse_addr = λ s. some (v4 10); parse_prefix = λ s. none }

abbrev pub policy_a : MemoryPolicyConfig
policy_a = record {
  rules = record { id = "ops"; source_ip = "10.0.0.5" ∷ []; allow_fc = 1 ∷ 5 ∷ [] } ∷ [];
}

abbrev pub definition_p : MemoryDefinition
definition_p = record definition_a { policy = some policy_a }

abbrev pub config_p : Config
config_p = record {
  ingress = record { id = "lan"; listen = ":502"; memory = definition_p ∷ [] } ∷ [];
  memories = [];
}

abbrev pub files_a : FileLibrary
files_a = record { read_file = λ path. some []; unmarshal = λ bytes. some config_p }

abbrev pub server_p : Server
server_p = record {
  store = store_a;
  auth = record {
    sealing = new_sealing;
    policies =
        (
          id_a,
          some (record {
            rules =
                some (record {
                  id = "ops";
                  ip = some (record { prefixes = record { ip = v4 10; bits = some 32 } ∷ [] });
                  allow_function_codes = 5 ∷ 1 ∷ [];
                })
                ∷ [];
          }),
        )
        ∷ [];
  };
  gates = config_p.ingress;
}

validated : validate_config library_a parser_a (some config_p) ≡ ok tt
unfolding validate_config validate_ingress check_listen validate_all_memories validate_legacy
    validate_gates validate_nested validate_definition validate_areas validate_area
    validate_state_sealing validate_policy validate_rules validate_sources validate_codes
    parse_ip_or_cidr has_key trim_space parse_listen_port
validated = refl

pub started : start files_a library_a parser_a ("mma2" ∷ "mma2.yaml" ∷ []) ≡ ok server_p
unfolding start load set_policies set_memory_policy validate_config validate_ingress check_listen
    validate_all_memories validate_legacy validate_gates validate_nested validate_definition
    validate_areas validate_area validate_state_sealing validate_policy validate_rules
    validate_sources validate_codes parse_ip_or_cidr has_key trim_space parse_listen_port
    build_memory_store build_gates build_memories build_one_memory layouts_of layout_of
    attach_sealing set_state_sealing new_memory allocate validate bytes_for_bits add validate_id
    insert lookup build_rules build_policy_from_def add_policy legacy_policies nested_policies
    gates_policies build_authority_policies new_rule new_ip_matcher item_prefixes item_prefix
    contains_slash prefix_from is_valid is6 allow_codes put_code has_code
started = refl

config_p-AreU16Gates : AreU16Gates config_p.ingress
unfolding layouts_of layout_of
config_p-AreU16Gates = config_a-AreU16Gates

pub files_a-DecodesU16 : DecodesU16 files_a library_a parser_a
files_a-DecodesU16 bytes cfg e =
    let q : config_p ≡ cfg = some-injective config_p cfg e in
    coe 0 1 (i. AreU16Gates ((q i).ingress)) config_p-AreU16Gates

pub parsed : parse_listen_port library_a ":502" ≡ ok 502
unfolding parse_listen_port
parsed = refl

validate_config-IsDistinct_example :
    IsDistinct str_eq ("lan" ∷ []) × IsDistinct same_id (identities library_a config_p)
validate_config-IsDistinct_example =
    validate_config-IsDistinct library_a parser_a config_p validated

build_memory_store_iff_example :
    ((s : Store) × (build_memory_store library_a (some config_p) ≡ ok s))
    ↔ ((config_p.memories ≡ []) × AllHaveUnits config_p.ingress)
build_memory_store_iff_example =
    build_memory_store_iff library_a parser_a config_p validated config_p-AreU16Gates

start-IsReady_example :
    IsSoundStore store_a
    × GatesServed library_a store_a server_p.gates
    × GatesConfigured parser_a library_a server_p.auth.policies server_p.gates
start-IsReady_example =
    start-IsReady files_a library_a parser_a ("mma2" ∷ "mma2.yaml" ∷ []) files_a-DecodesU16 started

start-Decided_example :
    Decided parser_a
      (some policy_a)
      (v4 10)
      5
      (evaluate server_p.auth (record { memory_id = id_a; source_ip = v4 10; function_code = 5 }))
start-Decided_example =
    start-Decided files_a library_a parser_a ("mma2" ∷ "mma2.yaml" ∷ []) server_p files_a-DecodesU16
      started (record { id = "lan"; listen = ":502"; memory = definition_p ∷ [] }) definition_p 502
      (MemD.head refl) (MemD.head refl) parsed (v4 10) 5

pub IsNarrow-coils : IsNarrow (layout_of definition_p.coils)
unfolding layout_of
IsNarrow-coils = omega arith

pub IsNarrow-discrete : IsNarrow (layout_of definition_p.discrete_inputs)
unfolding layout_of
IsNarrow-discrete = tt

start-is_blocked_example : is_blocked store_a id_a ≡ true
start-is_blocked_example =
    start-is_blocked files_a library_a parser_a ("mma2" ∷ "mma2.yaml" ∷ []) server_p
      files_a-DecodesU16 started
      (record { id = "lan"; listen = ":502"; memory = definition_p ∷ [] }) definition_p 502
      (MemD.head refl) (MemD.head refl) parsed (record { area = " coil"; address = 0 }) refl
      IsNarrow-coils IsNarrow-discrete
