-- ===== src/Config.antt =====
-- internal/config: config.go, build_memory_store.go, and parseListenPort of
-- build_authority_policies.go. A YAML file that is read already is a Config.
pub mod Sound
pub mod SealingBits
pub mod Validate
pub mod Policies
pub mod Load
use Prim.Native.String.{String}
use text.Mathlib.Text.{◌==◌ as str_eq}
use mma.Base.{
  ℕ, ◌+◌, not, ◌==◌, ◌||◌, ltb, leb, if◌then◌else◌, Option, none, some, List, [], ◌∷◌, ◌++◌, length,
  Outcome, ok, err, panic, ◌>>=◌, ◌>>◌, fail_if, non_nil,
}
use mma.Golang.Strings.{trim_space}
use mma.Golang.Text.{ℤ, pos, negsuc, TextLibrary}
use mma.Authority.IpMatch.{RuleError}
use mma.Memorycore.Area.{area_coils}
use mma.Memorycore.Errors.{MemoryError}
use mma.Memorycore.Layout.{AreaLayout}
use mma.Memorycore.Memory.{Memory, MemoryLayouts, StateSealingDef, new_memory, set_state_sealing}
use mma.Memorycore.Store.{MemoryId, Store, new_store, add}

pub record AreaConfig : Type 0 where
  pub start : ℕ
  pub count : ℕ

pub record StateSealingConfig : Type 0 where
  pub area : String
  pub address : ℕ

pub record PolicyRuleConfig : Type 0 where
  pub id : String
  pub source_ip : List String
  pub allow_fc : List ℕ

pub record MemoryPolicyConfig : Type 0 where
  pub rules : List PolicyRuleConfig

pub record MemoryDefinition : Type 0 where
  pub port : ℕ
  pub unit_id : ℕ
  pub coils : AreaConfig
  pub discrete_inputs : AreaConfig
  pub holding_regs : AreaConfig
  pub input_regs : AreaConfig
  pub state_sealing : Option StateSealingConfig
  pub policy : Option MemoryPolicyConfig

pub record IngressGate : Type 0 where
  pub id : String
  pub listen : String
  pub memory : List MemoryDefinition

-- `memories` is the legacy map of MemoryConfig.
pub record Config : Type 0 where
  pub ingress : List IngressGate
  pub memories : List (String × MemoryDefinition)

pub data ConfigError : Type 0 where
  config_is_nil legacy_memories : ConfigError
  invalid_listen invalid_port port_out_of_range : ConfigError
  create_failed register_failed : MemoryError → ConfigError
  sealing_not_coil sealing_without_coils sealing_out_of_bounds : ConfigError
  id_required duplicate_id listen_required identity_conflict duplicate_policy : ConfigError
  port_zero unit_id_too_large area_overflow invalid_ip_or_cidr invalid_function_code : ConfigError
  rule_failed : RuleError → ConfigError

-- `fmt.Errorf("...: %w", err)`
abbrev pub wrap {ℓ} :
    {A : Type ℓ} → (MemoryError → ConfigError) → Outcome MemoryError A → Outcome ConfigError A
wrap f (ok a) = ok a
wrap f (err e) = err (f e)
wrap f panic = panic

abbrev pub port_of : ℤ → Outcome ConfigError ℕ
port_of (negsuc n) = err port_out_of_range
port_of (pos n) = if ltb n 1 || ltb 65535 n then err port_out_of_range else ok n

unfoldable pub parse_listen_port : TextLibrary → String → Outcome ConfigError ℕ
parse_listen_port lib listen = do
  port_str ← non_nil (lib.split_host_port listen) invalid_listen
  n ← non_nil (lib.atoi port_str) invalid_port
  port_of n

-- `if def.Coils.Count > 0`, and so on.
unfoldable pub layout_of : AreaConfig → Option AreaLayout
layout_of area =
    if ltb 0 area.count then some (record { start = area.start; size = area.count }) else none

unfoldable pub layouts_of : MemoryDefinition → MemoryLayouts
layouts_of def = record {
  coils = layout_of def.coils;
  discrete_inputs = layout_of def.discrete_inputs;
  holding_regs = layout_of def.holding_regs;
  input_regs = layout_of def.input_regs;
}

-- The block on state sealing.
unfoldable pub attach_sealing :
    TextLibrary → AreaConfig → Memory → Option StateSealingConfig → Outcome ConfigError Memory
attach_sealing lib coils m none = ok m
attach_sealing lib coils m (some seal) = do
  fail_if (not (str_eq (lib.to_lower (trim_space seal.area)) "coil")) sealing_not_coil
  fail_if (coils.count == 0) sealing_without_coils
  let end_exclusive = coils.start + coils.count
  fail_if (ltb seal.address coils.start || leb end_exclusive seal.address) sealing_out_of_bounds
  ok (set_state_sealing m (record { area = area_coils; address = seal.address }))

-- The memory is a new place in the heap.
unfoldable pub build_one_memory :
    TextLibrary → Store → ℕ → MemoryDefinition → Outcome ConfigError Store
build_one_memory lib s port def = do
  mem ← wrap create_failed (new_memory (layouts_of def))
  m ← attach_sealing lib def.coils mem def.state_sealing
  wrap register_failed (
      add (some (record s { heap = s.heap ++ m ∷ [] }))
        (record { port = port; unit_id = def.unit_id }) (some (length s.heap)))

-- The inner loop.
unfoldable pub build_memories :
    TextLibrary → Store → ℕ → List MemoryDefinition → Outcome ConfigError Store
build_memories lib s port [] = ok s
build_memories lib s port (def ∷ defs) = do
  s' ← build_one_memory lib s port def
  build_memories lib s' port defs

abbrev pub build_gate :
    TextLibrary → Store → String → List MemoryDefinition → Outcome ConfigError Store
build_gate lib s listen [] = ok s
build_gate lib s listen (def ∷ defs) = do
  port ← parse_listen_port lib listen
  build_memories lib s port (def ∷ defs)

-- The outer loop.
unfoldable pub build_gates : TextLibrary → Store → List IngressGate → Outcome ConfigError Store
build_gates lib s [] = ok s
build_gates lib s (gate ∷ gates) = do
  s' ← build_gate lib s gate.listen gate.memory
  build_gates lib s' gates

unfoldable pub build_memory_store : TextLibrary → Option Config → Outcome ConfigError Store
build_memory_store lib none = err config_is_nil
build_memory_store lib (some cfg) = do
  fail_if (ltb 0 (length cfg.memories)) legacy_memories
  build_gates lib new_store cfg.ingress
