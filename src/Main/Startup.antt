-- ===== src/Main/Startup.antt =====
-- cmd/mma2/main.go: what main does before it opens the listeners. The program's arguments are a list,
-- and the range over the map of policies takes its entries in the order of the list.
pub mod Ready
pub mod Guarded
pub mod Order
use Prim.Native.String.{String}
use mma.Base.{List, [], ◌∷◌, Option, some, Outcome, ok, err, panic, ◌>>=◌, ◌>>◌, map_err}
use mma.Golang.Text.{TextLibrary}
use mma.Golang.Netip.{Parser}
use mma.Memorycore.Store.{Store}
use mma.Authority.Evaluate.{Authority, new_authority, set_memory_policy}
use mma.Config.{IngressGate, ConfigError, build_memory_store}
use mma.Config.Load.{FileLibrary, LoadError, load}
use mma.Config.Validate.{validate_config}
use mma.Config.Policies.{Policies, build_authority_policies}

-- The calls of `log.Fatal`.
pub data StartError : Type 0 where
  usage : StartError
  load_failed : LoadError → StartError
  validation_failed memory_build_failed policy_build_failed : ConfigError → StartError

-- What the listeners work with.
pub record Server : Type 0 where
  pub store : Store
  pub auth : Authority
  pub gates : List IngressGate

-- The loop of `auth.SetMemoryPolicy(mid, p)`.
unfoldable pub set_policies : Authority → Policies → Authority
set_policies auth [] = auth
set_policies auth ((mid, p) ∷ policies) = set_policies (set_memory_policy auth mid p) policies

unfoldable pub start : FileLibrary → TextLibrary → Parser → List String → Outcome StartError Server
start files lib parser (name ∷ path ∷ args) = do
  cfg ← map_err load_failed (load files path)
  map_err validation_failed (validate_config lib parser (some cfg))
  store ← map_err memory_build_failed (build_memory_store lib (some cfg))
  policies ← map_err policy_build_failed (build_authority_policies lib parser (some cfg))
  ok (record { store = store; auth = set_policies new_authority policies; gates = cfg.ingress })
start files lib parser _ = err usage
