-- ===== src/Config/Load.antt =====
-- internal/config/loader.go. Reading the file and decoding its YAML are parameters.
use Prim.Native.String.{String}
use mma.Base.{ℕ, Option, List, Outcome, ok, ◌>>=◌, non_nil}
use mma.Config.{Config}

pub data LoadError : Type 0 where
  read_failed parse_failed : LoadError

-- `os.ReadFile` and `yaml.Unmarshal` into a Config; `none` is an error.
pub record FileLibrary : Type 0 where
  pub read_file : String → Option (List ℕ)
  pub unmarshal : List ℕ → Option Config

unfoldable pub load : FileLibrary → String → Outcome LoadError Config
load files path = do
  bytes ← non_nil (files.read_file path) read_failed
  cfg ← non_nil (files.unmarshal bytes) parse_failed
  ok cfg
