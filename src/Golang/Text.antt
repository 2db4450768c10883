-- ===== src/Golang/Text.antt =====
-- The functions of Go's packages net, strconv and strings that the configuration calls; they are a
-- parameter.
use Prim.Native.String.{String}
use mma.Base.{ℕ, Option}

-- Go's `int`.
pub data ℤ : Type 0 where
  pos : ℕ → ℤ
  negsuc : ℕ → ℤ

-- The port of `net.SplitHostPort`, `strconv.Atoi` and `strings.ToLower`; `none` is an error.
pub record TextLibrary : Type 0 where
  pub split_host_port : String → Option String
  pub atoi : String → Option ℤ
  pub to_lower : String → String
