-- ===== src/Authority/Rules.antt =====
-- internal/authority/rules.go. A nil pointer is `none`; the set of function codes is a list.
use Prim.Native.String.{String}
use text.Mathlib.Text.{◌==◌ as str_eq}
use mma.Base.{
  ℕ, Bool, true, false, ◌==◌, if◌then◌else◌, Option, none, some, List, [], ◌∷◌, Outcome, ok, ◌>>=◌,
  ◌>>◌, fail_if,
}
use mma.Golang.Netip.{Addr, Parser}
use mma.Authority.IpMatch.{RuleError, rule_id_required, IpMatcher, new_ip_matcher, match}

pub record Rule : Type 0 where
  pub id : String
  pub ip : Option IpMatcher
  pub allow_function_codes : List ℕ

-- A Go map with the function codes for keys.
unfoldable pub has_code : List ℕ → ℕ → Bool
has_code [] fc = false
has_code (c ∷ codes) fc = if c == fc then true else has_code codes fc

-- `allow[fc] = struct{}{}`
unfoldable pub put_code : List ℕ → ℕ → List ℕ
put_code codes fc = if has_code codes fc then codes else fc ∷ codes

unfoldable pub allow_codes : List ℕ → List ℕ → List ℕ
allow_codes codes [] = codes
allow_codes codes (fc ∷ allow_fc) = allow_codes (put_code codes fc) allow_fc

unfoldable pub new_rule : Parser → String → List String → List ℕ → Outcome RuleError Rule
new_rule parser id ip_list allow_fc = do
  fail_if (str_eq id "") rule_id_required
  m ← new_ip_matcher parser ip_list
  let codes = allow_codes [] allow_fc
  ok (record { id = id; ip = some m; allow_function_codes = codes })

unfoldable pub matches : Option Rule → Addr → Bool
matches none src = false
matches (some r) src = elim r.ip [ none ↦ false | some m ↦ match m src ]

unfoldable pub allows_fc : Option Rule → ℕ → Bool
allows_fc none fc = false
allows_fc (some r) fc = has_code r.allow_function_codes fc
