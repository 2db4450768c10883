-- ===== src/Authority/IpMatch.antt =====
-- internal/authority/ipmatch.go
use Prim.Native.String.{String}
use text.Mathlib.Text.{◌==◌ as str_eq}
use mma.Base.{Bool, true, false, if◌then◌else◌, none, some, List, [], ◌∷◌, Outcome, ok, err, ◌>>=◌}
use mma.Golang.Strings.{trim_space, contains_slash}
use mma.Golang.Netip.{Addr, AddrPrefix, Parser, is_valid, is6, masked, prefix_from, contains_addr}

pub data RuleError : Type 0 where
  rule_id_required : RuleError
  invalid_cidr invalid_ip : String → RuleError

pub record IpMatcher : Type 0 where
  pub prefixes : List AddrPrefix

-- A list item that is not blank: a CIDR, or a bare address as a prefix of its full length.
unfoldable pub item_prefix : Parser → String → Outcome RuleError AddrPrefix
item_prefix parser s =
    if contains_slash s
    then elim (parser.parse_prefix s) [ none ↦ err (invalid_cidr s) | some p ↦ ok (masked p) ]
    else elim (parser.parse_addr s) [
      | none ↦ err (invalid_ip s)
      | some addr ↦ ok (prefix_from addr (if is6 addr then 128 else 32))
    ]

-- The loop of NewIPMatcher; blank items are passed over.
unfoldable pub item_prefixes : Parser → List String → Outcome RuleError (List AddrPrefix)
item_prefixes parser [] = ok []
item_prefixes parser (raw ∷ items) =
    let s = trim_space raw in
    let rest = item_prefixes parser items in
    if str_eq s "" then rest else do p ← item_prefix parser s; pfxs ← rest; ok (p ∷ pfxs)

unfoldable pub new_ip_matcher : Parser → List String → Outcome RuleError IpMatcher
new_ip_matcher parser items = do pfxs ← item_prefixes parser items; ok (record { prefixes = pfxs })

unfoldable pub any_contains : List AddrPrefix → Addr → Bool
any_contains [] addr = false
any_contains (p ∷ prefixes) addr = if contains_addr p addr then true else any_contains prefixes addr

unfoldable pub match : IpMatcher → Addr → Bool
match m addr = if is_valid addr then any_contains m.prefixes addr else false
