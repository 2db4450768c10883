-- ===== src/Golang/Netip.antt =====
-- Go's package net/netip, as far as the address lists use it. The parsers of addresses and prefixes
-- are a parameter: `Parser`.
use Prim.Native.String.{String}
use text.Mathlib.Text.{◌==◌ as str_eq}
use mma.Base.{
  ℕ, ◌-◌, ◌*◌, ◌/◌, ◌^◌, Bool, true, false, ◌&&◌, ◌==◌, leb, if◌then◌else◌, Option, none, some,
}

-- `netip.Addr`: the zero value, an IPv4 address, or an IPv6 address with its zone.
pub data Addr : Type 0 where
  zero_addr : Addr
  v4 : ℕ → Addr
  v6 : ℕ → String → Addr

unfoldable pub is_valid : Addr → Bool
is_valid zero_addr = false
is_valid (v4 n) = true
is_valid (v6 n zone) = true

unfoldable pub is6 : Addr → Bool
is6 (v6 n zone) = true
is6 _ = false

abbrev pub bit_len : Addr → ℕ
bit_len zero_addr = 0
bit_len (v4 n) = 32
bit_len (v6 n zone) = 128

abbrev pub without_zone : Addr → Addr
without_zone (v6 n zone) = v6 n ""
without_zone a = a

-- `netip.Prefix`: `none` for the bits of an invalid prefix.
pub record AddrPrefix : Type 0 where
  pub ip : Addr
  pub bits : Option ℕ

-- `netip.PrefixFrom`
unfoldable pub prefix_from : Addr → ℕ → AddrPrefix
prefix_from a bits = record {
  ip = without_zone a;
  bits = if is_valid a && leb bits (bit_len a) then some bits else none;
}

-- The address with all bits behind the first `bits` of `width` cleared.
abbrev pub clear_low : ℕ → ℕ → ℕ → ℕ
clear_low width bits n = n / 2 ^ (width - bits) * 2 ^ (width - bits)

abbrev masked_parts : Addr → Option ℕ → AddrPrefix
masked_parts (v4 n) (some b) = record { ip = v4 (clear_low 32 b n); bits = some b }
masked_parts (v6 n zone) (some b) = record { ip = v6 (clear_low 128 b n) ""; bits = some b }
masked_parts a b = record { ip = zero_addr; bits = none }

-- `Prefix.Masked`
unfoldable pub masked : AddrPrefix → AddrPrefix
masked p = masked_parts p.ip p.bits

abbrev contains_parts : Addr → Option ℕ → Addr → Bool
contains_parts (v4 n) (some b) (v4 m) = n / 2 ^ (32 - b) == m / 2 ^ (32 - b)
contains_parts (v6 n z) (some b) (v6 m zone) =
    str_eq zone "" && n / 2 ^ (128 - b) == m / 2 ^ (128 - b)
contains_parts _ _ _ = false

-- `Prefix.Contains`: same family, no zone, and the same leading bits.
unfoldable pub contains_addr : AddrPrefix → Addr → Bool
contains_addr p a = contains_parts p.ip p.bits a

-- `netip.ParseAddr` and `netip.ParsePrefix`; `none` is an error.
pub record Parser : Type 0 where
  pub parse_addr : String → Option Addr
  pub parse_prefix : String → Option AddrPrefix
