-- ===== src/Golang/Strings.antt =====
-- Go's package strings, as far as the configuration and the address lists use it.
use Prim.Native.Char.{Char, code}
use Prim.Native.String.{String}
use mma.Base.{ℕ, Bool, false, ◌||◌, ◌&&◌, ◌==◌, leb, if◌then◌else◌}

-- `unicode.IsSpace`
unfoldable pub is_space : ℕ → Bool
is_space c =
    (leb 0x09 c && leb c 0x0d)
    || c == 0x20
    || c == 0x85
    || c == 0xa0
    || c == 0x1680
    || (leb 0x2000 c && leb c 0x200a)
    || c == 0x2028
    || c == 0x2029
    || c == 0x202f
    || c == 0x205f
    || c == 0x3000

unfoldable pub trim_left : String → String
unfolding is_space
trim_left String.[] = ""
trim_left (String.◌∷◌ c s) = if is_space (code c) then trim_left s else String.◌∷◌ c s

abbrev keep : Char → String → String
keep c String.[] = if is_space (code c) then "" else String.◌∷◌ c ""
keep c (String.◌∷◌ d t) = String.◌∷◌ c (String.◌∷◌ d t)

-- The white space at the end dropped: a text of spaces alone becomes empty.
unfoldable pub trim_right : String → String
unfolding is_space
trim_right String.[] = ""
trim_right (String.◌∷◌ c s) = keep c (trim_right s)

-- `strings.TrimSpace`
unfoldable pub trim_space : String → String
unfolding trim_left trim_right
trim_space s = trim_right (trim_left s)

-- `strings.Contains(s, "/")`
unfoldable pub contains_slash : String → Bool
contains_slash String.[] = false
contains_slash (String.◌∷◌ c s) = code c == 0x2f || contains_slash s
