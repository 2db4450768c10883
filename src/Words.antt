-- ===== src/Words.antt =====
-- Go's `uint16`, and `encoding/binary`'s big-endian words in byte slices.
pub mod Laws
use mma.Base.{
  ℕ, ◌+◌, ◌*◌, ◌/◌, ◌%◌, ◌^◌, ◌≤◌, ◌<◌, ◌≡◌, List, length, set, get_or, Outcome, ok, panic, leb,
  if◌then◌else◌,
}

-- A byte slice holds numbers below 256.
abbrev pub IsByte : ℕ → Type 0
IsByte b = b < 256

abbrev pub IsU16 : ℕ → Type 0
IsU16 n = n < 65536

-- Conversion to `uint16`, and the wrap of `uint16` arithmetic.
abbrev pub u16 : ℕ → ℕ
u16 n = n % 65536

-- `binary.BigEndian.Uint16(b[k:k+2])`
unfoldable pub load_u16 {κ} : {E : Type κ} → List ℕ → ℕ → Outcome E ℕ
load_u16 b k =
    if leb (k + 2) (length b) then ok (get_or b k 0 * 256 + get_or b (k + 1) 0) else panic

-- `binary.BigEndian.PutUint16(b[k:k+2], v)`
unfoldable pub store_u16 {κ} : {E : Type κ} → List ℕ → ℕ → ℕ → Outcome E (List ℕ)
store_u16 b k v =
    if leb (k + 2) (length b) then ok (set (set b k (v / 256 % 256)) (k + 1) (v % 256)) else panic

-- The `i`-th big-endian word of a byte slice.
unfoldable pub word_at : List ℕ → ℕ → ℕ
word_at b i = get_or b (i * 2) 0 * 256 + get_or b (i * 2 + 1) 0
