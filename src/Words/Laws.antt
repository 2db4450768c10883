-- ===== src/Words/Laws.antt =====
-- Big-endian words: what a load reads and a store leaves.
use mma.Base.{
  ℕ, ◌+◌, ◌*◌, ◌/◌, ◌%◌, ◌≤◌, ◌<◌, ◌≡◌, arith, List, length, set, ok, le→leb, ◌==◌, if◌then◌else◌,
  All, All-set, All-get_or, length-set, get_or-set,
}
use mma.Words.{IsByte, IsU16, load_u16, store_u16, word_at}

-- The slice after the `i`-th word is stored.
unfoldable pub put_word : List ℕ → ℕ → ℕ → List ℕ
put_word b i v = set (set b (i * 2) (v / 256 % 256)) (i * 2 + 1) (v % 256)

module _ {κ} {E : Type κ} where
  pub load_u16-word_at :
      (b : List ℕ) (i : ℕ) → i * 2 + 2 ≤ length b → load_u16 {E = E} b (i * 2) ≡ ok (word_at b i)
  unfolding load_u16 word_at
  load_u16-word_at b i h = rw (le→leb _ _ h)

  pub store_u16-put_word :
      (b : List ℕ) (i v : ℕ)
      → i * 2 + 2 ≤ length b
      → store_u16 {E = E} b (i * 2) v ≡ ok (put_word b i v)
  unfolding store_u16 put_word
  store_u16-put_word b i v h = rw (le→leb _ _ h)

pub length-put_word : (b : List ℕ) (i v : ℕ) → length (put_word b i v) ≡ length b
unfolding put_word
length-put_word b i v = rw (length-set, length-set)

pub put_word-IsByte : (b : List ℕ) (i v : ℕ) → All IsByte b → All IsByte (put_word b i v)
unfolding put_word
put_word-IsByte b i v h =
    All-set IsByte _ (i * 2 + 1) (v % 256)
      (All-set IsByte b (i * 2) (v / 256 % 256) h (omega arith)) (omega arith)

pub word_at-IsU16 : (b : List ℕ) (i : ℕ) → All IsByte b → IsU16 (word_at b i)
unfolding word_at
word_at-IsU16 b i h = omega (
  arith,
  All-get_or IsByte b (i * 2) 0 h (omega arith),
  All-get_or IsByte b (i * 2 + 1) 0 h (omega arith),
)

-- A stored word is read back, and the other words are as they were.
pub word_at-put_word :
    (b : List ℕ) (i j v : ℕ)
    → IsU16 v
    → i * 2 + 2 ≤ length b
    → word_at (put_word b i v) j ≡ (if j == i then v else word_at b j)
unfolding word_at put_word
word_at-put_word b i j v hv hb =
    let hi = v / 256 % 256 in
    let lo = v % 256 in
    let inner : i * 2 + 1 < length (set b (i * 2) hi) = omega (arith, length-set b (i * 2) hi) in
    rw
      (
        get_or-set (set b (i * 2) hi) (i * 2 + 1) (j * 2) lo 0 inner,
        get_or-set (set b (i * 2) hi) (i * 2 + 1) (j * 2 + 1) lo 0 inner,
        get_or-set b (i * 2) (j * 2) hi 0 (omega arith),
        get_or-set b (i * 2) (j * 2 + 1) hi 0 (omega arith),
      )
      (ground arith)
