-- ===== src/Memorycore/Bits/Byte.antt =====
-- The masks of internal/memorycore/bits.go on one byte, as arithmetic. Each law is a table over the
-- bytes and the bit positions, checked by evaluation.
use mma.Base.{
  ◌+◌, ◌≤◌, inl, inr, Bool-cases, ℕ, zero, suc, ◌/◌, ◌%◌, ◌^◌, ◌<◌, Bool, true, false, not, ◌==◌,
  ltb, if◌then◌else◌, ◌≡◌, refl, arith,
}
use mma.Words.{IsByte}
use mma.Memorycore.Bits.{is_set, put_bit}

-- Bit `k` of a number.
abbrev pub bit_of : ℕ → ℕ → Bool
bit_of b k = b / 2 ^ k % 2 == 1

-- A test passed by the `count` numbers from `from` on.
passes : (test : ℕ → Bool) (count from : ℕ) → Bool
passes test zero from = true
passes test (suc count) from = if test from then passes test count (from + 1) else false

passes-at :
    (test : ℕ → Bool) (count from k : ℕ)
    → from ≤ k
    → k < from + count
    → passes test count from ≡ true
    → test k ≡ true
unfolding passes
passes-at test zero from k low high ok_all = absurd (omega arith)
passes-at test (suc count) from k low high ok_all = elim (Bool-cases (k == from)) [
  | inl here ↦ let same_k : k ≡ from = ground arith in rw same_k (ground arith)
  | inr later ↦ passes-at test count (from + 1) k (ground arith) (omega arith) (ground arith)
]

-- A test on all bytes, and one on the eight positions.
abbrev bytes : (ℕ → Bool) → Bool
bytes test = passes test 256 0

abbrev positions : (ℕ → Bool) → Bool
positions test = passes test 8 0

byte_passes : (test : ℕ → Bool) (b : ℕ) → IsByte b → bytes test ≡ true → test b ≡ true
byte_passes test b h t = passes-at test 256 0 b (omega arith) h t

position_passes : (test : ℕ → Bool) (k : ℕ) → k < 8 → positions test ≡ true → test k ≡ true
position_passes test k h t = passes-at test 8 0 k (omega arith) h t

abbrev same : Bool → Bool → Bool
same true b = b
same false b = not b

same-eq : (a b : Bool) → same a b ≡ true → a ≡ b
same-eq a b h = ground arith

test_table : bytes (λ b. positions (λ k. same (is_set b (2 ^ k)) (bit_of b k))) ≡ true
unfolding passes is_set
test_table = refl

-- The test with a mask of one bit reads that bit.
pub is_set-bit_of : (b k : ℕ) → IsByte b → k < 8 → is_set b (2 ^ k) ≡ bit_of b k
is_set-bit_of b k hb hk = same-eq _ _ (position_passes _ k hk (byte_passes _ b hb test_table))

abbrev put_table_at : Bool → ℕ → ℕ → ℕ → Bool
put_table_at on b k j = same (bit_of (put_bit b (2 ^ k) on) j) (if j == k then on else bit_of b j)

put_table :
    (on : Bool) → bytes (λ b. positions (λ k. positions (λ j. put_table_at on b k j))) ≡ true
unfolding passes put_bit
put_table true = refl
put_table false = refl

-- The write with a mask of one bit changes that bit, and no other.
pub bit_of-put_bit :
    (b k j : ℕ) (on : Bool)
    → IsByte b
    → k < 8
    → j < 8
    → bit_of (put_bit b (2 ^ k) on) j ≡ (if j == k then on else bit_of b j)
bit_of-put_bit b k j on hb hk hj =
    same-eq _ _
      (position_passes _ j hj (position_passes _ k hk (byte_passes _ b hb (put_table on))))

range_table : (on : Bool) → bytes (λ b. positions (λ k. ltb (put_bit b (2 ^ k) on) 256)) ≡ true
unfolding passes put_bit
range_table true = refl
range_table false = refl

ltb→lt : (a b : ℕ) → ltb a b ≡ true → a < b
ltb→lt a b h = ground arith

pub put_bit-IsByte : (b k : ℕ) (on : Bool) → IsByte b → k < 8 → IsByte (put_bit b (2 ^ k) on)
put_bit-IsByte b k on hb hk =
    ltb→lt _ _ (position_passes _ k hk (byte_passes _ b hb (range_table on)))
