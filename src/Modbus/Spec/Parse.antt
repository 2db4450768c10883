-- ===== src/Modbus/Spec/Parse.antt =====
-- The decoders of internal/transport/modbus/pdu_decode.go against the parser of the contract.
use mma.Base.{
  ℕ, zero, suc, ◌+◌, ◌*◌, ◌/◌, ◌%◌, ◌≤◌, ◌≡◌, ◌⊎◌, inl, inr, refl, ap, arith, not, ◌||◌, ◌==◌,
  if◌then◌else◌, Bool-cases, le→leb, append_nil, append_snoc, List, [], ◌∷◌, ◌++◌, length, take,
  drop, get_or, All, Outcome, ok, err,
}
use mma.Words.{IsByte, IsU16, load_u16, word_at}
use mma.Memorycore.Bits.{bytes_for_bits}
use mma.Memorycore.Bits.Loops.{bit_at}
use mma.Modbus.Decode.{
  DecodeError, WriteMultiplePdu, WriteMultipleBitsPdu, invalid_length, byte_count_mismatch,
  invalid_byte_count, decode_read_request, decode_write_single, values_loop, decode_write_multiple,
  decode_write_multiple_bits,
}
use mma.Modbus.Dispatch.{value_bytes}
use mma.Modbus.Spec.{
  Parsed, invalid, valid, put_bits, put_regs, two, block, parse_put_coils, parse_put_regs,
}

-- A decoder of two words reads them, or the payload is refused.
abbrev pub TwoWords : {A : Type 0} → Outcome DecodeError A → (ℕ → ℕ → A) → List ℕ → Type 0
TwoWords decoded pdu payload =
    ((x : ℕ) × (y : ℕ) × (decoded ≡ ok (pdu x y)) × ((f : ℕ → ℕ → Parsed) → two f payload ≡ f x y))
    ⊎ ((e : DecodeError) × (decoded ≡ err e) × ((f : ℕ → ℕ → Parsed) → two f payload ≡ invalid 3))

pub decode_read_request-TwoWords :
    (payload : List ℕ)
    → TwoWords (decode_read_request payload) (λ x y. record { address = x; quantity = y }) payload
unfolding decode_read_request load_u16
decode_read_request-TwoWords (a ∷ b ∷ c ∷ d ∷ []) = inl (a * 256 + b, c * 256 + d, refl, λ f. refl)
decode_read_request-TwoWords [] = inr (invalid_length, refl, λ f. refl)
decode_read_request-TwoWords (a ∷ []) = inr (invalid_length, refl, λ f. refl)
decode_read_request-TwoWords (a ∷ b ∷ []) = inr (invalid_length, refl, λ f. refl)
decode_read_request-TwoWords (a ∷ b ∷ c ∷ []) = inr (invalid_length, refl, λ f. refl)
decode_read_request-TwoWords (a ∷ b ∷ c ∷ d ∷ e ∷ rest) =
    inr (invalid_length, ground arith, λ f. refl)

pub decode_write_single-TwoWords :
    (payload : List ℕ)
    → TwoWords (decode_write_single payload) (λ x y. record { address = x; value = y }) payload
unfolding decode_write_single load_u16
decode_write_single-TwoWords (a ∷ b ∷ c ∷ d ∷ []) = inl (a * 256 + b, c * 256 + d, refl, λ f. refl)
decode_write_single-TwoWords [] = inr (invalid_length, refl, λ f. refl)
decode_write_single-TwoWords (a ∷ []) = inr (invalid_length, refl, λ f. refl)
decode_write_single-TwoWords (a ∷ b ∷ []) = inr (invalid_length, refl, λ f. refl)
decode_write_single-TwoWords (a ∷ b ∷ c ∷ []) = inr (invalid_length, refl, λ f. refl)
decode_write_single-TwoWords (a ∷ b ∷ c ∷ d ∷ e ∷ rest) =
    inr (invalid_length, ground arith, λ f. refl)

-- The words of bytes fit.
pub decode_write_single-IsU16 :
    (payload : List ℕ) {x y : ℕ}
    → All IsByte payload
    → decode_write_single payload ≡ ok (record { address = x; value = y })
    → IsU16 y
unfolding decode_write_single load_u16
decode_write_single-IsU16 (a ∷ b ∷ c ∷ d ∷ []) h q = ground arith
decode_write_single-IsU16 [] h q = cc
decode_write_single-IsU16 (a ∷ []) h q = cc
decode_write_single-IsU16 (a ∷ b ∷ []) h q = cc
decode_write_single-IsU16 (a ∷ b ∷ c ∷ []) h q = cc
decode_write_single-IsU16 (a ∷ b ∷ c ∷ d ∷ e ∷ rest) h q = ground arith

take-all {ℓ} : {A : Type ℓ} (xs : List A) → take (length xs) xs ≡ xs
take-all [] = refl
take-all (x ∷ xs) = ap (◌∷◌ x) (take-all xs)

-- The decoder of the coils: its bytes are those of the payload.
abbrev pub CoilsBlock : Outcome DecodeError WriteMultipleBitsPdu → List ℕ → Type 0
CoilsBlock decoded payload =
    ((x : ℕ) × (y : ℕ) × (bytes : List ℕ) × (decoded
        ≡ ok (record { address = x; quantity = y; payload = bytes }))
      × (block parse_put_coils payload
          ≡ (if y == 0 then invalid 3 else valid (put_bits x y (bit_at bytes) y)))
      × (bytes_for_bits y ≤ length bytes)
      × All IsByte bytes)
    ⊎ ((e : DecodeError) × (decoded ≡ err e) × (block parse_put_coils payload ≡ invalid 3))

pub decode_write_multiple_bits-CoilsBlock :
    (payload : List ℕ)
    → All IsByte payload
    → CoilsBlock (decode_write_multiple_bits payload) payload
unfolding decode_write_multiple_bits load_u16 bytes_for_bits
decode_write_multiple_bits-CoilsBlock [] h = inr (invalid_length, refl, refl)
decode_write_multiple_bits-CoilsBlock (a ∷ []) h = inr (invalid_length, refl, refl)
decode_write_multiple_bits-CoilsBlock (a ∷ b ∷ []) h = inr (invalid_length, refl, refl)
decode_write_multiple_bits-CoilsBlock (a ∷ b ∷ c ∷ []) h = inr (invalid_length, refl, refl)
decode_write_multiple_bits-CoilsBlock (a ∷ b ∷ c ∷ d ∷ []) h = inr (invalid_length, refl, refl)
decode_write_multiple_bits-CoilsBlock (a ∷ b ∷ c ∷ d ∷ n ∷ bytes) h =
    let quantity = c * 256 + d in
    elim (Bool-cases (length bytes == n)) [
      | inr off ↦ inr (byte_count_mismatch, ground arith, ground arith)
      | inl same ↦ elim (Bool-cases (length bytes == bytes_for_bits quantity)) [
        | inr off ↦ inr (invalid_byte_count, ground arith, ground arith)
        | inl fits ↦
            let whole : n ≡ length bytes = ground arith in
            inl (
              a * 256 + b,
              quantity,
              bytes,
              rw (whole, take-all bytes) (ground arith),
              ground arith,
              ground arith,
              h.1.1.1.1.1,
            )
      ]
    ]

-- The words of a byte slice, big-endian.
abbrev words_of : List ℕ → List ℕ
words_of [] = []
words_of (a ∷ []) = []
words_of (a ∷ b ∷ bytes) = (a * 256 + b) ∷ words_of bytes

value_bytes-words_of :
    (n : ℕ) (bytes : List ℕ)
    → length bytes ≡ n * 2
    → All IsByte bytes
    → value_bytes (words_of bytes) ≡ bytes
unfolding value_bytes
value_bytes-words_of n [] len h = refl
value_bytes-words_of n (a ∷ []) len h = absurd (omega arith)
value_bytes-words_of zero (a ∷ b ∷ bytes) len h = absurd (omega arith)
value_bytes-words_of (suc n) (a ∷ b ∷ bytes) len h =
    let hi : (a * 256 + b) / 256 % 256 ≡ a = omega (arith, h.0, h.1.0) in
    let lo : (a * 256 + b) % 256 ≡ b = omega (arith, h.0, h.1.0) in
    rw (hi, lo, value_bytes-words_of n bytes (omega arith) h.1.1) refl

length-words_of : (n : ℕ) (bytes : List ℕ) → length bytes ≡ n * 2 → length (words_of bytes) ≡ n
length-words_of n [] len = omega arith
length-words_of n (a ∷ []) len = absurd (omega arith)
length-words_of zero (a ∷ b ∷ bytes) len = absurd (omega arith)
length-words_of (suc n) (a ∷ b ∷ bytes) len = omega (arith, length-words_of n bytes (omega arith))

-- What stands at the front of a dropped list.
drop-front :
    (k : ℕ) (xs : List ℕ) {a b : ℕ} {rest : List ℕ}
    → drop k xs ≡ a ∷ b ∷ rest
    → (get_or xs k 0 ≡ a)
      × (get_or xs (k + 1) 0 ≡ b)
      × (k + 2 ≤ length xs)
      × (drop (k + 2) xs ≡ rest)
drop-front zero [] e = cc
drop-front zero (x ∷ []) e = cc
drop-front zero (x ∷ y ∷ xs) e = (cc, cc, omega arith, cc)
drop-front (suc k) [] e = cc
drop-front (suc k) (x ∷ xs) e =
    let (p, q, r, t) = drop-front k xs e in
    let one : suc k + 1 ≡ suc (k + 1) = omega arith in
    let two : suc k + 2 ≡ suc (k + 2) = omega arith in (p, rw one q, omega arith, rw two t)

values_loop-words_of :
    (n i : ℕ) (pdu acc bytes : List ℕ)
    → drop (5 + i) pdu ≡ bytes
    → length bytes ≡ n * 2
    → values_loop n i pdu acc ≡ ok (acc ++ words_of bytes)
unfolding values_loop load_u16
values_loop-words_of zero i pdu acc [] e len = rw (append_nil acc) refl
values_loop-words_of zero i pdu acc (a ∷ bytes) e len = absurd (omega arith)
values_loop-words_of (suc n) i pdu acc [] e len = absurd (omega arith)
values_loop-words_of (suc n) i pdu acc (a ∷ []) e len = absurd (omega arith)
values_loop-words_of (suc n) i pdu acc (a ∷ b ∷ bytes) e len =
    let (p, q, r, t) = drop-front (5 + i) pdu e in
    let rest =
      values_loop-words_of n (i + 2) pdu (acc ++ ((a * 256 + b) ∷ [])) bytes
        (let shift : 5 + (i + 2) ≡ 5 + i + 2 = omega arith in rw shift t) (omega arith) in
    rw (p, q, le→leb (5 + i + 2) (length pdu) r, rest, append_snoc acc (words_of bytes)) refl

-- The decoder of the registers: its values, as bytes, are those of the payload.
abbrev pub RegsBlock : Outcome DecodeError WriteMultiplePdu → List ℕ → Type 0
RegsBlock decoded payload =
    ((x : ℕ) × (y : ℕ) × (values : List ℕ) × (decoded
        ≡ ok (record { address = x; quantity = y; values = values }))
      × (block parse_put_regs payload ≡ (
          if y == 0 || not (y == length values)
          then invalid 3
          else valid (put_regs x y (word_at (value_bytes values)) y)))
      × (length (value_bytes values) ≡ length values * 2))
    ⊎ ((e : DecodeError) × (decoded ≡ err e) × (block parse_put_regs payload ≡ invalid 3))

pub decode_write_multiple-RegsBlock :
    (payload : List ℕ) → All IsByte payload → RegsBlock (decode_write_multiple payload) payload
unfolding decode_write_multiple load_u16
decode_write_multiple-RegsBlock [] h = inr (invalid_length, refl, refl)
decode_write_multiple-RegsBlock (a ∷ []) h = inr (invalid_length, refl, refl)
decode_write_multiple-RegsBlock (a ∷ b ∷ []) h = inr (invalid_length, refl, refl)
decode_write_multiple-RegsBlock (a ∷ b ∷ c ∷ []) h = inr (invalid_length, refl, refl)
decode_write_multiple-RegsBlock (a ∷ b ∷ c ∷ d ∷ []) h = inr (invalid_length, refl, refl)
decode_write_multiple-RegsBlock (a ∷ b ∷ c ∷ d ∷ n ∷ bytes) h =
    let quantity = c * 256 + d in
    elim (Bool-cases (length bytes == n)) [
      | inr off ↦ inr (byte_count_mismatch, ground arith, ground arith)
      | inl same ↦ elim (Bool-cases (length bytes % 2 == 0)) [
        | inr off ↦ inr (invalid_byte_count, ground arith, ground arith)
        | inl even ↦
            let half = (n + 1) / 2 in
            let whole : n ≡ length bytes = ground arith in
            let len : length bytes ≡ half * 2 = ground arith in
            let run = values_loop-words_of half 0 (a ∷ b ∷ c ∷ d ∷ n ∷ bytes) [] bytes refl len in
            let back = value_bytes-words_of half bytes len h.1.1.1.1.1 in
            let count = length-words_of half bytes len in
            inl (
              a * 256 + b,
              quantity,
              words_of bytes,
              rw (run, whole) (ground arith),
              rw (back, count) (ground arith),
              rw (back, count) len,
            )
      ]
    ]
