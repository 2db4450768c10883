-- ===== src/Modbus/Decode.antt =====
-- internal/transport/modbus: pdu_types.go and pdu_decode.go.
pub mod Total
use mma.Base.{
  ℕ, zero, suc, ◌+◌, ◌/◌, ◌%◌, not, ◌==◌, ltb, if◌then◌else◌, List, [], ◌∷◌, ◌++◌, length, take,
  drop, get_or, Outcome, ok, ◌>>=◌, ◌>>◌, fail_if,
}
use mma.Words.{u16, load_u16}

pub data DecodeError : Type 0 where
  invalid_length byte_count_mismatch invalid_byte_count : DecodeError

pub record ReadRequestPdu : Type 0 where
  pub address : ℕ
  pub quantity : ℕ

pub record WriteSinglePdu : Type 0 where
  pub address : ℕ
  pub value : ℕ

pub record WriteMultiplePdu : Type 0 where
  pub address : ℕ
  pub quantity : ℕ
  pub values : List ℕ

pub record WriteMultipleBitsPdu : Type 0 where
  pub address : ℕ
  pub quantity : ℕ
  pub payload : List ℕ

unfoldable pub decode_read_request : List ℕ → Outcome DecodeError ReadRequestPdu
decode_read_request pdu = do
  fail_if (not (length pdu == 4)) invalid_length
  address ← load_u16 pdu 0
  quantity ← load_u16 pdu 2
  ok (record { address = address; quantity = quantity })

unfoldable pub decode_write_single : List ℕ → Outcome DecodeError WriteSinglePdu
decode_write_single pdu = do
  fail_if (not (length pdu == 4)) invalid_length
  address ← load_u16 pdu 0
  value ← load_u16 pdu 2
  ok (record { address = address; value = value })

-- The loop over the register bytes: `i` goes up by two in each round.
unfoldable pub values_loop : ℕ → ℕ → List ℕ → List ℕ → Outcome DecodeError (List ℕ)
values_loop zero i pdu values = ok values
values_loop (suc rounds) i pdu values = do
  v ← load_u16 pdu (5 + i)
  values_loop rounds (i + 2) pdu (values ++ (v ∷ []))

unfoldable pub decode_write_multiple : List ℕ → Outcome DecodeError WriteMultiplePdu
decode_write_multiple pdu = do
  fail_if (ltb (length pdu) 5) invalid_length
  address ← load_u16 pdu 0
  quantity ← load_u16 pdu 2
  let byte_count = get_or pdu 4 0
  fail_if (not (length (drop 5 pdu) == byte_count)) byte_count_mismatch
  fail_if (not (byte_count % 2 == 0)) invalid_byte_count
  values ← values_loop ((byte_count + 1) / 2) 0 pdu []
  ok (record { address = address; quantity = quantity; values = values })

-- `qty + 7` is a `uint16` sum.
unfoldable pub decode_write_multiple_bits : List ℕ → Outcome DecodeError WriteMultipleBitsPdu
decode_write_multiple_bits pdu = do
  fail_if (ltb (length pdu) 5) invalid_length
  address ← load_u16 pdu 0
  quantity ← load_u16 pdu 2
  let byte_count = get_or pdu 4 0
  fail_if (not (length (drop 5 pdu) == byte_count)) byte_count_mismatch
  let expected = if quantity == 0 then 0 else u16 (quantity + 7) / 8
  fail_if (not (byte_count == expected)) invalid_byte_count
  ok (record { address = address; quantity = quantity; payload = take byte_count (drop 5 pdu) })
