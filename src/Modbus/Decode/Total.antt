-- ===== src/Modbus/Decode/Total.antt =====
-- The decoders of internal/transport/modbus/pdu_decode.go on payloads of any length.
use mma.Base.{
  ℕ, zero, suc, ◌+◌, ◌*◌, ◌/◌, ◌≤◌, ◌≢◌, arith, le→leb, List, [], length, get_or, length-drop,
  panic,
}
use mma.Words.{load_u16}
use mma.Modbus.Decode.{
  decode_read_request, decode_write_single, values_loop, decode_write_multiple,
  decode_write_multiple_bits,
}

pub decode_read_request-ne-panic : (pdu : List ℕ) → decode_read_request pdu ≢ panic
unfolding decode_read_request load_u16
decode_read_request-ne-panic pdu = ground arith

pub decode_write_single-ne-panic : (pdu : List ℕ) → decode_write_single pdu ≢ panic
unfolding decode_write_single load_u16
decode_write_single-ne-panic pdu = ground arith

pub decode_write_multiple_bits-ne-panic : (pdu : List ℕ) → decode_write_multiple_bits pdu ≢ panic
unfolding decode_write_multiple_bits load_u16
decode_write_multiple_bits-ne-panic pdu = ground arith

values_loop-ne-panic :
    (n i : ℕ) (pdu acc : List ℕ) → 5 + i + n * 2 ≤ length pdu → values_loop n i pdu acc ≢ panic
unfolding values_loop load_u16
values_loop-ne-panic zero i pdu acc h = λ e. cc
values_loop-ne-panic (suc n) i pdu acc h =
    rw (le→leb (5 + i + 2) (length pdu) (omega arith))
      (values_loop-ne-panic n (i + 2) pdu _ (omega arith))

pub decode_write_multiple-ne-panic : (pdu : List ℕ) → decode_write_multiple pdu ≢ panic
unfolding decode_write_multiple load_u16
decode_write_multiple-ne-panic pdu =
    ground (arith, length-drop 5 pdu, values_loop-ne-panic ((get_or pdu 4 0 + 1) / 2) 0 pdu [])
