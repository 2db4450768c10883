-- ===== src/Modbus/Dispatch.antt =====
-- internal/transport/modbus/dispatch_memorycore.go. A handler returns the response PDU and the store;
-- the only failure that is left is a panic.
pub mod Effects
pub mod ReadAfterWrite
use mma.Base.{
  ℕ, zero, suc, ◌+◌, ◌*◌, ◌/◌, ◌%◌, ◌==◌, not, ◌||◌, if◌then◌else◌, Option, none, some, List, [],
  ◌∷◌, ◌++◌, length, replicate, Outcome, ok, err, panic,
}
use mma.Words.{u16}
use mma.Memorycore.Errors.{MemoryError}
use mma.Memorycore.Area.{Area, area_coils, area_discrete_inputs, area_holding_regs, area_input_regs}
use mma.Memorycore.Memory.{read_bits, write_bits, read_regs, write_regs}
use mma.Memorycore.Store.{MemoryId, Store, Pointer, deref, update, must_get}
use mma.Modbus.Wire.{Request, be_bytes}
use mma.Modbus.Decode.{
  decode_read_request, decode_write_single, decode_write_multiple, decode_write_multiple_bits,
}
use mma.Modbus.Encode.{
  build_read_response_pdu, build_write_single_response_pdu, build_write_multiple_response_pdu,
  build_exception_pdu,
}

-- The response and the store after it.
abbrev pub Reply : Type 0
Reply = Outcome MemoryError (List ℕ × Store)

-- `v, err := m; if err != nil { return fallback }`
abbrev pub attempt {ℓ κ} : {E : Type κ} {A : Type ℓ} → Outcome E A → Reply → (A → Reply) → Reply
attempt (ok a) fallback f = f a
attempt (err e) fallback f = fallback
attempt panic fallback f = panic

-- `v, ok := o; if !ok { return fallback }`
abbrev pub found {ℓ} : {A : Type ℓ} → Option A → Reply → (A → Reply) → Reply
found none fallback f = fallback
found (some a) fallback f = f a

-- `return BuildExceptionPDU(req.FunctionCode, code)`
abbrev pub refuse : Store → Request → ℕ → Reply
refuse s req code = ok (build_exception_pdu req.function_code code, s)

-- The memory that a Modbus request names.
abbrev pub request_id : Request → MemoryId
request_id req = record { port = req.port; unit_id = req.unit_id }

unfoldable pub resolve_memory : Store → Request → Option Pointer
resolve_memory s req = elim (must_get (some s) (request_id req)) [
  | ok p ↦ some p
  | err e ↦ none
  | panic ↦ none
]

-- The package's own copy of bytesForBits.
unfoldable pub bytes_for_bits : ℕ → ℕ
bytes_for_bits n = if n == 0 then 0 else u16 (n + 7) / 8

unfoldable pub handle_read_bits : Store → Request → Area → Reply
handle_read_bits s req area =
    attempt (decode_read_request req.payload) (refuse s req 0x03) λ decoded.
      if decoded.quantity == 0
      then refuse s req 0x03
      else found (resolve_memory s req) (refuse s req 0x02) λ p.
        attempt
          (read_bits (deref s p) area decoded.address decoded.quantity
            (replicate (bytes_for_bits decoded.quantity) 0))
          (refuse s req 0x02) λ buf. ok (build_read_response_pdu req.function_code buf, s)

-- The byte that stands for the value of a single coil.
unfoldable pub coil_byte : ℕ → Option ℕ
coil_byte value = if value == 0xff00 then some 0x01 else if value == 0x0000 then some 0x00 else none

unfoldable pub handle_write_single_coil : Store → Request → Reply
handle_write_single_coil s req =
    attempt (decode_write_single req.payload) (refuse s req 0x03) λ decoded.
      found (coil_byte decoded.value) (refuse s req 0x03) λ src.
        found (resolve_memory s req) (refuse s req 0x02) λ p.
          attempt (write_bits (deref s p) area_coils decoded.address 1 (src ∷ []))
            (refuse s req 0x02)
            λ m. ok (
              build_write_single_response_pdu req.function_code decoded.address decoded.value,
              update s p m,
            )

unfoldable pub handle_write_multiple_coils : Store → Request → Reply
handle_write_multiple_coils s req =
    attempt (decode_write_multiple_bits req.payload) (refuse s req 0x03) λ decoded.
      if decoded.quantity == 0
      then refuse s req 0x03
      else found (resolve_memory s req) (refuse s req 0x02) λ p.
        attempt (write_bits (deref s p) area_coils decoded.address decoded.quantity decoded.payload)
          (refuse s req 0x02)
          λ m. ok (
            build_write_multiple_response_pdu req.function_code decoded.address decoded.quantity,
            update s p m,
          )

unfoldable pub handle_read_regs : Store → Request → Area → Reply
handle_read_regs s req area =
    attempt (decode_read_request req.payload) (refuse s req 0x03) λ decoded.
      found (resolve_memory s req) (refuse s req 0x02) λ p.
        attempt
          (read_regs (deref s p) area decoded.address decoded.quantity
            (replicate (decoded.quantity * 2) 0))
          (refuse s req 0x02) λ buf. ok (build_read_response_pdu req.function_code buf, s)

unfoldable pub handle_write_single_reg : Store → Request → Reply
handle_write_single_reg s req =
    attempt (decode_write_single req.payload) (refuse s req 0x03) λ decoded.
      found (resolve_memory s req) (refuse s req 0x02) λ p.
        attempt
          (write_regs (deref s p) area_holding_regs decoded.address 1 (be_bytes decoded.value))
          (refuse s req 0x02)
          λ m. ok (
            build_write_single_response_pdu req.function_code decoded.address decoded.value,
            update s p m,
          )

-- The values put into a byte slice, big-endian.
unfoldable pub value_bytes : List ℕ → List ℕ
value_bytes [] = []
value_bytes (v ∷ values) = be_bytes v ++ value_bytes values

unfoldable pub handle_write_multiple_regs : Store → Request → Reply
handle_write_multiple_regs s req =
    attempt (decode_write_multiple req.payload) (refuse s req 0x03) λ decoded.
      if decoded.quantity == 0 || not (decoded.quantity == length decoded.values)
      then refuse s req 0x03
      else found (resolve_memory s req) (refuse s req 0x02) λ p.
        attempt
          (write_regs (deref s p) area_holding_regs decoded.address decoded.quantity
            (value_bytes decoded.values))
          (refuse s req 0x02)
          λ m. ok (
            build_write_multiple_response_pdu req.function_code decoded.address decoded.quantity,
            update s p m,
          )

unfoldable pub dispatch_memory : Store → Request → Reply
dispatch_memory s req =
    let fc = req.function_code in
    if fc == 1
    then handle_read_bits s req area_coils
    else if fc == 2
    then handle_read_bits s req area_discrete_inputs
    else if fc == 3
    then handle_read_regs s req area_holding_regs
    else if fc == 4
    then handle_read_regs s req area_input_regs
    else if fc == 5
    then handle_write_single_coil s req
    else if fc == 6
    then handle_write_single_reg s req
    else if fc == 15
    then handle_write_multiple_coils s req
    else if fc == 16
    then handle_write_multiple_regs s req
    else refuse s req 0x01
