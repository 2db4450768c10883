-- ===== src/Modbus/Encode.antt =====
-- internal/transport/modbus/pdu_encode.go
use mma.Base.{ℕ, ◌%◌, bit_or, List, [], ◌∷◌, ◌++◌, length}
use mma.Modbus.Wire.{be_bytes}

-- The byte count is converted to `uint8`.
unfoldable pub build_read_response_pdu : ℕ → List ℕ → List ℕ
build_read_response_pdu fc bytes = fc ∷ length bytes % 256 ∷ bytes

unfoldable pub build_write_single_response_pdu : ℕ → ℕ → ℕ → List ℕ
build_write_single_response_pdu fc addr value = fc ∷ (be_bytes addr ++ be_bytes value)

unfoldable pub build_write_multiple_response_pdu : ℕ → ℕ → ℕ → List ℕ
build_write_multiple_response_pdu fc addr qty = fc ∷ (be_bytes addr ++ be_bytes qty)

unfoldable pub build_exception_pdu : ℕ → ℕ → List ℕ
build_exception_pdu fc code = bit_or fc 0x80 ∷ code ∷ []
