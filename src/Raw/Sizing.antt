-- ===== src/Raw/Sizing.antt =====
-- The two rules for the size of a payload: sizing.go of internal/transport/raw, and PayloadLen of
-- internal/transport/rawingest/packet.go.
use mma.Base.{ℕ, ◌≡◌, ◌≢◌, arith, Option, none, some, Outcome, ok}
use mma.Memorycore.Area.{is_bit_area, is_reg_area}
use mma.RawIngest.Decoder.{payload_len}
use mma.Raw.Frame.{payload_size}

-- A size, or nothing for an error.
abbrev pub to_option {κ} : {E : Type κ} → Outcome E ℕ → Option ℕ
to_option (ok n) = some n
to_option _ = none

-- The two transports agree on the size of the payload for every area and every count but 0.
pub payload_size-payload_len :
    (area count : ℕ)
    → count ≢ 0
    → to_option (payload_size area count) ≡ to_option (payload_len area count)
unfolding payload_size payload_len is_bit_area is_reg_area
payload_size-payload_len area count h = ground arith
