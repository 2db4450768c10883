-- ===== src/Modbus/Wire.antt =====
-- internal/transport/modbus: request.go, parser.go, mbap.go, pdu.go and response.go.
pub mod Framing
pub mod RoundTrip
use mma.Base.{
  ℕ, ◌+◌, ◌-◌, ◌/◌, ◌%◌, ◌^◌, ◌==◌, leb, if◌then◌else◌, List, [], ◌∷◌, ◌++◌, length, drop, get_or,
  Outcome, ok, err, panic, ◌>>=◌, ◌>>◌, fail_if,
}
use mma.Words.{u16, load_u16}
use mma.Golang.Reader.{IoError, read_full}

pub data FrameError : Type 0 where
  io : IoError → FrameError
  invalid_mbap_length invalid_pdu_length : FrameError

pub record Request : Type 0 where
  pub port : ℕ
  pub transaction_id : ℕ
  pub protocol_id : ℕ
  pub mbap_length : ℕ
  pub unit_id : ℕ
  pub function_code : ℕ
  pub payload : List ℕ

-- `io.ReadFull`, its error passed on.
abbrev read_exact : ℕ → List ℕ → Outcome FrameError (List ℕ × List ℕ)
read_exact n r = elim (read_full n r) [ ok p ↦ ok p | err e ↦ err (io e) | panic ↦ panic ]

-- A byte of a slice; an index past the end panics.
abbrev byte_at {κ} : {E : Type κ} → List ℕ → ℕ → Outcome E ℕ
byte_at b k = if leb (k + 1) (length b) then ok (get_or b k 0) else panic

-- The second half of ReadRequest: the checks of the length, and the PDU.
unfoldable pub read_body : ℕ → ℕ → ℕ → ℕ → ℕ → List ℕ → Outcome FrameError (Request × List ℕ)
read_body port tx_id proto_id len unit_id r = do
  fail_if (len == 0) invalid_mbap_length
  let pdu_len = len - 1
  fail_if (pdu_len == 0) invalid_pdu_length
  (pdu, rest) ← read_exact pdu_len r
  function_code ← byte_at pdu 0
  ok (
    record {
      port = port;
      transaction_id = tx_id;
      protocol_id = proto_id;
      mbap_length = len;
      unit_id = unit_id;
      function_code = function_code;
      payload = drop 1 pdu;
    },
    rest,
  )

-- ReadRequest: the request, and what the reader has left.
unfoldable pub read_request : List ℕ → ℕ → Outcome FrameError (Request × List ℕ)
read_request r port = do
  (mbap, rest) ← read_exact 7 r
  tx_id ← load_u16 mbap 0
  proto_id ← load_u16 mbap 2
  len ← load_u16 mbap 4
  unit_id ← byte_at mbap 6
  read_body port tx_id proto_id len unit_id rest

pub record Mbap : Type 0 where
  pub transaction_id : ℕ
  pub protocol_id : ℕ
  pub mbap_length : ℕ
  pub unit_id : ℕ

unfoldable pub read_mbap : List ℕ → Outcome FrameError (Mbap × List ℕ)
read_mbap r = do
  (hdr, rest) ← read_exact 7 r
  tx_id ← load_u16 hdr 0
  proto_id ← load_u16 hdr 2
  len ← load_u16 hdr 4
  unit_id ← byte_at hdr 6
  ok (
    record { transaction_id = tx_id; protocol_id = proto_id; mbap_length = len; unit_id = unit_id },
    rest,
  )

-- A `uint16` written big-endian.
abbrev pub be_bytes : ℕ → List ℕ
be_bytes v = v / 256 % 256 ∷ v % 256 ∷ []

-- The bytes that writeMBAP hands to the writer.
unfoldable pub write_mbap : Mbap → List ℕ
write_mbap mbap =
    be_bytes mbap.transaction_id
    ++ be_bytes mbap.protocol_id
    ++ be_bytes mbap.mbap_length
    ++ (mbap.unit_id ∷ [])

pub record Pdu : Type 0 where
  pub function : ℕ
  pub payload : List ℕ

-- `length-1` is a `uint16` difference: it wraps for the length 0, and for 1 the buffer is empty and
-- `buf[0]` panics.
unfoldable pub read_pdu : List ℕ → ℕ → Outcome FrameError (Pdu × List ℕ)
read_pdu r len = do
  (buf, rest) ← read_exact ((len + 65536 - 1) % 65536) r
  function ← byte_at buf 0
  ok (record { function = function; payload = drop 1 buf }, rest)

-- BuildResponse
unfoldable pub build_response : Request → List ℕ → List ℕ
build_response req pdu =
    let len = u16 (length pdu + 1) in
    be_bytes req.transaction_id ++ be_bytes req.protocol_id ++ be_bytes len ++ (req.unit_id ∷ pdu)
