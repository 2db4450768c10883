-- ===== src/Modbus/Wire/RoundTrip.antt =====
-- BuildResponse (internal/transport/modbus/response.go) against ReadRequest
-- (internal/transport/modbus/parser.go).
use mma.Base.{
  ℕ, suc, ◌+◌, ◌-◌, ◌*◌, ◌/◌, ◌%◌, ◌<◌, ◌≡◌, refl, ◌∙◌, arith, List, [], ◌∷◌, ◌++◌, length, take,
  drop, ok, length-append,
}
use mma.Words.{IsU16, u16}
use mma.Modbus.Wire.{Request, read_request, build_response}
use mma.Modbus.Wire.Framing.{word_from, read_request-body, read_body-ok}

take-append : (xs ys : List ℕ) → take (length xs) (xs ++ ys) ≡ xs
take-append [] ys = refl
take-append (x ∷ xs) ys = rw (take-append xs ys)

drop-append : (xs ys : List ℕ) → drop (length xs) (xs ++ ys) ≡ ys
drop-append [] ys = refl
drop-append (x ∷ xs) ys = drop-append xs ys

be_word : (v : ℕ) → IsU16 v → v / 256 % 256 * 256 + v % 256 ≡ v
be_word v h = omega arith

frame_length :
    (n : ℕ) → n < 65534 → u16 (suc n + 1) / 256 % 256 * 256 + u16 (suc n + 1) % 256 ≡ n + 2
frame_length n h = omega arith

-- The frame for a PDU of at most 65534 bytes reads back as that PDU under the same transaction,
-- protocol and unit, and what follows the frame is left.
pub read_request-build_response :
    (req : Request) (fc : ℕ) (body rest : List ℕ) (port : ℕ)
    → IsU16 req.transaction_id
    → IsU16 req.protocol_id
    → length body < 65534
    → read_request (build_response req (fc ∷ body) ++ rest) port
      ≡ ok (
        record {
          port = port;
          transaction_id = req.transaction_id;
          protocol_id = req.protocol_id;
          mbap_length = length body + 2;
          unit_id = req.unit_id;
          function_code = fc;
          payload = body;
        },
        rest,
      )
unfolding build_response word_from
read_request-build_response req fc body rest port ht hp hd =
    let more : length (body ++ rest) ≡ length body + length rest = length-append body rest in
    let pdu_len : length body + 2 - 1 ≡ suc (length body) = omega arith in
    read_request-body (build_response req (fc ∷ body) ++ rest) port (omega (arith, more))
    ∙ rw (
      be_word req.transaction_id ht,
      be_word req.protocol_id hp,
      frame_length (length body) hd,
      read_body-ok port req.transaction_id req.protocol_id (length body + 2) req.unit_id
          (fc ∷ body ++ rest) (omega arith) (omega (arith, more)),
      pdu_len,
      take-append body rest,
      drop-append body rest,
    )
