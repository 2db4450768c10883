-- ===== src/Main/Threads/Spec.antt =====
-- The server (cmd/mma2/main.go, internal/ingress/listener.go) as its clients see it: the units that the
-- connections share, and the connections, whose commands and packets are carried out one at a time.
use mma.Base.{
  ℕ, suc, ◌≡◌, ◌≢◌, true, false, if◌then◌else◌, some, List, [], ◌∷◌, ◌++◌, length, get_elem?, set,
  ok, err,
}
use mma.Authority.Evaluate.{Authority}
use mma.Modbus.Wire.{Request, FrameError, read_request, build_response}
use mma.Modbus.Encode.{build_exception_pdu}
use mma.Modbus.Dispatch.{request_id}
use mma.Modbus.Conn.{Peer}
use mma.Modbus.Conn.Guards.{decide}
use mma.Memorycore.Units.{Units}
use mma.Modbus.Spec.{parse, Obeys}
use mma.Modbus.Spec.Conversation.{is_sealed}
use mma.RawIngest.Decoder.{Packet, PacketError, io, resp_rejected, decode_one}
use mma.RawIngest.Spec.{IsIngested}
use mma.Golang.Reader.{eof}
use mma.Main.Threads.{Thread, reading, granted, ingesting, finished, drained}

-- What one step of a connection does to it and to the units.
pub data Moves (auth : Authority) (u : Units) : Thread → Thread → Units → Type 0 where
  -- No further request can be read.
  left :
      (peer : Peer) (input : List ℕ) (sent : List (List ℕ)) (e : FrameError)
      → read_request input peer.port ≡ err e
      → Moves auth u (reading peer input sent) (finished sent) u
  -- The unit is sealed: Device Busy.
  sealed :
      (peer : Peer) (input : List ℕ) (sent : List (List ℕ)) (req : Request) (rest : List ℕ)
      → read_request input peer.port ≡ ok (req, rest)
      → is_sealed (u (request_id req)) ≡ true
      → Moves auth u
          (reading peer input sent)
          (reading peer rest
            (sent ++ build_response req (build_exception_pdu req.function_code 6) ∷ []))
          u
  -- The authority denies the request.
  denied :
      (peer : Peer) (input : List ℕ) (sent : List (List ℕ)) (req : Request) (rest : List ℕ)
      → read_request input peer.port ≡ ok (req, rest)
      → is_sealed (u (request_id req)) ≡ false
      → (decide auth peer.src_ip req).allowed ≡ false
      → Moves auth u
          (reading peer input sent)
          (reading peer rest (
            sent
            ++ build_response req
                (build_exception_pdu req.function_code (decide auth peer.src_ip req).exception_code)
              ∷ []))
          u
  admitted :
      (peer : Peer) (input : List ℕ) (sent : List (List ℕ)) (req : Request) (rest : List ℕ)
      → read_request input peer.port ≡ ok (req, rest)
      → is_sealed (u (request_id req)) ≡ false
      → (decide auth peer.src_ip req).allowed ≡ true
      → Moves auth u (reading peer input sent) (granted peer req rest sent) u
  -- The command is carried out, and answered.
  carried_out :
      (peer : Peer) (req : Request) (rest : List ℕ) (sent : List (List ℕ)) (pdu : List ℕ)
      (u' : Units)
      → Obeys u (request_id req) req.function_code (parse req.function_code req.payload) pdu u'
      → Moves auth u
          (granted peer req rest sent)
          (if peer.writable (length sent)
            then reading peer rest (sent ++ build_response req pdu ∷ [])
            else finished (sent ++ build_response req pdu ∷ []))
          u'
  -- A packet is written as a whole or rejected, and answered.
  ingested :
      (port : ℕ) (input sent : List ℕ) (pkt : Packet) (rest : List ℕ) (resp : ℕ) (u' : Units)
      → decode_one input port ≡ ok (pkt, rest)
      → IsIngested u pkt resp u'
      → Moves auth u (ingesting port input sent) (ingesting port rest (sent ++ resp ∷ [])) u'
  -- The stream of packets is at its end.
  emptied :
      (port : ℕ) (input sent : List ℕ)
      → decode_one input port ≡ err (io eof)
      → Moves auth u (ingesting port input sent) (drained sent) u
  -- The next bytes are no packet, and are rejected.
  dropped :
      (port : ℕ) (input sent : List ℕ) (e : PacketError)
      → decode_one input port ≡ err e
      → e ≢ io eof
      → Moves auth u (ingesting port input sent) (drained (sent ++ resp_rejected ∷ [])) u

-- The runs of `n` steps from units and connections to units and connections.
pub data Serves (auth : Authority) (u : Units) (ts : List Thread)
    : ℕ → Units → List Thread → Type 0 where
  none_yet : Serves auth u ts 0 u ts
  one_more :
      (n : ℕ) (v : Units) (us : List Thread) (place : ℕ) (t t' : Thread) (v' : Units)
      → Serves auth u ts n v us
      → get_elem? us place ≡ some t
      → Moves auth v t t' v'
      → Serves auth u ts (suc n) v' (set us place t')
