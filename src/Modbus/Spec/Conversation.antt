-- ===== src/Modbus/Spec/Conversation.antt =====
-- What internal/transport/modbus/handle_conn.go promises to a client of one connection: every request
-- of the byte stream is answered by one frame, in order, with the sealing and the authority of its
-- unit looked at first.
use mma.Base.{
  ℕ, ◌+◌, ◌≡◌, Bool, true, false, not, ◌||◌, if◌then◌else◌, Option, none, some, List, [], ◌∷◌, ok,
  err,
}
use mma.Golang.Netip.{Addr}
use mma.Authority.Evaluate.{Authority}
use mma.Modbus.Wire.{Request, FrameError, read_request, build_response}
use mma.Modbus.Dispatch.{request_id}
use mma.Modbus.Conn.{Peer}
use mma.Modbus.Conn.Guards.{decide}
use mma.Memorycore.Units.{Cells, Units}
use mma.Modbus.Spec.{parse, IsRefused, Obeys}

-- A bit without a value is not set.
abbrev pub is_unset : Option Bool → Bool
is_unset none = true
is_unset (some on) = not on

-- A unit with a sealing bit is sealed while that bit is not set.
abbrev pub is_sealed : Option Cells → Bool
is_sealed none = false
is_sealed (some c) = elim c.seal [ none ↦ false | some def ↦ is_unset (c.bit def.area def.address) ]

-- The response PDU to one request, the units after it, and whether the request was executed.
abbrev pub IsServed : Authority → Addr → Units → Request → List ℕ → Units → Bool → Type 0
IsServed auth src u req pdu u' executed =
    if is_sealed (u (request_id req))
    then IsRefused u (request_id req) req.function_code pdu u' 6 × (executed ≡ false)
    else if (decide auth src req).allowed
    then Obeys u (request_id req) req.function_code (parse req.function_code req.payload) pdu u'
      × (executed ≡ true)
    else IsRefused u (request_id req) req.function_code pdu u' (decide auth src req).exception_code
      × (executed ≡ false)

-- `Converses auth peer n u input frames u'`: after `n` frames, on the units `u`, the rest of the byte
-- stream is answered by these frames. It ends where no request can be read, or where the response to
-- an executed request cannot be written.
pub data Converses (auth : Authority) (peer : Peer)
    : ℕ → Units → List ℕ → List (List ℕ) → Units → Type 0 where
  ended :
      (n : ℕ) (u : Units) (input : List ℕ) (e : FrameError)
      → read_request input peer.port ≡ err e
      → Converses auth peer n u input [] u
  answered :
      (n : ℕ) (u : Units) (input : List ℕ) (req : Request) (rest pdu : List ℕ) (u' : Units)
      (executed : Bool) (frames : List (List ℕ)) (u'' : Units)
      → read_request input peer.port ≡ ok (req, rest)
      → IsServed auth peer.src_ip u req pdu u' executed
      → (not executed || peer.writable n) ≡ true
      → Converses auth peer (n + 1) u' rest frames u''
      → Converses auth peer n u input (build_response req pdu ∷ frames) u''
  cut :
      (n : ℕ) (u : Units) (input : List ℕ) (req : Request) (rest pdu : List ℕ) (u' : Units)
      → read_request input peer.port ≡ ok (req, rest)
      → IsServed auth peer.src_ip u req pdu u' true
      → peer.writable n ≡ false
      → Converses auth peer n u input (build_response req pdu ∷ []) u'
