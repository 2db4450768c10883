-- ===== src/Main/Threads.antt =====
-- The goroutines that the server runs (internal/ingress/listener.go), one for each connection, on one
-- store. The locks of the store and of the memories make the check for sealing, the dispatch of a
-- request and the write of a packet a step each; a Modbus connection can lose the processor between its
-- checks and its dispatch (internal/transport/modbus/handle_conn.go).
pub mod Accept
pub mod Invariants
pub mod Sealed
pub mod Measure
pub mod Spec
pub mod Simulates
use mma.Base.{
  ℕ, zero, suc, ◌≡◌, Bool, true, not, if◌then◌else◌, Option, none, some, List, [], ◌∷◌, ◌++◌,
  length, get_elem?, set, Outcome, ok, err, panic,
}
use mma.Memorycore.Store.{Store}
use mma.Authority.Evaluate.{Authority}
use mma.Modbus.Wire.{Request, read_request, build_response}
use mma.Modbus.Encode.{build_exception_pdu}
use mma.Modbus.Dispatch.{request_id, dispatch_memory}
use mma.Modbus.Conn.{Peer, is_blocked}
use mma.Modbus.Conn.Guards.{decide}
use mma.RawIngest.Conn.{next, done, crashed, stuck, ingest_one}

-- Where a connection stands, with the bytes still to be read and what was sent: before its next
-- request, between the checks of a request and its dispatch, before its next packet, or at its
-- end, after a Modbus conversation or a stream of packets.
-- `broken` is a panic.
pub data Thread : Type 0 where
  reading : Peer → List ℕ → List (List ℕ) → Thread
  granted : Peer → Request → List ℕ → List (List ℕ) → Thread
  ingesting : ℕ → List ℕ → List ℕ → Thread
  finished : List (List ℕ) → Thread
  drained : List ℕ → Thread
  broken : Thread

-- The two checks of a request.
unfoldable pub admit : Authority → Store → Peer → Request → List ℕ → List (List ℕ) → Thread
admit auth s peer req rest sent =
    let decision = decide auth peer.src_ip req in
    if is_blocked s (request_id req)
    then reading peer rest
        (sent ++ build_response req (build_exception_pdu req.function_code 0x06) ∷ [])
    else if not decision.allowed
    then reading peer rest (
        sent
        ++ build_response req (build_exception_pdu req.function_code decision.exception_code) ∷ [])
    else granted peer req rest sent

-- The next step of a connection, and the store after it; `none` at its end.
unfoldable pub advance : Authority → Store → Thread → Option (Thread × Store)
advance auth s (reading peer input sent) = elim (read_request input peer.port) [
  | err e ↦ some (finished sent, s)
  | panic ↦ some (broken, s)
  | ok (req, rest) ↦ some (admit auth s peer req rest sent, s)
]
advance auth s (granted peer req rest sent) = elim (dispatch_memory s req) [
  | err e ↦ some (broken, s)
  | panic ↦ some (broken, s)
  | ok (pdu, s') ↦ some (
    if peer.writable (length sent)
        then reading peer rest (sent ++ build_response req pdu ∷ [])
        else finished (sent ++ build_response req pdu ∷ []),
    s',
  )
]
advance auth s (ingesting port input sent) =
    elim (ingest_one port (record { store = s; input = input; sent = sent })) [
      | next c ↦ some (ingesting port c.input c.sent, c.store)
      | done c ↦ some (drained c.sent, c.store)
      | crashed ↦ some (broken, s)
      | stuck ↦ some (broken, s)
    ]
advance auth s (finished sent) = none
advance auth s (drained sent) = none
advance auth s broken = none

pub record System : Type 0 where
  pub store : Store
  pub threads : List Thread

-- One thread of the system takes a step.
pub record Step (auth : Authority) (x y : System) : Type 0 where
  pub place : ℕ
  pub before : Thread
  pub after : Thread
  pub chosen : get_elem? x.threads place ≡ some before
  pub moved : advance auth x.store before ≡ some (after, y.store)
  pub others : y.threads ≡ set x.threads place after

-- The states that some schedule of `n` steps leads to.
pub data Reaches (auth : Authority) (x : System) : ℕ → System → Type 0 where
  stay : Reaches auth x 0 x
  walk : {n : ℕ} → {y z : System} → Reaches auth x n y → Step auth y z → Reaches auth x (suc n) z
