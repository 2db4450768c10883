-- ===== src/Modbus/Conn.antt =====
-- internal/transport/modbus/handle_conn.go. One round of the loop of HandleConn is `serve_one`; the
-- loop takes fuel, and each round takes a byte of the input at least.
pub mod Guards
pub mod Sealed
pub mod Runs
use mma.Base.{
  ℕ, zero, suc, ◌+◌, bit_and, ◌==◌, Bool, true, false, not, if◌then◌else◌, Option, none, some, List,
  [], ◌∷◌, ◌++◌, length, get_or, Outcome, ok, err, panic,
}
use mma.Golang.Netip.{Addr}
use mma.Memorycore.Memory.{Memory, StateSealingDef, read_bits}
use mma.Memorycore.Store.{MemoryId, Store, Pointer, deref, get}
use mma.Authority.Decision.{Decision}
use mma.Authority.Evaluate.{Authority, AuthRequest, evaluate}
use mma.Modbus.Wire.{Request, read_request, build_response}
use mma.Modbus.Encode.{build_exception_pdu}
use mma.Modbus.Dispatch.{request_id, dispatch_memory}

-- What a connection does next: another round, or the end. `stuck` is no state of the program: the
-- loop's fuel ran out. `crashed` is a panic.
pub data Turn {ℓ} (A : Type ℓ) : Type ℓ where
  next : A → Turn A
  done : A → Turn A
  crashed : Turn A
  stuck : Turn A

-- The bytes still to be read, and the frames handed to `conn.Write` so far.
pub record Session : Type 0 where
  pub store : Store
  pub input : List ℕ
  pub sent : List (List ℕ)

-- Who is on the other side, and whether the `n`-th write to the connection succeeds.
pub record Peer : Type 0 where
  pub port : ℕ
  pub src_ip : Addr
  pub writable : ℕ → Bool

-- The sealing flag of a memory: `true` if a request must be refused.
unfoldable pub sealed_by : Option Memory → Option StateSealingDef → Bool
sealed_by m none = false
sealed_by m (some seal) = elim (read_bits m seal.area seal.address 1 (0 ∷ [])) [
  | ok buf ↦ bit_and (get_or buf 0 0) 0x01 == 0
  | err e ↦ true
  | panic ↦ true
]

abbrev pub sealing_of : Option Memory → Option StateSealingDef
sealing_of none = none
sealing_of (some m) = m.state_sealing

-- The first test of the loop's body.
unfoldable pub is_blocked : Store → MemoryId → Bool
unfolding sealed_by
is_blocked s mid = elim (get (some s) mid) [
  | none ↦ false
  | some p ↦ sealed_by (deref s p) (sealing_of (deref s p))
]

-- The PDU that answers a request, and whether a failed write ends the connection.
pub record Answer : Type 0 where
  pub pdu : List ℕ
  pub store : Store
  pub must_send : Bool

unfoldable pub answer : Authority → Addr → Store → Request → Option Answer
answer auth src s req =
    let mid = request_id req in
    let decision =
      evaluate auth
        (record { memory_id = mid; source_ip = src; function_code = req.function_code }) in
    if is_blocked s mid
    then some
        (record { pdu = build_exception_pdu req.function_code 0x06; store = s; must_send = false })
    else if not decision.allowed
    then some (record {
      pdu = build_exception_pdu req.function_code decision.exception_code;
      store = s;
      must_send = false;
    })
    else elim (dispatch_memory s req) [
      | ok (pdu, s') ↦ some (record { pdu = pdu; store = s'; must_send = true })
      | err e ↦ none
      | panic ↦ none
    ]

-- One round of the loop.
unfoldable pub serve_one : Authority → Peer → Session → Turn Session
serve_one auth peer c = elim (read_request c.input peer.port) [
  | err e ↦ done c
  | panic ↦ crashed
  | ok (req, rest) ↦ elim (answer auth peer.src_ip c.store req) [
    | none ↦ crashed
    | some a ↦
        let sent = c.sent ++ (build_response req a.pdu ∷ []) in
        let c' : Session = record { store = a.store; input = rest; sent = sent } in
        if a.must_send then if peer.writable (length c.sent) then next c' else done c' else next c'
  ]
]

unfoldable pub serve_loop : ℕ → Authority → Peer → Session → Turn Session
serve_loop zero auth peer c = stuck
serve_loop (suc fuel) auth peer c = elim (serve_one auth peer c) [
  | next c' ↦ serve_loop fuel auth peer c'
  | done c' ↦ done c'
  | crashed ↦ crashed
  | stuck ↦ stuck
]

-- HandleConn, once the addresses of the connection are known.
unfoldable pub handle_conn : Authority → Peer → Store → List ℕ → Turn Session
handle_conn auth peer s input =
    serve_loop (suc (length input)) auth peer (record { store = s; input = input; sent = [] })
