-- ===== src/RawIngest/Conn.antt =====
-- internal/transport/rawingest/handle_conn.go: the answer to one packet, and the loop over packets.
-- The result of each write to the connection is ignored there.
pub mod Effects
pub mod Feeds
pub mod Shrinks
pub mod Unsealing
use mma.Base.{
  ℕ, zero, suc, if◌then◌else◌, some, List, [], ◌∷◌, ◌++◌, length, Outcome, ok, err, panic,
}
use mma.Golang.Reader.{eof}
use mma.Memorycore.Area.{is_bit_area, is_reg_area}
use mma.Memorycore.Errors.{MemoryError}
use mma.Memorycore.Memory.{Memory, write_bits, write_regs}
use mma.Memorycore.Store.{MemoryId, Store, Pointer, deref, update, must_get}
use mma.RawIngest.Decoder.{Packet, io, resp_ok, resp_rejected, decode_one}

abbrev pub packet_id : Packet → MemoryId
packet_id pkt = record { port = pkt.port; unit_id = pkt.unit_id }

-- The response byte and the store after it; the only failure that is left is a panic.
abbrev pub Written : Type 0
Written = Outcome MemoryError (ℕ × Store)

abbrev pub written : Store → Pointer → Outcome MemoryError Memory → Written
written s p (ok m) = ok (resp_ok, update s p m)
written s p (err e) = ok (resp_rejected, s)
written s p panic = panic

unfoldable pub apply_packet : Store → Packet → Written
apply_packet s pkt = elim (must_get (some s) (packet_id pkt)) [
  | err e ↦ ok (resp_rejected, s)
  | panic ↦ panic
  | ok p ↦
      if is_bit_area pkt.area
      then written s p (write_bits (deref s p) pkt.area pkt.address pkt.count pkt.payload)
      else if is_reg_area pkt.area
      then written s p (write_regs (deref s p) pkt.area pkt.address pkt.count pkt.payload)
      else ok (resp_rejected, s)
]

-- The store, the bytes still to be read, and the response bytes so far.
pub record Feed : Type 0 where
  pub store : Store
  pub input : List ℕ
  pub sent : List ℕ

-- How the loop stands after a round: `stuck` is no state of the program, the fuel ran out.
pub data Progress : Type 0 where
  next done : Feed → Progress
  crashed stuck : Progress

-- A decode error other than EOF is answered, and every decode error ends the connection.
unfoldable pub ingest_one : ℕ → Feed → Progress
ingest_one port c = elim (decode_one c.input port) [
  | err (io eof) ↦ done c
  | err e ↦ done (record c { sent = c.sent ++ (resp_rejected ∷ []) })
  | panic ↦ crashed
  | ok (pkt, rest) ↦ elim (apply_packet c.store pkt) [
    | ok (resp, s) ↦ next (record { store = s; input = rest; sent = c.sent ++ (resp ∷ []) })
    | err e ↦ crashed
    | panic ↦ crashed
  ]
]

unfoldable pub ingest_loop : ℕ → ℕ → Feed → Progress
ingest_loop zero port c = stuck
ingest_loop (suc fuel) port c = elim (ingest_one port c) [
  | next c' ↦ ingest_loop fuel port c'
  | done c' ↦ done c'
  | crashed ↦ crashed
  | stuck ↦ stuck
]

-- HandleConn, once the local port is known.
unfoldable pub handle_conn : ℕ → Store → List ℕ → Progress
handle_conn port s input =
    ingest_loop (suc (length input)) port (record { store = s; input = input; sent = [] })
