-- ===== src/Main.antt =====
-- cmd/mma2/main.go: what the server does with one connection. Ingress classifies it, and the closures
-- of main hand it to one of the two transports, with the store and the authority.
pub mod Connections
pub mod Startup
pub mod Threads
pub mod Process
use mma.Base.{ℕ, Option, none, some, List}
use mma.Memorycore.Store.{Store}
use mma.Authority.Evaluate.{Authority}
use mma.Modbus.Conn.{Session, Turn, done, Peer}
use mma.Modbus.Conn
use mma.RawIngest.Conn.{Feed, Progress}
use mma.RawIngest.Conn as Raw
use mma.Ingress.{route}

-- How the transport that took the connection ended.
pub data Served : Type 0 where
  by_modbus : Turn Session → Served
  by_raw_ingest : Progress → Served

-- `none`: the connection is closed by ingress.
unfoldable pub serve : Authority → Peer → Store → List ℕ → Option Served
serve auth peer s input =
    route (λ bc. by_modbus (Conn.handle_conn auth peer s bc))
      (λ bc. by_raw_ingest (Raw.handle_conn peer.port s bc)) input

-- The store when the connection is over; `none` for a panic, or a loop without an end.
abbrev pub store_after : Store → Option Served → Option Store
store_after s none = some s
store_after s (some (by_modbus (done c))) = some c.store
store_after s (some (by_raw_ingest (Raw.done c))) = some c.store
store_after s _ = none
