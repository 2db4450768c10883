-- ===== src/Main/Threads/Accept.antt =====
-- The accept loop of internal/ingress/listener.go: each connection that is accepted gets a goroutine,
-- which classifies it first. A goroutine that has not run yet is a connection that is still to come.
pub mod Whole
use mma.Base.{ℕ, Option, none, some, List, [], ◌∷◌}
use mma.Modbus.Conn.{Peer}
use mma.Ingress.{route}
use mma.Main.Startup.{Server}
use mma.Main.Threads.{Thread, reading, ingesting, finished, System}

-- handleConn, up to the first read of the transport.
unfoldable pub spawn : Peer → List ℕ → Thread
spawn peer input = elim (route (λ bc. reading peer bc []) (λ bc. ingesting peer.port bc []) input) [
  | none ↦ finished []
  | some t ↦ t
]

-- The connections that Accept returns, each with all bytes that its peer sends; `none` is an error.
unfoldable pub accept_all : List (Option (Peer × List ℕ)) → List Thread
accept_all [] = []
accept_all (none ∷ conns) = accept_all conns
accept_all (some (peer, input) ∷ conns) = spawn peer input ∷ accept_all conns

abbrev pub running : Server → List (Option (Peer × List ℕ)) → System
running server conns = record { store = server.store; threads = accept_all conns }
