-- ===== src/Main/Process.antt =====
-- The process after its start (cmd/mma2/main.go): a goroutine for each listener, which opens its socket
-- and accepts connections (ListenAndServe of internal/ingress/listener.go), and one for each
-- connection, in any order of their steps. A listener that cannot open its socket ends the process, and
-- so does a goroutine that panics.
pub mod Keeps
pub mod Guarded
pub mod Exits
pub mod Spec
pub mod Simulates
use Prim.Native.String.{String}
use mma.Base.{ℕ, zero, suc, ◌≡◌, ◌≢◌, Option, none, some, List, [], ◌∷◌, ◌++◌, map, get_elem?, set}
use mma.Memorycore.Store.{Store}
use mma.Authority.Evaluate.{Authority}
use mma.Modbus.Conn.{Peer}
use mma.Config.{IngressGate}
use mma.Main.Startup.{Server}
use mma.Main.Threads.{Thread, broken, advance}
use mma.Main.Threads.Accept.{spawn}

-- What the listeners call of package net. `listen`, with the addresses that the process listens on
-- already, is an error, or what Accept returns one after the other: an error, or a connection with all
-- bytes that its peer sends.
pub record NetLibrary : Type 0 where
  pub listen : List String → String → Option (List (Option (Peer × List ℕ)))

pub record Listener : Type 0 where
  pub cfg : IngressGate

unfoldable pub new_listener : IngressGate → Listener
new_listener cfg = record { cfg = cfg }

-- Where a listener stands: before it listens, or in its loop, with what Accept still returns.
pub data Gate : Type 0 where
  opening : Listener → Gate
  accepting : Listener → List (Option (Peer × List ℕ)) → Gate

-- What a step of a listener gives: an error from ListenAndServe, or the addresses that are listened on,
-- the listener, and the goroutines that it started; `waits` if Accept does not return.
pub data GateStep : Type 0 where
  failed : GateStep
  goes : List String → Gate → List Thread → GateStep
  waits : GateStep

unfoldable pub gate_step : NetLibrary → List String → Gate → GateStep
gate_step net sockets (opening l) = elim (net.listen sockets l.cfg.listen) [
  | none ↦ failed
  | some conns ↦ goes (l.cfg.listen ∷ sockets) (accepting l conns) []
]
gate_step net sockets (accepting l []) = waits
gate_step net sockets (accepting l (none ∷ conns)) = goes sockets (accepting l conns) []
gate_step net sockets (accepting l (some (peer, input) ∷ conns)) =
    goes sockets (accepting l conns) (spawn peer input ∷ [])

-- `sockets` are the addresses that are listened on.
pub record Process : Type 0 where
  pub store : Store
  pub sockets : List String
  pub gates : List Gate
  pub threads : List Thread

-- `exited` is the end of the process, by `log.Fatalf` or by a panic.
pub data Status : Type 0 where
  alive : Process → Status
  exited : Status

-- The process at the end of main: all goroutines of the listeners are started.
unfoldable pub launch : Server → Process
unfolding new_listener
launch server = record {
  store = server.store;
  sockets = [];
  gates = map (λ gate. opening (new_listener gate)) server.gates;
  threads = [];
}

-- A step of a listener or of a connection.
pub data Turns (net : NetLibrary) (auth : Authority) (p : Process) : Status → Type 0 where
  listener :
      (place : ℕ) (sockets : List String) (g g' : Gate) (started : List Thread)
      → get_elem? p.gates place ≡ some g
      → gate_step net p.sockets g ≡ goes sockets g' started
      → Turns net auth p (
          alive (record p {
            sockets = sockets;
            gates = set p.gates place g';
            threads = p.threads ++ started;
          }))
  fatal :
      (place : ℕ) (g : Gate)
      → get_elem? p.gates place ≡ some g
      → gate_step net p.sockets g ≡ failed
      → Turns net auth p exited
  connection :
      (place : ℕ) (t t' : Thread) (s : Store)
      → get_elem? p.threads place ≡ some t
      → advance auth p.store t ≡ some (t', s)
      → t' ≢ broken
      → Turns net auth p (alive (record p { store = s; threads = set p.threads place t' }))
  -- A panic of a goroutine ends the process.
  crash :
      (place : ℕ) (t : Thread) (s : Store)
      → get_elem? p.threads place ≡ some t
      → advance auth p.store t ≡ some (broken, s)
      → Turns net auth p exited

-- The states that `n` steps lead to.
pub data Becomes (net : NetLibrary) (auth : Authority) (p : Process) : ℕ → Status → Type 0 where
  stay : Becomes net auth p 0 (alive p)
  walk :
      {n : ℕ}
      → {q : Process} → {x : Status} → Becomes net auth p n (alive q)
      → Turns net auth q x
      → Becomes net auth p (suc n) x
