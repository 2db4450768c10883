-- ===== src/Main/Process/Keeps.antt =====
-- What every run of the process keeps (cmd/mma2/main.go, internal/ingress/listener.go).
use Prim.Native.String.{String}
use mma.Base.{
  ℕ, ◌≡◌, Option, none, some, List, [], ◌∷◌, map, All, All-append, All-get_elem?, All-set,
  Option-cases, inl, inr,
}
use mma.Memorycore.Store.{Store}
use mma.Authority.Evaluate.{Authority}
use mma.Modbus.Conn.{Peer}
use mma.Config.{IngressGate}
use mma.Main.Startup.{Server}
use mma.Main.Threads.{Thread, advance}
use mma.Main.Threads.Accept.{spawn}
use mma.Main.Process.{
  NetLibrary, new_listener, Gate, opening, accepting, GateStep, goes, gate_step, Process, Status,
  alive, exited, launch, Turns, listener, fatal, connection, crash, Becomes, stay, walk,
}

-- A connection of which `C` holds.
abbrev pub Admits : (Peer → List ℕ → Type 0) → Option (Peer × List ℕ) → Type 0
Admits C none = Unit {0}
Admits C (some (peer, input)) = C peer input

-- A listener that still accepts connections of which `C` holds.
abbrev pub IsGate : (Peer → List ℕ → Type 0) → Gate → Type 0
IsGate C (opening l) = Unit {0}
IsGate C (accepting l conns) = All (Admits C) conns

-- What the listeners of this network accept.
pub record AdmitsAll (C : Peer → List ℕ → Type 0) (net : NetLibrary) : Type 0 where
  pub admits :
      (sockets : List String) (l : String) (conns : List (Option (Peer × List ℕ)))
      → net.listen sockets l ≡ some conns
      → All (Admits C) conns

-- A property of the store, of the connections, and of the goroutines, that spawn and each step keep.
module _ (net : NetLibrary) (auth : Authority) (P : Store → Type 0) (T : Thread → Type 0)
    (C : Peer → List ℕ → Type 0) (served : AdmitsAll C net)
    (spawned : (peer : Peer) (input : List ℕ) → C peer input → T (spawn peer input))
    (step : (s : Store) (t t' : Thread) (s' : Store)
      → P s
      → T t
      → advance auth s t ≡ some (t', s')
      → P s' × T t') where
  record Good (p : Process) : Type 0 where
    store : P p.store
    gates : All (IsGate C) p.gates
    threads : All T p.threads

  GoodStatus : Status → Type 0
  GoodStatus (alive p) = Good p
  GoodStatus exited = Unit {0}

  GoodStep : GateStep → Type 0
  GoodStep (goes sockets g started) = IsGate C g × All T started
  GoodStep _ = Unit {0}

  gate_step-GoodStep :
      (sockets : List String) (g : Gate) → IsGate C g → GoodStep (gate_step net sockets g)
  unfolding gate_step GoodStep
  gate_step-GoodStep sockets (opening l) h = elim (Option-cases (net.listen sockets l.cfg.listen)) [
    | inl e ↦ rw (e, gate_step, GoodStep) tt
    | inr (conns, e) ↦ rw (e, gate_step, GoodStep) (served.admits sockets l.cfg.listen conns e, tt)
  ]
  gate_step-GoodStep sockets (accepting l []) h = tt
  gate_step-GoodStep sockets (accepting l (none ∷ conns)) h = (h.1, tt)
  gate_step-GoodStep sockets (accepting l (some (peer, input) ∷ conns)) h =
      (h.1, (spawned peer input h.0, tt))

  turn-GoodStatus : (p : Process) (x : Status) → Good p → Turns net auth p x → GoodStatus x
  unfolding GoodStatus GoodStep
  turn-GoodStatus p x h (listener place sockets g g' started at e) =
      let (g_ok, t_ok) =
        coe 0 1 (i. GoodStep (e i))
          (gate_step-GoodStep p.sockets g (All-get_elem? (IsGate C) p.gates place h.gates at)) in
      record {
        store = h.store;
        gates = All-set (IsGate C) p.gates place g' h.gates g_ok;
        threads = All-append T p.threads started h.threads t_ok;
      }
  turn-GoodStatus p x h (fatal place g at e) = tt
  turn-GoodStatus p x h (crash place t s at e) = tt
  turn-GoodStatus p x h (connection place t t' s at e whole) =
      let (p_ok, t_ok) =
        step p.store t t' s h.store (All-get_elem? T p.threads place h.threads at) e in
      record {
        store = p_ok;
        gates = h.gates;
        threads = All-set T p.threads place t' h.threads t_ok;
      }

  Becomes-GoodStatus :
      (p : Process) (n : ℕ) (x : Status) → Good p → Becomes net auth p n x → GoodStatus x
  unfolding GoodStatus
  Becomes-GoodStatus p n x h stay = h
  Becomes-GoodStatus p n x h (walk {n = k} {q = q} run turn) =
      turn-GoodStatus q x (Becomes-GoodStatus p k (alive q) h run) turn

  launch-Good :
      (server : Server) (n : ℕ) (q : Process)
      → P server.store
      → Becomes net auth (launch server) n (alive q)
      → Good q
  unfolding launch GoodStatus
  launch-Good server n q h run =
      Becomes-GoodStatus (launch server) n (alive q)
        (record { store = h; gates = opened server.gates; threads = tt }) run
    where
      opened :
          (gates : List IngressGate)
          → All (IsGate C) (map (λ gate. opening (new_listener gate)) gates)
      opened [] = tt
      opened (gate ∷ gates) = (tt, opened gates)

  -- What holds at the start, and of every new connection, holds in every process that runs.
  pub launch_keeps :
      (server : Server) (n : ℕ) (q : Process)
      → P server.store
      → Becomes net auth (launch server) n (alive q)
      → P q.store × All T q.threads
  launch_keeps server n q h run = let end = launch-Good server n q h run in (end.store, end.threads)

  pub launch_keeps_gates :
      (server : Server) (n : ℕ) (q : Process)
      → P server.store
      → Becomes net auth (launch server) n (alive q)
      → All (IsGate C) q.gates
  launch_keeps_gates server n q h run = (launch-Good server n q h run).gates
