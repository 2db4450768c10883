-- ===== src/Main/Process/Simulates.antt =====
-- Every run of the process (cmd/mma2/main.go, internal/ingress/listener.go) is a run as its clients
-- see it.
use mathlib.Core.List.Memᴰ as MemD
use mathlib.Core.List.{Memᴰ}
use Prim.Native.String.{String}
use mma.Base.{
  ℕ, suc, ◌≡◌, ◌⊎◌, inl, inr, refl, Option, none, some, Option-cases, List, [], ◌∷◌, append_nil,
  All, All-get_elem?,
}
use mma.Memorycore.Store.{Store}
use mma.Memorycore.Units.Views.{units}
use mma.Authority.Evaluate.{Authority}
use mma.Modbus.Conn.{Peer}
use mma.Main.Startup.{Server}
use mma.Main.Threads.{Thread}
use mma.Main.Threads.Simulates.{ReadsBytes, IsFit, Shows, advance-Shows}
use mma.Main.Threads.Accept.{spawn}
use mma.Main.Process.{
  NetLibrary, Gate, opening, accepting, failed, goes, gate_step, Process, Status, alive, exited,
  launch, Turns, listener, fatal, connection, crash, Becomes, stay, walk,
}
use mma.Main.Process.Keeps.{Admits, AdmitsAll, IsGate, launch_keeps, launch_keeps_gates}
use mma.Main.Process.Guarded.{SendsBytes, spawn-ReadsBytes}
use mma.Main.Process.Spec.{Comes, Runs, started, waited, came, moved}

module _ (net : NetLibrary) where
  net-AdmitsAll : AdmitsAll (Comes net) net
  net-AdmitsAll = record {
    admits = λ sockets address conns e. admitted sockets address conns e conns (λ x h. h);
  }
    where
      admitted :
          (sockets : List String) (address : String) (conns : List (Option (Peer × List ℕ)))
          → net.listen sockets address ≡ some conns
          → (some_conns : List (Option (Peer × List ℕ)))
          → ((x : Option (Peer × List ℕ)) → Memᴰ x some_conns → Memᴰ x conns)
          → All (Admits (Comes net)) some_conns
      admitted sockets address conns e [] sub = tt
      admitted sockets address conns e (none ∷ more) sub =
          (tt, admitted sockets address conns e more (λ x h. sub x (MemD.tail h)))
      admitted sockets address conns e (some (peer, input) ∷ more) sub = (
        (sockets, address, conns, e, sub (some (peer, input)) (MemD.head refl)),
        admitted sockets address conns e more (λ x h. sub x (MemD.tail h)),
      )

  -- A listener's step starts no goroutine, or that of a connection that has come.
  gate_step_cases :
      (sockets sockets' : List String) (g g' : Gate) (new : List Thread)
      → IsGate (Comes net) g
      → gate_step net sockets g ≡ goes sockets' g' new
      → (new ≡ [])
        ⊎ ((peer : Peer) × (input : List ℕ) × Comes net peer input × (new ≡ spawn peer input ∷ []))
  unfolding gate_step
  gate_step_cases sockets sockets' (opening l) g' new h e =
      elim (Option-cases (net.listen sockets l.cfg.listen)) [
        | inl q ↦ let r : failed ≡ goes sockets' g' new = rw (q, gate_step) at e in absurd (cc r)
        | inr (conns, q) ↦
            let r : goes (l.cfg.listen ∷ sockets) (accepting l conns) [] ≡ goes sockets' g' new =
              rw (q, gate_step) at e in
            inl (cc r)
      ]
  gate_step_cases sockets sockets' (accepting l []) g' new h e = absurd (cc e)
  gate_step_cases sockets sockets' (accepting l (none ∷ conns)) g' new h e = inl (cc e)
  gate_step_cases sockets sockets' (accepting l (some (peer, input) ∷ conns)) g' new h e =
      inr (peer, input, h.0, cc e)

  module _ (auth : Authority) (s : Store) where
    RunsTo : ℕ → Status → Type 0
    RunsTo n (alive p) = Runs net auth (units s) n (units p.store) p.threads
    RunsTo n exited = Unit {0}

    turn-RunsTo :
        (n : ℕ) (p : Process) (x : Status)
        → All (IsGate (Comes net)) p.gates
        → IsFit p.store
        → All ReadsBytes p.threads
        → Runs net auth (units s) n (units p.store) p.threads
        → Turns net auth p x
        → RunsTo (suc n) x
    unfolding RunsTo Shows
    turn-RunsTo n p x gates fit bytes run (listener place sockets' g g' new at e) =
        elim (gate_step_cases p.sockets sockets' g g' new
          (All-get_elem? (IsGate (Comes net)) p.gates place gates at) e) [
            | inl nothing ↦
                rw (nothing, append_nil p.threads) (waited n (units p.store) p.threads run)
            | inr (peer, input, comes, one) ↦
                rw one (came n (units p.store) p.threads peer input run comes)
          ]
    turn-RunsTo n p x gates fit bytes run (fatal place g at e) = tt
    turn-RunsTo n p x gates fit bytes run (crash place t s' at e) = tt
    turn-RunsTo n p x gates fit bytes run (connection place t t' s' at e whole) =
        let shown =
          advance-Shows auth p.store t fit (All-get_elem? ReadsBytes p.threads place bytes at) in
        let (_, _, move) = coe 0 1 (i. Shows auth p.store t (e i)) shown in
        moved n (units p.store) p.threads place t t' (units s') run at move

module _ (net : NetLibrary) (server : Server) (fit : IsFit server.store)
    (bytes : AdmitsAll SendsBytes net) where
  -- What every state of the process has.
  pub held :
      (n : ℕ) (q : Process)
      → Becomes net server.auth (launch server) n (alive q)
      → (IsFit q.store × All ReadsBytes q.threads) × All (IsGate (Comes net)) q.gates
  unfolding Shows
  held n q run = (
    launch_keeps net server.auth IsFit ReadsBytes SendsBytes bytes spawn-ReadsBytes
        (λ s t t' s' h k e.
          let (fit', bytes', _) =
            coe 0 1 (i. Shows server.auth s t (e i)) (advance-Shows server.auth s t h k) in
          (fit', bytes'))
        server n q fit run,
    launch_keeps_gates net server.auth (λ s. Unit {0}) (λ t. Unit {0}) (Comes net)
        (net-AdmitsAll net) (λ peer input h. tt) (λ s t t' s' h k e. (tt, tt)) server n q tt run,
  )

  all-RunsTo :
      (n : ℕ) (x : Status)
      → Becomes net server.auth (launch server) n x
      → RunsTo net server.auth server.store n x
  unfolding RunsTo launch
  all-RunsTo n x stay = started
  all-RunsTo n x (walk {n = k} {q = z} run turn) =
      let ((fit', bytes'), gates) = held k z run in
      turn-RunsTo net server.auth server.store k z x gates fit' bytes' (all-RunsTo k (alive z) run)
        turn

  -- When the store that the process starts with is sound and has narrow bit areas, and the peers send
  -- bytes, every state that the process reaches in any order of the steps of its listeners and
  -- connections is one of the server as its clients see it: its units and connections are those of a run
  -- of as many steps, in which connections come from the network and their commands and packets are
  -- carried out one at a time.
  pub process-Runs :
      (n : ℕ) (q : Process)
      → Becomes net server.auth (launch server) n (alive q)
      → Runs net server.auth (units server.store) n (units q.store) q.threads
  unfolding RunsTo
  process-Runs n q run = all-RunsTo n (alive q) run
