-- ===== src/Tests/Process.antt =====
-- The theorems on the process at a concrete configuration and network.
use mathlib.Core.List.Memᴰ as MemD
use mma.Main.Threads.{Thread, broken, advance}
use mma.Main.Startup.{Server}
use text.Mathlib.Text.{◌==◌ as str_eq}
use Prim.Native.String.{String}
use mma.Modbus.Conn.{Peer}
use mma.Base.{
  List, Option, if◌then◌else◌, Bool-cases, inr, ◌≢◌, get_elem?, ℕ, zero, suc, ◌≡◌, ◌↔◌, refl, arith,
  inl, true, none, some, some-injective, [], ◌∷◌, All,
}
use mma.Words.{IsByte}
use mma.Memorycore.Memory.{Memory}
use mma.Memorycore.Memory.WellFormed.{HasNarrowBits}
use mma.Memorycore.Store.{Store, Pointer, deref}
use mma.Memorycore.Store.WellFormed.{IsNarrowStore}
use mma.Modbus.Conn.{is_blocked}
use mma.Config.{IngressGate}
use mma.Config.Validate.Build.{Serves}
use mma.Main.Threads.Accept.{spawn}
use mma.Main.Threads.Simulates.{ReadsBytes, IsFit}
use mma.Main.Process.{
  NetLibrary, new_listener, accepting, gate_step, Process, alive, exited, launch, listener, Becomes,
  stay, walk,
}
use mma.Main.Process.Keeps.{Admits, AdmitsAll}
use mma.Main.Process.Guarded.{SendsBytes, SendsHarmless, process-IsFit, process_keeps_sealed}
use mma.Memorycore.Units.Views.{units}
use mma.Main.Startup.Ready.{start-IsReady}
use mma.Main.Process.Spec.{Runs}
use mma.Main.Process.Simulates.{process-Runs}
use mma.Main.Process.Exits.{none_open, one_more, CannotListen, process_exits_iff}
use mma.Tests.Samples.{memory_of, memory_of-HasNarrowBits, seal_a, id_a, peer_a}
use mma.Tests.Stores.{coil_frame}
use mma.Tests.Startup.{library_a, store_a}
use mma.Tests.Launch.{
  parser_a, definition_p, files_a, server_p, files_a-DecodesU16, started, parsed, IsNarrow-coils,
  IsNarrow-discrete,
}
use mma.Tests.Whole.{conns_a}

abbrev gate_p : IngressGate
gate_p = record { id = "lan"; listen = ":502"; memory = definition_p ∷ [] }

-- Every address has the same connections; and the same, but an address can be listened on once.
abbrev net_a : NetLibrary
net_a = record { listen = λ sockets address. some conns_a }

abbrev net_once : NetLibrary
net_once = record {
  listen = λ sockets address. elim sockets [
    | [] ↦ some conns_a
    | used ∷ more ↦ if str_eq used address then none else some conns_a
  ];
}

abbrev server_2 : Server
server_2 = record server_p { gates = gate_p ∷ gate_p ∷ [] }

-- The listener is open, one Accept has failed, and the next has returned a connection.
abbrev process_a : Process
process_a = record {
  store = store_a;
  sockets = ":502" ∷ [];
  gates = accepting (record { cfg = gate_p }) [] ∷ [];
  threads = spawn peer_a coil_frame ∷ [];
}

process_run : Becomes net_a server_p.auth (launch server_p) 3 (alive process_a)
unfolding launch new_listener gate_step
process_run =
    walk (walk (walk stay (listener 0 _ _ _ _ refl refl)) (listener 0 _ _ _ _ refl refl))
      (listener 0 _ _ _ _ refl refl)

store_a-IsNarrowStore : IsNarrowStore store_a
store_a-IsNarrowStore = record { narrow = narrow }
  where
    narrow : (p : Pointer) (m : Memory) → deref store_a p ≡ some m → HasNarrowBits m
    narrow zero m h =
        let e : m ≡ memory_of 0 0 (some seal_a) = cc h in
        rw e (memory_of-HasNarrowBits 0 0 (some seal_a))
    narrow (suc p) m h = cc

coil_frame-IsByte : All IsByte coil_frame
coil_frame-IsByte = ground arith

net_a-SendsBytes : AdmitsAll SendsBytes net_a
net_a-SendsBytes = record {
  admits = λ sockets address conns e.
      let q : conns_a ≡ conns = some-injective conns_a conns e in
      rw (← q) (tt, (coil_frame-IsByte, tt));
}

net_a-SendsHarmless : AdmitsAll (SendsHarmless 502) net_a
net_a-SendsHarmless = record {
  admits = λ sockets address conns e.
      let q : conns_a ≡ conns = some-injective conns_a conns e in
      rw (← q) (tt, ((coil_frame-IsByte, inl refl), tt));
}

process-IsFit_example :
    IsFit store_a
    × All ReadsBytes process_a.threads
    × ((place : ℕ) (t t' : Thread) (s : Store)
        → get_elem? process_a.threads place ≡ some t
        → advance server_p.auth store_a t ≡ some (t', s)
        → t' ≢ broken)
process-IsFit_example =
    process-IsFit files_a library_a parser_a ("mma2" ∷ "mma2.yaml" ∷ []) server_p files_a-DecodesU16
      started net_a 3 process_a process_run store_a-IsNarrowStore net_a-SendsBytes

process_keeps_sealed_example : Serves store_a 502 definition_p × (is_blocked store_a id_a ≡ true)
process_keeps_sealed_example =
    process_keeps_sealed files_a library_a parser_a ("mma2" ∷ "mma2.yaml" ∷ []) server_p
      files_a-DecodesU16 started net_a 3 process_a process_run gate_p definition_p 502
      (MemD.head refl) (MemD.head refl) parsed (record { area = " coil"; address = 0 }) refl
      IsNarrow-coils IsNarrow-discrete net_a-SendsHarmless

server_p-IsFit : IsFit server_p.store
server_p-IsFit = record {
  sound =
      (start-IsReady files_a library_a parser_a ("mma2" ∷ "mma2.yaml" ∷ []) files_a-DecodesU16
        started).0;
  narrow = store_a-IsNarrowStore;
}

process-Runs_example :
    Runs net_a server_p.auth (units server_p.store) 3 (units store_a) (spawn peer_a coil_frame ∷ [])
process-Runs_example =
    process-Runs net_a server_p server_p-IsFit net_a-SendsBytes 3 process_a process_run

net_once-SendsBytes : AdmitsAll SendsBytes net_once
net_once-SendsBytes = record {
  admits = λ sockets address conns e. admitted sockets address conns e;
}
  where
    all_bytes : All (Admits SendsBytes) conns_a
    all_bytes = (tt, (coil_frame-IsByte, tt))

    accepted :
        (conns : List (Option (Peer × List ℕ)))
        → some conns_a ≡ some conns
        → All (Admits SendsBytes) conns
    accepted conns e = rw (← some-injective conns_a conns e) all_bytes

    admitted :
        (sockets : List String) (address : String) (conns : List (Option (Peer × List ℕ)))
        → net_once.listen sockets address ≡ some conns
        → All (Admits SendsBytes) conns
    admitted [] address conns e = accepted conns e
    admitted (used ∷ more) address conns e = elim (Bool-cases (str_eq used address)) [
      | inl same ↦ let nothing : none ≡ some conns = rw same at e in absurd (cc nothing)
      | inr other ↦ accepted conns (rw other at e)
    ]

-- Two listeners with one address: the second cannot open.
same_address : CannotListen net_once server_2.gates
same_address = (
  0 ∷ [],
  ":502" ∷ [],
  1,
  gate_p,
  one_more [] [] 0 gate_p none_open refl tt,
  refl,
  (omega arith, tt),
  refl,
)

process_exits_iff_example :
    ((n : ℕ) × Becomes net_once server_2.auth (launch server_2) n exited)
    ↔ CannotListen net_once server_2.gates
process_exits_iff_example = process_exits_iff net_once server_2 server_p-IsFit net_once-SendsBytes
