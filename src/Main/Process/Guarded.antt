-- ===== src/Main/Process/Guarded.antt =====
-- What the process (cmd/mma2/main.go) keeps from its start on, whatever the connections send.
use Prim.Native.String.{String}
use mathlib.Core.List.{Memᴰ}
use mma.Base.{
  ℕ, get_elem?, All-get_elem?, ◌≡◌, ◌≢◌, ◌⊎◌, inl, inr, refl, true, false, Bool-cases, leb, some,
  List, [], ◌∷◌, length, All, ok,
}
use mma.Words.{IsByte}
use mma.Golang.Text.{TextLibrary}
use mma.Golang.Netip.{Parser}
use mma.Memorycore.Memory.WellFormed.{IsNarrow}
use mma.Memorycore.Store.{Store}
use mma.Memorycore.Store.WellFormed.{IsNarrowStore}
use mma.Authority.Evaluate.{Authority}
use mma.Modbus.Conn.{Peer, is_blocked}
use mma.Ingress.{classify, route}
use mma.Config.{MemoryDefinition, IngressGate, StateSealingConfig, layout_of, parse_listen_port}
use mma.Config.Load.{FileLibrary}
use mma.Config.Validate.Accepted.{identity}
use mma.Config.Validate.Build.{Serves}
use mma.Main.Connections.{starts_raw}
use mma.Main.Startup.{Server, start}
use mma.Main.Startup.Ready.{DecodesU16, start-IsReady}
use mma.Main.Startup.Guarded.{start-is_blocked, start-Serves}
use mma.Main.Threads.{Thread, broken, System, Reaches, stay, walk, advance}
use mma.Main.Threads.Sealed.{HasNoGrant, Holds, sealed_run, schedule_keeps_sealed}
use mma.Main.Threads.Simulates.{ReadsBytes, IsFit, Shows, advance-Shows, schedule-Serves}
use mma.Main.Threads.Accept.{spawn}
use mma.Main.Threads.Accept.Whole.{spawn-HasNoGrant}
use mma.Main.Process.{NetLibrary, Process, alive, launch, Becomes}
use mma.Main.Process.Keeps.{AdmitsAll, launch_keeps}

-- One step of one goroutine, as a schedule.
alone : Store → Thread → System
alone s t = record { store = s; threads = t ∷ [] }

one_step :
    (auth : Authority) (s : Store) (t t' : Thread) (s' : Store)
    → advance auth s t ≡ some (t', s')
    → Reaches auth (alone s t) 1 (alone s' t')
unfolding alone
one_step auth s t t' s' e =
    walk stay
      (record { place = 0; before = t; after = t'; chosen = refl; moved = e; others = refl })

pub spawn-ReadsBytes :
    (peer : Peer) (input : List ℕ) → All IsByte input → ReadsBytes (spawn peer input)
unfolding spawn route classify
spawn-ReadsBytes peer input bytes = elim (Bool-cases (leb 2 (length input))) [
  | inr few ↦ rw (few, spawn) tt
  | inl enough ↦ elim (Bool-cases (starts_raw input)) [
    | inr other ↦ rw (enough, other, spawn) bytes
    | inl raw ↦ rw (enough, raw, spawn) bytes
  ]
]

-- A connection of bytes, and one that is Modbus or comes to another port.
abbrev pub SendsBytes : Peer → List ℕ → Type 0
SendsBytes peer input = All IsByte input

abbrev pub SendsHarmless : ℕ → Peer → List ℕ → Type 0
SendsHarmless port peer input = All IsByte input × ((starts_raw input ≡ false) ⊎ (peer.port ≢ port))

module _ (files : FileLibrary) (lib : TextLibrary) (parser : Parser) (args : List String)
    (server : Server) (u16 : DecodesU16 files lib parser)
    (started : start files lib parser args ≡ ok server) (net : NetLibrary) (n : ℕ) (q : Process)
    (run : Becomes net server.auth (launch server) n (alive q)) where
  -- When main starts, decoded areas have `uint16` fields, no bit area has more than 65528 bits and the
  -- peers send bytes, then in every state of the process, whichever listeners have opened and
  -- connections come and however their steps are interleaved, no connection has panicked or panics in
  -- its next step, and the store is sound and narrow.
  pub process-IsFit :
      IsNarrowStore server.store
      → AdmitsAll SendsBytes net
      → IsFit q.store
        × All ReadsBytes q.threads
        × ((place : ℕ) (t t' : Thread) (s : Store)
            → get_elem? q.threads place ≡ some t
            → advance server.auth q.store t ≡ some (t', s)
            → t' ≢ broken)
  unfolding alone Shows
  process-IsFit narrow served =
      let (w, _, _) = start-IsReady files lib parser args u16 started in
      let (fit, bytes) =
        launch_keeps net server.auth IsFit ReadsBytes SendsBytes served spawn-ReadsBytes
          (λ s t t' s' h k e.
            let (_, fit, (bytes, _)) =
              schedule-Serves server.auth (alone s t) 1 (alone s' t')
                (one_step server.auth s t t' s' e) h (k, tt) in
            (fit, bytes))
          server n q (record { sound = w; narrow = narrow }) run in
      (
        fit,
        bytes,
        λ place t t' s at e panics.
            let shown =
              advance-Shows server.auth q.store t fit
                (All-get_elem? ReadsBytes q.threads place bytes at) in
            let (_, whole, _) = coe 0 1 (i. Shows server.auth q.store t (e i)) shown in
            let fallen : ReadsBytes broken = rw panics at whole in absurd fallen,
      )

  module _ (gate : IngressGate) (def : MemoryDefinition) (port : ℕ)
      (listening : Memᴰ gate server.gates) (defined : Memᴰ def gate.memory)
      (parsed : parse_listen_port lib gate.listen ≡ ok port) (seal : StateSealingConfig) where
    -- When main starts, and decoded areas have `uint16` fields, a memory with state sealing and at most
    -- 65528 coils and 65528 discrete inputs is blocked and exactly as its definition describes a new
    -- memory in every state of the process, whichever listeners have opened, whatever the connections
    -- send and however their steps are interleaved, as long as no connection to its port starts with the
    -- magic of raw ingest.
    pub process_keeps_sealed :
        def.state_sealing ≡ some seal
        → IsNarrow (layout_of def.coils)
        → IsNarrow (layout_of def.discrete_inputs)
        → AdmitsAll (SendsHarmless port) net
        → Serves q.store port def × (is_blocked q.store (identity port def) ≡ true)
    unfolding alone
    process_keeps_sealed e coils discrete harmless =
        let (w, (p, m, g, d, fresh)) =
          start-Serves files lib parser args server u16 started gate def port listening defined
            parsed in
        let id = identity port def in
        let blocked =
          start-is_blocked files lib parser args server u16 started gate def port listening defined
            parsed seal e coils discrete in
        let (((_, g', d'), still), _) =
          launch_keeps net server.auth (λ s. Holds id p m s × (is_blocked s id ≡ true))
            (HasNoGrant id) (SendsHarmless port) harmless
            (λ peer input h. spawn-HasNoGrant id peer input h.0 h.1)
            (λ s t t' s' h k step.
              let r = one_step server.auth s t t' s' step in
              let (_, (k', _)) =
                sealed_run server.auth (alone s t) 1 (alone s' t') r id p m h.0 h.1 (k, tt) in
              (
                schedule_keeps_sealed server.auth (alone s t) 1 (alone s' t') r id p m h.0 h.1
                    (k, tt),
                k',
              ))
            server n q ((w, g, d), blocked) run in
        ((p, m, g', d', fresh), still)
