-- ===== src/Main/Threads/Accept/Whole.antt =====
-- The whole program: the start of cmd/mma2/main.go, then any connections in any order of their steps.
use Prim.Native.String.{String}
use mathlib.Core.List.{Memᴰ}
use mma.Base.{
  ℕ, ◌≡◌, ◌≢◌, ◌⊎◌, inl, inr, true, false, Bool-cases, leb, Option, none, some, List, [], ◌∷◌,
  length, All, ok,
}
use mma.Words.{IsByte}
use mma.Golang.Text.{TextLibrary}
use mma.Golang.Netip.{Parser}
use mma.Memorycore.Memory.WellFormed.{IsNarrow}
use mma.Memorycore.Store.{MemoryId}
use mma.Modbus.Conn.{Peer, is_blocked}
use mma.Ingress.{classify, route}
use mma.Config.{MemoryDefinition, IngressGate, StateSealingConfig, layout_of, parse_listen_port}
use mma.Config.Load.{FileLibrary}
use mma.Config.Validate.Accepted.{identity}
use mma.Config.Validate.Build.{Serves}
use mma.Main.Connections.{starts_raw}
use mma.Main.Startup.{Server, start}
use mma.Main.Startup.Ready.{DecodesU16}
use mma.Main.Startup.Guarded.{start-is_blocked, start-Serves}
use mma.Main.Threads.{System, Reaches}
use mma.Main.Threads.Sealed.{HasNoGrant, schedule_keeps_sealed}
use mma.Main.Threads.Accept.{spawn, accept_all, running}

-- A connection of bytes, which is Modbus or comes to another port.
abbrev pub IsHarmless : ℕ → Option (Peer × List ℕ) → Type 0
IsHarmless port none = Unit {0}
IsHarmless port (some (peer, input)) =
    All IsByte input × ((starts_raw input ≡ false) ⊎ (peer.port ≢ port))

pub spawn-HasNoGrant :
    (id : MemoryId) (peer : Peer) (input : List ℕ)
    → All IsByte input
    → (starts_raw input ≡ false) ⊎ (peer.port ≢ id.port)
    → HasNoGrant id (spawn peer input)
unfolding spawn route classify
spawn-HasNoGrant id peer input bytes h = elim (Bool-cases (leb 2 (length input))) [
  | inr few ↦ rw (few, spawn) tt
  | inl enough ↦ elim (Bool-cases (starts_raw input)) [
    | inr other ↦ rw (enough, other, spawn) tt
    | inl raw ↦ rw (enough, raw, spawn) (elsewhere raw h, bytes, tt)
  ]
]
  where
    elsewhere :
        starts_raw input ≡ true
        → (starts_raw input ≡ false) ⊎ (peer.port ≢ id.port)
        → peer.port ≢ id.port
    elsewhere raw (inl plain) = cc (raw, plain)
    elsewhere raw (inr other) = other

accept_all-HasNoGrant :
    (id : MemoryId) (conns : List (Option (Peer × List ℕ)))
    → All (IsHarmless id.port) conns
    → All (HasNoGrant id) (accept_all conns)
unfolding accept_all
accept_all-HasNoGrant id [] h = tt
accept_all-HasNoGrant id (none ∷ conns) h = accept_all-HasNoGrant id conns h.1
accept_all-HasNoGrant id (some (peer, input) ∷ conns) ((bytes, plain), h) =
    (spawn-HasNoGrant id peer input bytes plain, accept_all-HasNoGrant id conns h)

module _ (files : FileLibrary) (lib : TextLibrary) (parser : Parser) (args : List String)
    (server : Server) (u16 : DecodesU16 files lib parser)
    (started : start files lib parser args ≡ ok server) (gate : IngressGate)
    (def : MemoryDefinition) (port : ℕ) (listening : Memᴰ gate server.gates)
    (defined : Memᴰ def gate.memory) (parsed : parse_listen_port lib gate.listen ≡ ok port) where
  -- When main starts, and decoded areas have `uint16` fields, a memory with state sealing and at most
  -- 65528 coils and 65528 discrete inputs stays blocked and exactly as its definition describes a new
  -- memory, whatever the connections send and however their steps are interleaved, as long as no
  -- connection to its port starts with the magic of raw ingest.
  pub running_keeps_sealed :
      (seal : StateSealingConfig) (conns : List (Option (Peer × List ℕ))) (n : ℕ) (y : System)
      → def.state_sealing ≡ some seal
      → IsNarrow (layout_of def.coils)
      → IsNarrow (layout_of def.discrete_inputs)
      → All (IsHarmless port) conns
      → Reaches server.auth (running server conns) n y
      → Serves y.store port def × (is_blocked y.store (identity port def) ≡ true)
  running_keeps_sealed seal conns n y e coils discrete harmless r =
      let (w, (p, m, g, d, fresh)) =
        start-Serves files lib parser args server u16 started gate def port listening defined
          parsed in
      let blocked =
        start-is_blocked files lib parser args server u16 started gate def port listening defined
          parsed seal e coils discrete in
      let ((_, g', d'), still) =
        schedule_keeps_sealed server.auth (running server conns) n y r (identity port def) p m
          (w, g, d) blocked (accept_all-HasNoGrant (identity port def) conns harmless) in
      ((p, m, g', d', fresh), still)
