-- ===== src/Main/Connections/Contract.antt =====
-- The contract of a whole connection (cmd/mma2/main.go, internal/ingress): the classification, and
-- what the transport that it selects promises.
use mma.Base.{
  ℕ, ◌≡◌, inl, inr, refl, leb, if◌then◌else◌, Bool-cases, Option, none, some, List, length, All,
}
use mma.Words.{IsByte}
use mma.Memorycore.Store.{Store}
use mma.Memorycore.Store.WellFormed.{IsSoundStore, IsNarrowStore}
use mma.Memorycore.Units.Views.{units}
use mma.Authority.Evaluate.{Authority}
use mma.Modbus.Conn.{Session, done, Peer}
use mma.Modbus.Spec.Conversation.{Converses}
use mma.Modbus.Spec.Converses.{handle_conn-Converses}
use mma.RawIngest.Conn.{Feed}
use mma.RawIngest.Conn as Raw
use mma.RawIngest.Spec.{Feeds}
use mma.RawIngest.Spec.Stream.{handle_conn-Feeds}
use mma.Ingress.{classify, route}
use mma.Main.{Served, by_modbus, by_raw_ingest, serve}
use mma.Main.Connections.{starts_raw}

-- How the connection ends: closed without an answer, or answered as a conversation or as a stream.
abbrev pub IsAnswered : Authority → Peer → Store → List ℕ → Option Served → Type 0
IsAnswered auth peer s input o =
    if leb 2 (length input)
    then if starts_raw input
      then ((c : Feed) × (o ≡ some (by_raw_ingest (Raw.done c)))
          × Feeds peer.port (units s) input c.sent (units c.store))
      else ((c : Session) × (o ≡ some (by_modbus (done c)))
          × Converses auth peer 0 (units s) input c.sent (units c.store))
    else o ≡ none

-- On a sound store whose bit areas have at most 65528 bits, for a peer that sends bytes, a connection
-- ends: without an answer if it has less than two bytes, as a stream of raw ingest if the first two
-- are RI, and as a Modbus conversation otherwise; the bytes sent and the units at its end are those
-- that the contract of the transport gives.
pub serve-IsAnswered :
    (auth : Authority) (peer : Peer) (s : Store) (input : List ℕ)
    → IsSoundStore s
    → IsNarrowStore s
    → All IsByte input
    → IsAnswered auth peer s input (serve auth peer s input)
unfolding serve route classify
serve-IsAnswered auth peer s input w n bytes = elim (Bool-cases (leb 2 (length input))) [
  | inr few ↦ rw (few, serve, route, classify) refl
  | inl enough ↦ elim (Bool-cases (starts_raw input)) [
    | inl raw ↦
        let (c, e, feeds) = handle_conn-Feeds peer.port s input w n bytes in
        rw (enough, raw) (c, rw (enough, raw, e, serve, route, classify) refl, feeds)
    | inr other ↦
        let (c, e, talk) = handle_conn-Converses auth peer s input w n bytes in
        rw (enough, other) (c, rw (enough, other, e, serve, route, classify) refl, talk)
  ]
]
