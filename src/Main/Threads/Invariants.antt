-- ===== src/Main/Threads/Invariants.antt =====
-- What every schedule of the server's goroutines keeps (internal/ingress/listener.go).
use mma.Base.{
  ℕ, ◌≡◌, false, not, if◌then◌else◌, if-intro, Bool-cases, inl, inr, Option, none, some, List, [],
  ◌∷◌, ◌++◌, length, All, All-get_elem?, All-set, ok, err, panic,
}
use mma.Words.{IsByte}
use mma.Memorycore.Store.{Store}
use mma.Memorycore.Store.WellFormed.{IsSoundStore}
use mma.Authority.Evaluate.{Authority}
use mma.Modbus.Wire.{Request, build_response}
use mma.Modbus.Wire.Framing.{read_request_cases}
use mma.Modbus.Dispatch.{Reply, request_id, dispatch_memory}
use mma.Modbus.Dispatch.Effects.{Effect, Ends, dispatch_memory-Ends}
use mma.Modbus.Conn.{Peer, is_blocked}
use mma.Modbus.Conn.Guards.{decide}
use mma.RawIngest.Decoder.{Packet}
use mma.RawIngest.Conn.{Feed, Progress, next, done, crashed, stuck, ingest_one}
use mma.RawIngest.Conn.Effects.{Ingested}
use mma.RawIngest.Conn.Feeds.{IsResponse, Steps, Held, ingest_one-Steps}
use mma.Main.Threads.{
  Thread, reading, granted, ingesting, finished, drained, broken, admit, advance, System, Reaches,
  stay, walk,
}

-- What each step keeps, every schedule keeps.
pub Reaches-keep :
    (auth : Authority) (P : Store → Type 0) (T : Thread → Type 0)
    → ((s : Store) (t t' : Thread) (s' : Store)
        → P s
        → T t
        → advance auth s t ≡ some (t', s')
        → P s' × T t')
    → (x : System) (n : ℕ) (y : System) → Reaches auth x n y
    → P x.store
    → All T x.threads
    → P y.store × All T y.threads
Reaches-keep auth P T keep x n y stay p ts = (p, ts)
Reaches-keep auth P T keep x n y (walk {n = k} {y = z} r s) p ts =
    let (q, us) = Reaches-keep auth P T keep x k z r p ts in
    let (q', u) =
      keep z.store s.before s.after y.store q (All-get_elem? T z.threads s.place us s.chosen)
        s.moved in
    (q', rw s.others (All-set T z.threads s.place s.after us u))

-- What is known of a thread.
abbrev pub Known : (ℕ → Type 0) → (Request → Type 0) → (ℕ → Type 0) → Thread → Type 0
Known Serves Grant Feeds (reading peer input sent) = Serves peer.port
Known Serves Grant Feeds (granted peer req rest sent) = Serves peer.port × Grant req
Known Serves Grant Feeds (ingesting port input sent) =
    Feeds port × All IsByte input × All IsResponse sent
Known Serves Grant Feeds (finished sent) = Unit {0}
Known Serves Grant Feeds (drained sent) = Unit {0}
Known Serves Grant Feeds broken = ⊥

-- A property of the store, what is known of the ports of the two transports and of a request that was
-- granted, and how the steps keep it.
module _ (auth : Authority) (Q : Store → Type 0) (Serves : ℕ → Type 0) (Grant : Request → Type 0)
    (Feeds : ℕ → Type 0) (sound : (s : Store) → Q s → IsSoundStore s)
    (grant : (s : Store) (peer : Peer) (req : Request)
      → Q s
      → Serves peer.port
      → req.port ≡ peer.port
      → is_blocked s (request_id req) ≡ false
      → Grant req)
    (write : (s : Store) (req : Request) (pdu : List ℕ) (s' : Store)
      → Q s
      → Grant req
      → Effect s req pdu s'
      → Q s')
    (ingest : (s s' : Store) (port : ℕ) (pkt : Packet) (resp : ℕ)
      → Q s
      → Feeds port
      → pkt.port ≡ port
      → Ingested s pkt resp s'
      → Q s') where
  abbrev K : Thread → Type 0
  K t = Known Serves Grant Feeds t

  Moved : Option (Thread × Store) → Type 0
  Moved none = Unit {0}
  Moved (some (t, s)) = Q s × K t

  admit-Known :
      (s : Store) (peer : Peer) (req : Request) (rest : List ℕ) (sent : List (List ℕ))
      → Q s
      → Serves peer.port
      → req.port ≡ peer.port
      → K (admit auth s peer req rest sent)
  unfolding admit
  admit-Known s peer req rest sent q serves port =
      elim (Bool-cases (is_blocked s (request_id req))) [
        | inl e ↦ unfold admit in rw (e, admit) serves
        | inr e ↦
            unfold admit in
            rw (e, admit)
              (if-intro K (not (decide auth peer.src_ip req).allowed) serves
                (serves, grant s peer req q serves port e))
      ]

  ingest_port :
      (port : ℕ)
      → Feeds port
      → (s s' : Store) (pkt : Packet) (resp : ℕ) → Q s
      → pkt.port ≡ port
      → Ingested s pkt resp s'
      → Q s'
  ingest_port port feeds s s' pkt resp q e i = ingest s s' port pkt resp q feeds e i

  held :
      (port : ℕ) (feeds : Feeds port) (c : Feed)
      → Q c.store
      → All IsByte c.input
      → All IsResponse c.sent
      → Held port Q sound (ingest_port port feeds) c
  unfolding Held
  held port feeds c q bytes responses = (q, bytes, responses)

  took :
      (s : Store) (port : ℕ) (feeds : Feeds port) (n : ℕ) (o : Progress)
      → Steps port Q sound (ingest_port port feeds) n o
      → Moved (elim o [
        | next c ↦ some (ingesting port c.input c.sent, c.store)
        | done c ↦ some (drained c.sent, c.store)
        | crashed ↦ some (broken, s)
        | stuck ↦ some (broken, s)
      ])
  unfolding Steps Held Moved
  took s port feeds n (next c) (less, (q, bytes, responses)) = (q, (feeds, bytes, responses))
  took s port feeds n (done c) (q, bytes, responses) = (q, tt)
  took s port feeds n crashed h = absurd h
  took s port feeds n stuck h = absurd h

  advance-Moved : (s : Store) (t : Thread) → Q s → K t → Moved (advance auth s t)
  unfolding advance Moved
  advance-Moved s (reading peer input sent) q serves = elim (read_request_cases input peer.port) [
    | inl (e, r) ↦ rw (r, advance, Moved) (q, tt)
    | inr (req, rest, r, takes, port) ↦
        rw (r, advance, Moved) (q, admit-Known s peer req rest sent q serves port)
  ]
  advance-Moved s (granted peer req rest sent) q (serves, g) =
      answered (dispatch_memory s req) (dispatch_memory-Ends s req (sound s q))
    where
      answered :
          (o : Reply)
          → Ends s req o
          → Moved (elim o [
            | err e ↦ some (broken, s)
            | panic ↦ some (broken, s)
            | ok (pdu, s') ↦ some (
              if peer.writable (length sent)
                  then reading peer rest (sent ++ build_response req pdu ∷ [])
                  else finished (sent ++ build_response req pdu ∷ []),
              s',
            )
          ])
      answered (err e) h = absurd h
      answered panic h = absurd h
      answered (ok (pdu, s')) h =
          (write s req pdu s' q g h, if-intro K (peer.writable (length sent)) serves tt)
  advance-Moved s (ingesting port input sent) q (feeds, bytes, responses) =
      let c : Feed = record { store = s; input = input; sent = sent } in
      took s port feeds (length input) (ingest_one port c) (
        ingest_one-Steps port Q sound (ingest_port port feeds) c
          (held port feeds c q bytes responses))
  advance-Moved s (finished sent) q k = tt
  advance-Moved s (drained sent) q k = tt
  advance-Moved s broken q k = tt

  advance_keep :
      (s : Store) (t t' : Thread) (s' : Store)
      → Q s
      → K t
      → advance auth s t ≡ some (t', s')
      → Q s' × K t'
  unfolding Moved
  advance_keep s t t' s' q k e = coe 0 1 (i. Moved (e i)) (advance-Moved s t q k)

  -- The property of the store, and what is known of the threads, hold after every schedule.
  pub schedule_keeps :
      (x : System) (n : ℕ) (y : System)
      → Reaches auth x n y
      → Q x.store
      → All (Known Serves Grant Feeds) x.threads
      → Q y.store × All (Known Serves Grant Feeds) y.threads
  schedule_keeps x n y r q ks = Reaches-keep auth Q K advance_keep x n y r q ks
