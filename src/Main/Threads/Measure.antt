-- ===== src/Main/Threads/Measure.antt =====
-- A number that every step of the server's goroutines makes smaller (internal/ingress/listener.go): a step
-- takes bytes of the input, or brings a granted request to its dispatch.
use mma.Base.{
  ℕ, zero, suc, ◌+◌, ◌*◌, ◌<◌, ◌≤◌, ◌≡◌, ap, arith, not, if◌then◌else◌, if-intro, inl, inr, Option,
  none, some, some-injective, List, [], ◌∷◌, ◌++◌, length, get_elem?, set, ok, err, panic,
}
use mma.Memorycore.Store.{Store}
use mma.Authority.Evaluate.{Authority}
use mma.Modbus.Wire.{Request, build_response}
use mma.Modbus.Wire.Framing.{read_request_cases}
use mma.Modbus.Dispatch.{Reply, request_id, dispatch_memory}
use mma.Modbus.Conn.{Peer, is_blocked}
use mma.Modbus.Conn.Guards.{decide}
use mma.RawIngest.Conn.{Feed, Progress, next, done, crashed, stuck, ingest_one}
use mma.RawIngest.Conn.Shrinks.{Shorter, ingest_one-Shorter}
use mma.Main.Threads.{
  Thread, reading, granted, ingesting, finished, drained, broken, admit, advance, System, Step,
  Reaches, stay, walk,
}

-- How many steps a goroutine can take yet: two for each unread byte of a Modbus connection, one for
-- each of a raw-ingest connection, one for a granted request, and one for the end.
abbrev pub steps_left : Thread → ℕ
steps_left (reading peer input sent) = length input * 2 + 1
steps_left (granted peer req rest sent) = length rest * 2 + 2
steps_left (ingesting port input sent) = length input + 1
steps_left (finished sent) = 0
steps_left (drained sent) = 0
steps_left broken = 0

abbrev pub all_steps_left : List Thread → ℕ
all_steps_left [] = 0
all_steps_left (t ∷ threads) = steps_left t + all_steps_left threads

Fewer : ℕ → Option (Thread × Store) → Type 0
Fewer n none = Unit {0}
Fewer n (some (t, s)) = steps_left t < n

admit-Fewer :
    (auth : Authority) (s : Store) (peer : Peer) (req : Request) (rest : List ℕ)
    (sent : List (List ℕ))
    → steps_left (admit auth s peer req rest sent) ≤ length rest * 2 + 2
unfolding admit
admit-Fewer auth s peer req rest sent =
    if-intro (λ t. steps_left t ≤ length rest * 2 + 2) (is_blocked s (request_id req)) (omega arith)
      (if-intro (λ t. steps_left t ≤ length rest * 2 + 2)
        (not (decide auth peer.src_ip req).allowed) (omega arith) (omega arith))

ended :
    (port : ℕ) (s : Store) (n : ℕ) (o : Progress)
    → Shorter n o
    → Fewer (n + 1) (elim o [
      | next c ↦ some (ingesting port c.input c.sent, c.store)
      | done c ↦ some (drained c.sent, c.store)
      | crashed ↦ some (broken, s)
      | stuck ↦ some (broken, s)
    ])
unfolding Fewer
ended port s n (next c) h = omega (arith, h)
ended port s n (done c) h = omega arith
ended port s n crashed h = omega arith
ended port s n stuck h = omega arith

advance-Fewer :
    (auth : Authority) (s : Store) (t : Thread) → Fewer (steps_left t) (advance auth s t)
unfolding advance Fewer
advance-Fewer auth s (reading peer input sent) = elim (read_request_cases input peer.port) [
  | inl (e, r) ↦ rw (r, advance, Fewer) (omega arith)
  | inr (req, rest, r, takes, port) ↦
      rw (r, advance, Fewer) (omega (arith, admit-Fewer auth s peer req rest sent, takes))
]
advance-Fewer auth s (granted peer req rest sent) = answered (dispatch_memory s req)
  where
    answered :
        (o : Reply)
        → Fewer (length rest * 2 + 2) (elim o [
          | err e ↦ some (broken, s)
          | panic ↦ some (broken, s)
          | ok (pdu, s') ↦ some (
            if peer.writable (length sent)
                then reading peer rest (sent ++ build_response req pdu ∷ [])
                else finished (sent ++ build_response req pdu ∷ []),
            s',
          )
        ])
    answered (err e) = omega arith
    answered panic = omega arith
    answered (ok (pdu, s')) =
        if-intro (λ t. steps_left t < length rest * 2 + 2) (peer.writable (length sent))
          (omega arith) (omega arith)
advance-Fewer auth s (ingesting port input sent) =
    let c : Feed = record { store = s; input = input; sent = sent } in
    ended port s (length input) (ingest_one port c) (ingest_one-Shorter port c)
advance-Fewer auth s (finished sent) = tt
advance-Fewer auth s (drained sent) = tt
advance-Fewer auth s broken = tt

all_steps_left-set :
    (threads : List Thread) (i : ℕ) (t t' : Thread)
    → get_elem? threads i ≡ some t
    → steps_left t' < steps_left t
    → all_steps_left (set threads i t') < all_steps_left threads
all_steps_left-set [] i t t' e less = cc
all_steps_left-set (x ∷ threads) zero t t' e less =
    let q : x ≡ t = some-injective x t e in omega (arith, ap steps_left q, less)
all_steps_left-set (x ∷ threads) (suc i) t t' e less =
    omega (arith, all_steps_left-set threads i t t' e less)

Step-less :
    (auth : Authority) (x y : System)
    → Step auth x y
    → all_steps_left y.threads < all_steps_left x.threads
unfolding Fewer
Step-less auth x y s =
    let less : steps_left s.after < steps_left s.before =
      coe 0 1 (i. Fewer (steps_left s.before) (s.moved i)) (advance-Fewer auth x.store s.before) in
    rw s.others (all_steps_left-set x.threads s.place s.before s.after s.chosen less)

-- Whatever the order of the steps of the goroutines, and whatever the requests do: a schedule of `n`
-- steps leaves `n` steps less, at least, than there were, of two for each byte that a Modbus connection
-- has not read, one for each that a raw-ingest connection has not read, one for each granted request,
-- and one for the end of each connection. So no schedule goes on for ever.
pub schedule_bounded :
    (auth : Authority) (x : System) (n : ℕ) (y : System)
    → Reaches auth x n y
    → n + all_steps_left y.threads ≤ all_steps_left x.threads
schedule_bounded auth x n y stay = omega arith
schedule_bounded auth x n y (walk {n = k} {y = z} r s) =
    omega (arith, schedule_bounded auth x k z r, Step-less auth z y s)
