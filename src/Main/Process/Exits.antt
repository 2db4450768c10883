-- ===== src/Main/Process/Exits.antt =====
-- When the process ends (cmd/mma2/main.go): by log.Fatalf, after ListenAndServe of
-- internal/ingress/listener.go has returned an error, or by a panic.
use Prim.Native.String.{String}
use mma.Base.{
  ℕ, zero, suc, ◌<◌, ◌≡◌, ◌≢◌, ◌⊎◌, ◌↔◌, inl, inr, refl, sym, ap, ◌∙◌, arith, ◌==◌, Bool-cases,
  none, some, some-injective, Option-cases, List, [], ◌∷◌, ◌++◌, length, map, get_elem?, set,
  get_elem?-set_self, get_elem?-set_ne, All, All-get_elem?,
}
use mma.Config.{IngressGate}
use mma.Main.Startup.{Server}
use mma.Main.Threads.{Thread, broken, advance}
use mma.Main.Threads.Simulates.{ReadsBytes, IsFit, Shows, advance-Shows}
use mma.Main.Process.{
  NetLibrary, new_listener, Gate, opening, accepting, failed, goes, gate_step, Process, Status,
  alive, exited, launch, Turns, listener, fatal, connection, crash, Becomes, stay, walk,
}
use mma.Main.Process.Keeps.{AdmitsAll}
use mma.Main.Process.Guarded.{SendsBytes}
use mma.Main.Process.Simulates.{held}

-- The place is none of these.
abbrev pub IsOff : ℕ → List ℕ → Type 0
IsOff place places = All (λ other. other ≢ place) places

-- The listeners at the places, which differ, and their addresses; the last to be opened comes first.
pub data Opened (gates : List IngressGate) : List ℕ → List String → Type 0 where
  none_open : Opened gates [] []
  one_more :
      (places : List ℕ) (sockets : List String) (place : ℕ) (gate : IngressGate)
      → Opened gates places sockets
      → get_elem? gates place ≡ some gate
      → IsOff place places
      → Opened gates (place ∷ places) (gate.listen ∷ sockets)

-- Some listener cannot listen when certain others, opened in some order, do.
abbrev pub CannotListen : NetLibrary → List IngressGate → Type 0
CannotListen net gates =
    (places : List ℕ) × (sockets : List String) × (place : ℕ) × (gate : IngressGate) × Opened gates
      places sockets
    × (get_elem? gates place ≡ some gate)
    × IsOff place places
    × (net.listen sockets gate.listen ≡ none)

-- The listener of a gate before it listens.
abbrev of_gate : IngressGate → Gate
of_gate gate = opening (new_listener gate)

get_elem?-map :
    (gates : List IngressGate) (place : ℕ) {gate : IngressGate}
    → get_elem? gates place ≡ some gate
    → get_elem? (map of_gate gates) place ≡ some (of_gate gate)
get_elem?-map [] place e = cc e
get_elem?-map (other ∷ gates) zero {gate} e =
    ap (λ g. some (of_gate g)) (some-injective other gate e)
get_elem?-map (other ∷ gates) (suc place) e = get_elem?-map gates place e

-- A listener that has not opened is that of the gate at its place, and is off the places that have.
IsWaiting : List IngressGate → List ℕ → ℕ → Gate → Type 0
IsWaiting gates places place (opening l) = (get_elem? gates place ≡ some l.cfg) × IsOff place places
IsWaiting gates places place (accepting l conns) = Unit {0}

AreWaiting : List IngressGate → List ℕ → List Gate → Type 0
AreWaiting gates places now =
    (place : ℕ) (g : Gate) → get_elem? now place ≡ some g → IsWaiting gates places place g

get_elem?-length {ℓ} :
    {A : Type ℓ} (xs : List A) (place : ℕ) {x : A} → get_elem? xs place ≡ some x → place < length xs
get_elem?-length [] place e = cc e
get_elem?-length (y ∷ xs) zero e = omega arith
get_elem?-length (y ∷ xs) (suc place) e = omega (arith, get_elem?-length xs place e)

-- A gate elsewhere is as it was, and still off the places.
set-AreWaiting :
    (gates : List IngressGate) (places places' : List ℕ) (now : List Gate) (place : ℕ) (g g' : Gate)
    → get_elem? now place ≡ some g
    → IsWaiting gates places' place g'
    → ((other : ℕ) → other ≢ place → IsOff other places → IsOff other places')
    → AreWaiting gates places now
    → AreWaiting gates places' (set now place g')
unfolding AreWaiting IsWaiting
set-AreWaiting gates places places' now place g g' here mine off all other x e =
    elim (Bool-cases (place == other)) [
      | inl same ↦
          let q : place ≡ other = ground (arith, same) in
          let self = get_elem?-set_self now place g' (get_elem?-length now place here) in
          let r : g' ≡ x =
            some-injective g' x (sym self ∙ (ap (get_elem? (set now place g')) q ∙ e)) in
          coe 0 1 (i. IsWaiting gates places' (q i) (r i)) mine
      | inr differs ↦
          let away : place ≢ other = λ q. ground (arith, differs, q) in
          elsewhere x (all other x (sym (get_elem?-set_ne now place other g' away) ∙ e))
            (λ q. away (sym q))
    ]
  where
    elsewhere :
        (x : Gate)
        → IsWaiting gates places other x
        → other ≢ place
        → IsWaiting gates places' other x
    elsewhere (opening l) (at, is_off) away = (at, off other away is_off)
    elsewhere (accepting l conns) h away = tt

module _ (net : NetLibrary) (server : Server) (fit : IsFit server.store)
    (bytes : AdmitsAll SendsBytes net) where
  -- The sockets are those of listeners that have opened.
  Listening : Process → Type 0
  Listening p =
      (places : List ℕ) × Opened server.gates places p.sockets
      × AreWaiting server.gates places p.gates

  Ended : Status → Type 0
  Ended (alive p) = Listening p
  Ended exited = CannotListen net server.gates

  listener-Listening :
      (p : Process) (place : ℕ) (sockets : List String) (g g' : Gate) (started : List Thread)
      → Listening p
      → get_elem? p.gates place ≡ some g
      → gate_step net p.sockets g ≡ goes sockets g' started
      → Listening (record p {
        sockets = sockets;
        gates = set p.gates place g';
        threads = p.threads ++ started;
      })
  unfolding Listening gate_step IsWaiting AreWaiting
  listener-Listening p place sockets (opening l) g' started (places, opened, all) at e =
      elim (Option-cases (net.listen p.sockets l.cfg.listen)) [
        | inl q ↦ let r : failed ≡ goes sockets g' started = rw (q, gate_step) at e in absurd (cc r)
        | inr (conns, q) ↦
            let r : goes (l.cfg.listen ∷ p.sockets) (accepting l conns) []
                ≡ goes sockets g' started =
              rw (q, gate_step) at e in
            let s : (l.cfg.listen ∷ p.sockets) ≡ sockets = cc r in
            let t : accepting l conns ≡ g' = cc r in
            let (gate_at, is_off) = all place (opening l) at in
            rw (← s, ← t)
              (
                place ∷ places,
                one_more places p.sockets place l.cfg opened gate_at is_off,
                set-AreWaiting server.gates places (place ∷ places) p.gates place (opening l)
                    (accepting l conns) at tt (λ other away off. (λ q. away (sym q), off)) all,
              )
      ]
  listener-Listening p place sockets (accepting l []) g' started h at e = absurd (cc e)
  listener-Listening p place sockets (accepting l (none ∷ conns)) g' started (places, opened, all)
        at e =
      let s : p.sockets ≡ sockets = cc e in
      let t : accepting l conns ≡ g' = cc e in
      rw (← s, ← t)
        (
          places,
          opened,
          set-AreWaiting server.gates places places p.gates place _ (accepting l conns) at tt
              (λ other away off. off) all,
        )
  listener-Listening p place sockets (accepting l (some (peer, input) ∷ conns)) g' started
        (places, opened, all) at e =
      let s : p.sockets ≡ sockets = cc e in
      let t : accepting l conns ≡ g' = cc e in
      rw (← s, ← t)
        (
          places,
          opened,
          set-AreWaiting server.gates places places p.gates place _ (accepting l conns) at tt
              (λ other away off. off) all,
        )

  fatal-CannotListen :
      (p : Process) (place : ℕ) (g : Gate)
      → Listening p
      → get_elem? p.gates place ≡ some g
      → gate_step net p.sockets g ≡ failed
      → CannotListen net server.gates
  unfolding Listening gate_step AreWaiting IsWaiting
  fatal-CannotListen p place (opening l) (places, opened, all) at e =
      elim (Option-cases (net.listen p.sockets l.cfg.listen)) [
        | inl q ↦
            let (gate_at, is_off) = all place (opening l) at in
            (places, p.sockets, place, l.cfg, opened, gate_at, is_off, q)
        | inr (conns, q) ↦
            let r : goes (l.cfg.listen ∷ p.sockets) (accepting l conns) [] ≡ failed =
              rw (q, gate_step) at e in
            absurd (cc r)
      ]
  fatal-CannotListen p place (accepting l []) h at e = absurd (cc e)
  fatal-CannotListen p place (accepting l (none ∷ conns)) h at e = absurd (cc e)
  fatal-CannotListen p place (accepting l (some (peer, input) ∷ conns)) h at e = absurd (cc e)

  -- No goroutine of a process that has started well panics.
  no-crash :
      (n : ℕ) (p : Process)
      → Becomes net server.auth (launch server) n (alive p)
      → (place : ℕ) (t : Thread) {s : _} → get_elem? p.threads place ≡ some t
      → advance server.auth p.store t ≢ some (broken, s)
  unfolding Shows
  no-crash n p run place t at e =
      let ((fit', reads), _) = held net server fit bytes n p run in
      let shown =
        advance-Shows server.auth p.store t fit'
          (All-get_elem? ReadsBytes p.threads place reads at) in
      let (_, whole, _) = coe 0 1 (i. Shows server.auth p.store t (e i)) shown in whole

  turn-Ended :
      (n : ℕ) (p : Process) (x : Status)
      → Becomes net server.auth (launch server) n (alive p)
      → Listening p
      → Turns net server.auth p x
      → Ended x
  unfolding Ended Listening
  turn-Ended n p x run h (listener place sockets g g' started at e) =
      listener-Listening p place sockets g g' started h at e
  turn-Ended n p x run h (fatal place g at e) = fatal-CannotListen p place g h at e
  turn-Ended n p x run h (connection place t t' s at e whole) = h
  turn-Ended n p x run h (crash place t s at e) = absurd (no-crash n p run place t at e)

  Becomes-Ended : (n : ℕ) (x : Status) → Becomes net server.auth (launch server) n x → Ended x
  unfolding Ended Listening launch AreWaiting IsWaiting
  Becomes-Ended n x stay = ([], none_open, at_start server.gates)
    where
      at_start :
          (gates : List IngressGate) (place : ℕ) (g : Gate)
          → get_elem? (map of_gate gates) place ≡ some g
          → IsWaiting gates [] place g
      at_start [] place g e = cc e
      at_start (gate ∷ gates) zero g e = rw (← some-injective (of_gate gate) g e) (refl, tt)
      at_start (gate ∷ gates) (suc place) g e = later g (at_start gates place g e)
        where
          later :
              (g : Gate) → IsWaiting gates [] place g → IsWaiting (gate ∷ gates) [] (suc place) g
          later (opening l) h = h
          later (accepting l conns) h = tt
  Becomes-Ended n x (walk {n = k} {q = q} run turn) =
      turn-Ended k q x run (Becomes-Ended k (alive q) run) turn

-- The listeners off these places are as they were at the start.
Untouched : List IngressGate → List ℕ → List Gate → Type 0
Untouched gates places now =
    (place : ℕ) (gate : IngressGate)
    → get_elem? gates place ≡ some gate
    → IsOff place places
    → get_elem? now place ≡ some (of_gate gate)

module _ (net : NetLibrary) (server : Server) where
  Exits : Type 0
  Exits = (n : ℕ) × Becomes net server.auth (launch server) n exited

  -- A process in which these listeners have opened.
  HasOpened : List ℕ → List String → Type 0
  HasOpened places sockets =
      (n : ℕ) × (q : Process) × Becomes net server.auth (launch server) n (alive q)
      × (q.sockets ≡ sockets)
      × Untouched server.gates places q.gates

  fatal-Exits :
      (places : List ℕ) (sockets : List String) (place : ℕ) (gate : IngressGate)
      → HasOpened places sockets
      → get_elem? server.gates place ≡ some gate
      → IsOff place places
      → net.listen sockets gate.listen ≡ none
      → Exits
  unfolding HasOpened Untouched gate_step new_listener Exits
  fatal-Exits places sockets place gate (n, q, run, same, others) at off e =
      let bound : net.listen q.sockets gate.listen ≡ none = rw same e in
      (
        suc n,
        walk run
            (fatal place (of_gate gate) (others place gate at off) (rw (bound, gate_step) refl)),
      )

  open_next :
      (places : List ℕ) (sockets : List String) (place : ℕ) (gate : IngressGate) (conns : _)
      → HasOpened places sockets
      → get_elem? server.gates place ≡ some gate
      → IsOff place places
      → net.listen sockets gate.listen ≡ some conns
      → HasOpened (place ∷ places) (gate.listen ∷ sockets)
  unfolding HasOpened Untouched gate_step new_listener
  open_next places sockets place gate conns (n, q, run, same, others) at off e =
      let bound : net.listen q.sockets gate.listen ≡ some conns = rw same e in
      let opens : gate_step net q.sockets (of_gate gate)
          ≡ goes (gate.listen ∷ q.sockets) (accepting (new_listener gate) conns) [] =
        rw (bound, gate_step) refl in
      (
        suc n,
        _,
        walk run (
            listener place (gate.listen ∷ q.sockets) (of_gate gate)
              (accepting (new_listener gate) conns) [] (others place gate at off) opens),
        ap (◌∷◌ gate.listen) same,
        λ other found found_at (away, off').
            get_elem?-set_ne q.gates place other (accepting (new_listener gate) conns) away
            ∙ others other found found_at off',
      )

  Opened-Exits :
      (places : List ℕ) (sockets : List String)
      → Opened server.gates places sockets
      → Exits ⊎ HasOpened places sockets
  unfolding HasOpened Untouched launch
  Opened-Exits places sockets none_open =
      inr (0, launch server, stay, refl, λ place gate at off. get_elem?-map server.gates place at)
  Opened-Exits places sockets (one_more before used place gate opened at off) =
      elim (Opened-Exits before used opened) [
        | inl exits ↦ inl exits
        | inr so_far ↦ elim (Option-cases (net.listen used gate.listen)) [
          | inl e ↦ inl (fatal-Exits before used place gate so_far at off e)
          | inr (conns, e) ↦ inr (open_next before used place gate conns so_far at off e)
        ]
      ]

  -- On a sound store with narrow bit areas, when the peers send bytes: the process can end exactly if
  -- one of its listeners cannot listen on its address while certain others, opened in some order, do.
  pub process_exits_iff :
      IsFit server.store
      → AdmitsAll SendsBytes net
      → ((n : ℕ) × Becomes net server.auth (launch server) n exited) ↔ CannotListen net server.gates
  unfolding Ended Exits
  process_exits_iff fit bytes = (
    λ (n, run). Becomes-Ended net server fit bytes n exited run,
    λ (places, sockets, place, gate, opened, at, off, e).
        elim (Opened-Exits places sockets opened) [
          | inl exits ↦ exits
          | inr so_far ↦ fatal-Exits places sockets place gate so_far at off e
        ],
  )
