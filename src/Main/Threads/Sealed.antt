-- ===== src/Main/Threads/Sealed.antt =====
-- What no schedule of the server's goroutines can do (internal/ingress/listener.go).
use mma.Base.{ℕ, ◌≡◌, ◌≢◌, refl, sym, ◌∙◌, ap, true, some, List, All}
use mma.Memorycore.Store.{MemoryId, Store, Pointer, deref, get, update}
use mma.Memorycore.Memory.{Memory}
use mma.Memorycore.Memory.WellFormed.{IsWellFormed}
use mma.Memorycore.Store.WellFormed.{IsSoundStore, get-update, deref-update_ne, update-IsSoundStore}
use mma.Authority.Evaluate.{Authority}
use mma.Modbus.Wire.{Request}
use mma.Modbus.Dispatch.{request_id}
use mma.Modbus.Dispatch.Effects.{Effect, kept, wrote}
use mma.Modbus.Conn.{is_blocked}
use mma.RawIngest.Decoder.{Packet}
use mma.RawIngest.Conn.{packet_id}
use mma.RawIngest.Conn.Effects.{Ingested, rejected, accepted}
use mma.Main.Threads.{Thread, System, Reaches}
use mma.Main.Threads.Invariants.{Known, schedule_keeps}

-- Any port, any request.
abbrev pub AnyPort : ℕ → Type 0
AnyPort port = Unit {0}

abbrev pub AnyRequest : Request → Type 0
AnyRequest req = Unit {0}

Effect-IsSoundStore :
    (s : Store) (req : Request) (pdu : List ℕ) (s' : Store)
    → IsSoundStore s
    → Effect s req pdu s'
    → IsSoundStore s'
Effect-IsSoundStore s req pdu s' w (kept e) = rw e w
Effect-IsSoundStore s req pdu s' w (wrote p m m' g d wm like q echo code) =
    rw q (update-IsSoundStore s p m' w wm)

Ingested-IsSoundStore :
    (s s' : Store) (pkt : Packet) (resp : ℕ)
    → IsSoundStore s
    → Ingested s pkt resp s'
    → IsSoundStore s'
Ingested-IsSoundStore s s' pkt resp w (rejected r e) = rw e w
Ingested-IsSoundStore s s' pkt resp w (accepted p m m' r g d how wm e) =
    rw e (update-IsSoundStore s p m' w wm)

-- The memory that an identifier reaches, in a sound store.
module _ (id : MemoryId) (p : Pointer) (m : Memory) where
  abbrev pub Holds : Store → Type 0
  Holds s = IsSoundStore s × (get (some s) id ≡ some p) × (deref s p ≡ some m)

  update-Holds :
      (s : Store) (j : MemoryId) (p' : Pointer) (m' : Memory)
      → Holds s
      → IsWellFormed m'
      → get (some s) j ≡ some p'
      → j ≢ id
      → Holds (update s p' m')
  update-Holds s j p' m' (w, g, d) wm found other = (
    update-IsSoundStore s p' m' w wm,
    get-update s p' m' id ∙ g,
    deref-update_ne s p' m' p (λ e. other (w.unshared j id p (rw e at found) g)) ∙ d,
  )

  Effect-Holds :
      (s : Store) (req : Request) (pdu : List ℕ) (s' : Store)
      → Holds s
      → request_id req ≢ id
      → Effect s req pdu s'
      → Holds s'
  Effect-Holds s req pdu s' h other (kept e) = rw e h
  Effect-Holds s req pdu s' h other (wrote p' m0 m' g d wm like q echo code) =
      rw q (update-Holds s (request_id req) p' m' h wm g other)

  Ingested-Holds :
      (s s' : Store) (port : ℕ) (pkt : Packet) (resp : ℕ)
      → Holds s
      → port ≢ id.port
      → pkt.port ≡ port
      → Ingested s pkt resp s'
      → Holds s'
  Ingested-Holds s s' port pkt resp h other e (rejected r q) = rw q h
  Ingested-Holds s s' port pkt resp h other e (accepted p' m0 m' r g d how wm q) = rw q (
      update-Holds s (packet_id pkt) p' m' h wm g
        (λ same. other (sym e ∙ ap (λ (j : MemoryId). j.port) same)))

-- Whether it is blocked does not depend on the rest of the store.
Holds-is_blocked :
    (id : MemoryId) (p : Pointer) (m : Memory) (s s' : Store)
    → Holds id p m s
    → Holds id p m s'
    → is_blocked s id ≡ is_blocked s' id
unfolding is_blocked
Holds-is_blocked id p m s s' (w, g, d) (w', g', d') = rw (g, d, g', d', is_blocked) refl

-- A goroutine before a panic: its input and its responses are as they should be.
abbrev pub IsSoundThread : Thread → Type 0
IsSoundThread t = Known AnyPort AnyRequest AnyPort t

-- A goroutine that serves other ports than this one.
abbrev pub AvoidsPort : ℕ → Thread → Type 0
AvoidsPort port t = Known (λ n. n ≢ port) (λ req. req.port ≢ port) (λ n. n ≢ port) t

-- A goroutine without a granted request for this memory, that takes no packets for its port.
abbrev pub HasNoGrant : MemoryId → Thread → Type 0
HasNoGrant id t = Known AnyPort (λ req. request_id req ≢ id) (λ n. n ≢ id.port) t

module _ (auth : Authority) (x : System) (n : ℕ) (y : System) (r : Reaches auth x n y) where
  -- However the goroutines of a sound store are interleaved, no goroutine panics, and the store stays
  -- sound.
  pub schedule-IsSoundStore :
      IsSoundStore x.store
      → All IsSoundThread x.threads
      → IsSoundStore y.store × All IsSoundThread y.threads
  schedule-IsSoundStore w ts =
      schedule_keeps auth IsSoundStore AnyPort AnyRequest AnyPort (λ s w. w)
        (λ s peer req _ _ _ _. tt) (λ s req pdu s' w _ e. Effect-IsSoundStore s req pdu s' w e)
        (λ s s' port pkt resp w _ _ i. Ingested-IsSoundStore s s' pkt resp w i) x n y r w ts

  -- However goroutines that serve other ports are interleaved, a memory of a sound store stays
  -- registered, and as it was.
  pub schedule_isolates :
      (id : MemoryId) (p : Pointer) (m : Memory)
      → Holds id p m x.store
      → All (AvoidsPort id.port) x.threads
      → Holds id p m y.store
  schedule_isolates id p m h ts =
      let (k, _) =
        schedule_keeps auth (Holds id p m) (λ n. n ≢ id.port) (λ req. req.port ≢ id.port)
          (λ n. n ≢ id.port) (λ s h. h.0) (λ s peer req h other e _. λ q. other (sym e ∙ q))
          (λ s req pdu s' h other e.
            Effect-Holds id p m s req pdu s' h (λ q. other (ap (λ (j : MemoryId). j.port) q)) e)
          (λ s s' port pkt resp h other e i. Ingested-Holds id p m s s' port pkt resp h other e i) x
          n y r h ts in
      k

  -- A memory that is blocked stays as it was, and no request for it is granted.
  pub sealed_run :
      (id : MemoryId) (p : Pointer) (m : Memory)
      → Holds id p m x.store
      → is_blocked x.store id ≡ true
      → All (HasNoGrant id) x.threads
      → Holds id p m y.store × All (HasNoGrant id) y.threads
  sealed_run id p m h blocked ts =
      schedule_keeps auth (Holds id p m) AnyPort (λ req. request_id req ≢ id) (λ n. n ≢ id.port)
        (λ s h. h.0)
        (λ s peer req h1 _ _ open_.
          λ q. cc (ap (is_blocked s) q, open_, Holds-is_blocked id p m x.store s h h1, blocked))
        (λ s req pdu s' h other e. Effect-Holds id p m s req pdu s' h other e)
        (λ s s' port pkt resp h other e i. Ingested-Holds id p m s s' port pkt resp h other e i) x n
        y r h ts

  -- However the goroutines are interleaved, a memory of a sound store that state sealing blocks stays
  -- as it was, as long as no request for it was granted before and no connection sends raw packets to
  -- its port.
  pub schedule_keeps_sealed :
      (id : MemoryId) (p : Pointer) (m : Memory)
      → Holds id p m x.store
      → is_blocked x.store id ≡ true
      → All (HasNoGrant id) x.threads
      → Holds id p m y.store × (is_blocked y.store id ≡ true)
  schedule_keeps_sealed id p m h blocked ts =
      let (k, _) = sealed_run id p m h blocked ts in
      (k, Holds-is_blocked id p m y.store x.store k h ∙ blocked)
