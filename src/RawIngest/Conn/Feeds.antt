-- ===== src/RawIngest/Conn/Feeds.antt =====
-- HandleConn of internal/transport/rawingest/handle_conn.go, from the first byte to the last.
use mma.Base.{
  ℕ, zero, suc, ◌<◌, ◌≡◌, ◌≢◌, ◌⊎◌, inl, inr, refl, ◌∙◌, ap, arith, some, List, [], ◌∷◌, ◌++◌,
  length, All, Outcome, ok, err, panic,
}
use mma.Words.{IsByte}
use mma.Golang.Reader.{eof, unexpected_eof}
use mma.Memorycore.Store.{MemoryId, Store, Pointer, deref, get}
use mma.Memorycore.Store.WellFormed.{IsSoundStore, get-update, deref-update_ne, update-IsSoundStore}
use mma.RawIngest.Decoder.{
  Packet, PacketError, io, bad_magic, bad_version, count_is_zero, invalid_area, resp_ok,
  resp_rejected, decode_one,
}
use mma.RawIngest.Decoder.Packets.{Decoded, decode_one-Decoded}
use mma.RawIngest.Conn.{
  packet_id, Written, apply_packet, Feed, Progress, next, done, crashed, stuck, ingest_one,
  ingest_loop, handle_conn,
}
use mma.RawIngest.Conn.Effects.{Ingested, rejected, accepted, IngestEnds, apply_packet-IngestEnds}

-- A response byte: OK or REJECTED.
abbrev pub IsResponse : ℕ → Type 0
IsResponse b = (b ≡ resp_ok) ⊎ (b ≡ resp_rejected)

All-append_one :
    (xs : List ℕ) (b : ℕ) → All IsResponse xs → IsResponse b → All IsResponse (xs ++ b ∷ [])
All-append_one [] b h p = (p, tt)
All-append_one (x ∷ xs) b h p = (h.0, All-append_one xs b h.1 p)

Ingested-IsResponse :
    (s s' : Store) (pkt : Packet) (resp : ℕ) → Ingested s pkt resp s' → IsResponse resp
Ingested-IsResponse s s' pkt resp (rejected r e) = inr r
Ingested-IsResponse s s' pkt resp (accepted p m m' r g d how wm e) = inl r

-- A property of the store that every packet for this port keeps.
module _ (port : ℕ) (P : Store → Type 0) (sound : (s : Store) → P s → IsSoundStore s)
    (keep : (s s' : Store) (pkt : Packet) (resp : ℕ)
      → P s
      → pkt.port ≡ port
      → Ingested s pkt resp s'
      → P s') where
  -- What the loop carries along.
  unfoldable pub Held : Feed → Type 0
  Held c = P c.store × All IsByte c.input × All IsResponse c.sent

  unfoldable pub Steps : ℕ → Progress → Type 0
  Steps n (next c) = (length c.input < n) × Held c
  Steps n (done c) = Held c
  Steps n crashed = ⊥
  Steps n stuck = ⊥

  failed :
      (c : Feed) (e : PacketError)
      → Held c
      → decode_one c.input port ≡ err e
      → Steps (length c.input) (ingest_one port c)
  unfolding ingest_one Steps Held
  failed c e (h, bytes, responses) q =
      let more = All-append_one c.sent 1 responses (inr refl) in
      elim e
          as (λ x. decode_one c.input port ≡ err x → Steps (length c.input) (ingest_one port c)) [
            | io eof ↦ λ r. rw (r, ingest_one) (h, bytes, responses)
            | io unexpected_eof ↦ λ r. rw (r, ingest_one) (h, bytes, more)
            | bad_magic ↦ λ r. rw (r, ingest_one) (h, bytes, more)
            | bad_version ↦ λ r. rw (r, ingest_one) (h, bytes, more)
            | count_is_zero ↦ λ r. rw (r, ingest_one) (h, bytes, more)
            | invalid_area ↦ λ r. rw (r, ingest_one) (h, bytes, more)
          ]
        q

  applied :
      (c : Feed) (pkt : Packet) (rest : List ℕ) (o : Written)
      → Held c
      → decode_one c.input port ≡ ok (pkt, rest)
      → Decoded c.input port (ok (pkt, rest))
      → apply_packet c.store pkt ≡ o
      → IngestEnds c.store pkt o
      → Steps (length c.input) (ingest_one port c)
  unfolding ingest_one Steps Held
  applied c pkt rest (ok (resp, s)) (h, bytes, responses) q (less, port_eq, _, rest_bytes) e
        effect =
      rw (q, e, ingest_one)
        (
          omega arith,
          (
            keep c.store s pkt resp h port_eq effect,
            rest_bytes,
            All-append_one c.sent resp responses (Ingested-IsResponse c.store s pkt resp effect),
          ),
        )
  applied c pkt rest (err x) held q d e effect = absurd effect
  applied c pkt rest panic held q d e effect = absurd effect

  pub ingest_one-Steps : (c : Feed) → Held c → Steps (length c.input) (ingest_one port c)
  unfolding Held
  ingest_one-Steps c held =
      decoded (decode_one c.input port) refl (decode_one-Decoded c.input port held.1)
    where
      decoded :
          (o : Outcome PacketError (Packet × List ℕ))
          → decode_one c.input port ≡ o
          → Decoded c.input port o
          → Steps (length c.input) (ingest_one port c)
      decoded (ok (pkt, rest)) q d =
          applied c pkt rest (apply_packet c.store pkt) held q d refl
            (apply_packet-IngestEnds c.store pkt (sound c.store held.0) d.2)
      decoded (err e) q d = failed c e held q
      decoded panic q d = absurd d

  ingest_loop-Held :
      (fuel : ℕ) (c : Feed)
      → length c.input < fuel
      → Held c
      → (c' : Feed) × (ingest_loop fuel port c ≡ done c') × Held c'
  unfolding ingest_loop Steps
  ingest_loop-Held zero c less held = absurd (omega arith)
  ingest_loop-Held (suc fuel) c less held =
      run (λ c' l h. ingest_loop-Held fuel c' l h) (ingest_one port c) refl
        (ingest_one-Steps c held)
    where
      run :
          ((c' : Feed)
            → length c'.input < fuel
            → Held c'
            → (c'' : Feed) × (ingest_loop fuel port c' ≡ done c'') × Held c'')
          → (o : Progress) → ingest_one port c ≡ o
          → Steps (length c.input) o
          → (c' : Feed) × (ingest_loop (suc fuel) port c ≡ done c') × Held c'
      run ih (next c') q (shorter, held') =
          let (c'', r, h) = ih c' (omega arith) held' in (c'', rw (q, ingest_loop) r, h)
      run ih (done c') q held' = (c', rw (q, ingest_loop) refl, held')
      run ih crashed q bad = absurd bad
      run ih stuck q bad = absurd bad

  feed_keeps :
      (s : Store) (input : List ℕ)
      → P s
      → All IsByte input
      → (c' : Feed) × (handle_conn port s input ≡ done c') × P c'.store × All IsResponse c'.sent
  unfolding handle_conn Held
  feed_keeps s input h bytes =
      let (c', e, (p, _, r)) =
        ingest_loop-Held (suc (length input)) (record { store = s; input = input; sent = [] })
          (omega arith) (h, bytes, tt) in
      (c', e, p, r)

module _ (port : ℕ) (s : Store) (input : List ℕ) (w : IsSoundStore s)
    (bytes : All IsByte input) where
  Ingested-IsSoundStore :
      (t t' : Store) (pkt : Packet) (resp : ℕ)
      → IsSoundStore t
      → Ingested t pkt resp t'
      → IsSoundStore t'
  Ingested-IsSoundStore t t' pkt resp wt (rejected r e) = rw e wt
  Ingested-IsSoundStore t t' pkt resp wt (accepted p m m' r g d how wm e) =
      rw e (update-IsSoundStore t p m' wt wm)

  -- On a sound store the raw-ingest HandleConn ends on every input of bytes: no panic, and the fuel is
  -- enough. The store is sound at the end, and every byte sent is OK or REJECTED.
  pub handle_conn_ends :
      (c' : Feed) × (handle_conn port s input ≡ done c')
      × IsSoundStore c'.store
      × All IsResponse c'.sent
  handle_conn_ends =
      feed_keeps port IsSoundStore (λ t h. h)
        (λ t t' pkt resp h _ e. Ingested-IsSoundStore t t' pkt resp h e) s input w bytes

  -- A raw-ingest connection to one port leaves the memories of every other port as they were, on a
  -- sound store and an input of bytes.
  pub handle_conn_confined :
      (id : MemoryId) (p : Pointer)
      → id.port ≢ port
      → get (some s) id ≡ some p
      → (c' : Feed) × (handle_conn port s input ≡ done c')
        × (get (some c'.store) id ≡ some p)
        × (deref c'.store p ≡ deref s p)
  handle_conn_confined id p other here =
      let (c', e, (_, (g, d)), _) =
        feed_keeps port
          (λ t. IsSoundStore t × ((get (some t) id ≡ some p) × (deref t p ≡ deref s p)))
          (λ t h. h.0) step s input (w, (here, refl)) bytes in
      (c', e, g, d)
    where
      step :
          (t t' : Store) (pkt : Packet) (resp : ℕ)
          → IsSoundStore t × ((get (some t) id ≡ some p) × (deref t p ≡ deref s p))
          → pkt.port ≡ port
          → Ingested t pkt resp t'
          → IsSoundStore t' × ((get (some t') id ≡ some p) × (deref t' p ≡ deref s p))
      step t t' pkt resp h pe (rejected r e) = rw e h
      step t t' pkt resp (wt, (g, d)) pe (accepted q m m' r gq dq how wm e) =
          let apart : q ≢ p = λ same. other (
            ap (λ (j : MemoryId). j.port) (wt.unshared id (packet_id pkt) p g (rw same at gq))
            ∙ pe) in
          rw e (
            update-IsSoundStore t q m' wt wm,
            (get-update t q m' id ∙ g, deref-update_ne t q m' p apart ∙ d),
          )
