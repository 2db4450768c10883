-- ===== src/RawIngest/Spec/Stream.antt =====
-- HandleConn of internal/transport/rawingest/handle_conn.go against the contract.
use mma.Base.{
  ℕ, zero, suc, ◌<◌, ◌≡◌, inl, inr, refl, sym, ◌∙◌, arith, List, [], ◌∷◌, ◌++◌, length, append_nil,
  append_snoc, All, Outcome, ok, err, panic,
}
use mma.Words.{IsByte}
use mma.Golang.Reader.{eof, unexpected_eof}
use mma.Memorycore.Memory.WellFormed.{SameLayouts}
use mma.Memorycore.Memory.BitAreas.{write_bits-SameLayouts}
use mma.Memorycore.Memory.RegAreas.{write_regs-SameLayouts}
use mma.Memorycore.Store.{Store}
use mma.Memorycore.Store.WellFormed.{
  IsSoundStore, IsNarrowStore, update-IsSoundStore, update-IsNarrowStore,
}
use mma.Memorycore.Units.Views.{units}
use mma.RawIngest.Decoder.{
  Packet, PacketError, io, bad_magic, bad_version, count_is_zero, invalid_area, resp_rejected,
  decode_one,
}
use mma.RawIngest.Decoder.Packets.{Decoded, decode_one-Decoded, decode_one-sizes}
use mma.RawIngest.Conn.{Feed, done, ingest_one, ingest_loop, handle_conn}
use mma.RawIngest.Conn.Effects.{Writes, Ingested, rejected, accepted, apply_packet-IngestEnds}
use mma.RawIngest.Spec.{Feeds, ended, broken, fed}
use mma.RawIngest.Spec.Ingests.{apply_packet-IsIngested}

-- What a packet keeps.
pub packet_keeps :
    (s s' : Store) (pkt : Packet) (resp : ℕ)
    → IsSoundStore s
    → IsNarrowStore s
    → Ingested s pkt resp s'
    → IsSoundStore s' × IsNarrowStore s'
packet_keeps s s' pkt resp w n (rejected r e) = rw e (w, n)
packet_keeps s s' pkt resp w n (accepted p m m' r g d how wm e) =
    rw e (update-IsSoundStore s p m' w wm, update-IsNarrowStore s p m' m d (like how) n)
  where
    like : Writes pkt m m' → SameLayouts m m'
    like (inl h) = write_bits-SameLayouts m pkt.area pkt.address pkt.count pkt.payload h
    like (inr h) =
        write_regs-SameLayouts m pkt.area pkt.address pkt.count pkt.payload (w.formed p m d) h

-- The connection after a rejection that ends it.
abbrev closed : Feed → Feed
closed c = record c { sent = c.sent ++ (resp_rejected ∷ []) }

module _ (port : ℕ) where
  record IsReady (c : Feed) : Type 0 where
    sound : IsSoundStore c.store
    narrow : IsNarrowStore c.store
    bytes : All IsByte c.input

  Answers : ℕ → Feed → Type 0
  Answers fuel c =
      (c' : Feed) × (sent : List ℕ) × (ingest_loop fuel port c ≡ done c')
      × (c'.sent ≡ c.sent ++ sent)
      × Feeds port (units c.store) c.input sent (units c'.store)

  -- The end of the stream, and bytes that are no packet.
  no_packet :
      (fuel : ℕ) (c : Feed) (e : PacketError)
      → decode_one c.input port ≡ err e
      → Answers (suc fuel) c
  unfolding ingest_loop ingest_one Answers
  no_packet fuel c (io eof) q =
      (c, [], rw (q, ingest_one, ingest_loop) refl, sym (append_nil c.sent), ended _ _ q)
  no_packet fuel c (io unexpected_eof) q =
      (closed c, _, rw (q, ingest_one, ingest_loop) refl, refl, broken _ _ _ q (λ e. cc))
  no_packet fuel c bad_magic q =
      (closed c, _, rw (q, ingest_one, ingest_loop) refl, refl, broken _ _ _ q (λ e. cc))
  no_packet fuel c bad_version q =
      (closed c, _, rw (q, ingest_one, ingest_loop) refl, refl, broken _ _ _ q (λ e. cc))
  no_packet fuel c count_is_zero q =
      (closed c, _, rw (q, ingest_one, ingest_loop) refl, refl, broken _ _ _ q (λ e. cc))
  no_packet fuel c invalid_area q =
      (closed c, _, rw (q, ingest_one, ingest_loop) refl, refl, broken _ _ _ q (λ e. cc))

  ingest_loop-Answers : (fuel : ℕ) (c : Feed) → length c.input < fuel → IsReady c → Answers fuel c
  unfolding Answers
  ingest_loop-Answers zero c less h = absurd (omega arith)
  ingest_loop-Answers (suc fuel) c less h =
      decoded (λ c' l r. ingest_loop-Answers fuel c' l r) (decode_one c.input port) refl
        (decode_one-Decoded c.input port h.bytes)
    where
      decoded :
          ((c' : Feed) → length c'.input < fuel → IsReady c' → Answers fuel c')
          → (o : Outcome PacketError (Packet × List ℕ)) → decode_one c.input port ≡ o
          → Decoded c.input port o
          → Answers (suc fuel) c
      decoded ih (err e) q d = no_packet fuel c e q
      decoded ih panic q d = absurd d
      decoded ih (ok (pkt, rest)) q (less_rest, _, payload, tail) =
          unfold ingest_loop in
          unfold ingest_one in
          unfold Answers in
          let (shorter, sized) = decode_one-sizes c.input port q in
          let (resp, s', e, ingested) =
            apply_packet-IsIngested c.store pkt h.sound h.narrow payload sized in
          let effect : Ingested c.store pkt resp s' =
            rw e at (apply_packet-IngestEnds c.store pkt h.sound payload) in
          let (sound', narrow') = packet_keeps c.store s' pkt resp h.sound h.narrow effect in
          let c1 : Feed = record { store = s'; input = rest; sent = c.sent ++ (resp ∷ []) } in
          let (c2, sent, r, all, feeds) =
            ih c1 (omega arith) (record { sound = sound'; narrow = narrow'; bytes = tail }) in
          (
            c2,
            resp ∷ sent,
            rw (q, e, ingest_one, ingest_loop) r,
            all ∙ append_snoc c.sent sent resp,
            fed _ _ pkt rest resp _ sent _ q ingested feeds,
          )

  -- The raw-ingest HandleConn on a sound store with narrow bit areas, for a stream of bytes: it ends,
  -- and the response bytes and the units at its end are those that the contract of the stream gives.
  pub handle_conn-Feeds :
      (s : Store) (input : List ℕ)
      → IsSoundStore s
      → IsNarrowStore s
      → All IsByte input
      → (c : Feed) × (handle_conn port s input ≡ done c)
        × Feeds port (units s) input c.sent (units c.store)
  unfolding handle_conn Answers
  handle_conn-Feeds s input w n bytes =
      let (c, sent, e, all, feeds) =
        ingest_loop-Answers (suc (length input)) (record { store = s; input = input; sent = [] })
          (omega arith) (record { sound = w; narrow = n; bytes = bytes }) in
      (c, e, rw all feeds)
