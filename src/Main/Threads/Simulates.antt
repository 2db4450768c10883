-- ===== src/Main/Threads/Simulates.antt =====
-- Every schedule of the server's goroutines (internal/ingress/listener.go) is a run of the server as
-- its clients see it.
use mma.Base.{
  ℕ, ◌≡◌, inl, inr, refl, if-intro, Bool-cases, Option, none, some, List, length, All,
  All-get_elem?, All-set, Outcome, ok, err, panic,
}
use mma.Words.{IsByte}
use mma.Golang.Reader.{eof, unexpected_eof}
use mma.Memorycore.Store.{Store}
use mma.Memorycore.Store.WellFormed.{
  IsSoundStore, IsNarrowStore, update-IsSoundStore, update-IsNarrowStore,
}
use mma.Memorycore.Units.Views.{units}
use mma.Authority.Evaluate.{Authority}
use mma.Modbus.Wire.{Request, read_request}
use mma.Modbus.Wire.Framing.{read_request_cases, read_request-IsByte}
use mma.Modbus.Dispatch.{request_id}
use mma.Modbus.Dispatch.Effects.{Effect, kept, wrote, dispatch_memory-Ends}
use mma.Modbus.Conn.{Peer}
use mma.Modbus.Conn.Guards.{decide}
use mma.Modbus.Spec.Refines.{dispatch_memory-Obeys}
use mma.Modbus.Spec.Conversation.{is_sealed}
use mma.Modbus.Spec.Converses.{is_blocked-is_sealed}
use mma.RawIngest.Decoder.{
  Packet, PacketError, io, bad_magic, bad_version, count_is_zero, invalid_area, decode_one,
}
use mma.RawIngest.Decoder.Packets.{Decoded, decode_one-Decoded, decode_one-sizes}
use mma.RawIngest.Conn.{ingest_one}
use mma.RawIngest.Conn.Effects.{Ingested, apply_packet-IngestEnds}
use mma.RawIngest.Spec.Ingests.{apply_packet-IsIngested}
use mma.RawIngest.Spec.Stream.{packet_keeps}
use mma.Main.Threads.{
  Thread, reading, granted, ingesting, finished, drained, broken, admit, advance, System, Reaches,
  stay, walk,
}
use mma.Main.Threads.Spec.{
  Moves, left, sealed, denied, admitted, carried_out, ingested, emptied, dropped, Serves, none_yet,
  one_more,
}

-- A goroutine before a panic, whose peer sends bytes.
abbrev pub ReadsBytes : Thread → Type 0
ReadsBytes (reading peer input sent) = All IsByte input
ReadsBytes (granted peer req rest sent) = All IsByte req.payload × All IsByte rest
ReadsBytes (ingesting port input sent) = All IsByte input
ReadsBytes (finished sent) = Unit {0}
ReadsBytes (drained sent) = Unit {0}
ReadsBytes broken = ⊥

-- The stores on which the contract holds.
pub record IsFit (s : Store) : Type 0 where
  pub sound : IsSoundStore s
  pub narrow : IsNarrowStore s

request_keeps :
    (s : Store) (req : Request) (pdu : List ℕ) (s' : Store)
    → IsFit s
    → Effect s req pdu s'
    → IsFit s'
request_keeps s req pdu s' h (kept e) = rw e h
request_keeps s req pdu s' h (wrote p m m' g d wm like q echo code) = rw q (record {
  sound = update-IsSoundStore s p m' h.sound wm;
  narrow = update-IsNarrowStore s p m' m d like h.narrow;
})

module _ (auth : Authority) where
  -- What a step of the code shows.
  unfoldable pub Shows : Store → Thread → Option (Thread × Store) → Type 0
  Shows s t none = Unit {0}
  Shows s t (some (t', s')) = IsFit s' × ReadsBytes t' × Moves auth (units s) t t' (units s')

  admit-Shows :
      (s : Store) (peer : Peer) (input : List ℕ) (sent : List (List ℕ)) (req : Request)
      (rest : List ℕ)
      → IsFit s
      → read_request input peer.port ≡ ok (req, rest)
      → All IsByte req.payload
      → All IsByte rest
      → Shows s (reading peer input sent) (some (admit auth s peer req rest sent, s))
  unfolding admit Shows
  admit-Shows s peer input sent req rest h q payload tail =
      let same = is_blocked-is_sealed s (request_id req) h.sound h.narrow in
      elim (Bool-cases (is_sealed (units s (request_id req)))) [
        | inl shut ↦ rw (same, shut) (h, tail, sealed peer input sent req rest q shut)
        | inr open_ ↦ elim (Bool-cases (decide auth peer.src_ip req).allowed) [
          | inl allowed ↦
              rw (same, open_, allowed)
                (h, (payload, tail), admitted peer input sent req rest q open_ allowed)
          | inr refused ↦
              rw (same, open_, refused) (h, tail, denied peer input sent req rest q open_ refused)
        ]
      ]

  -- Bytes that are no packet end the connection.
  dropped-Shows :
      (s : Store) (port : ℕ) (input sent : List ℕ)
      → IsFit s
      → (e : PacketError) → decode_one input port ≡ err e
      → Shows s (ingesting port input sent) (advance auth s (ingesting port input sent))
  unfolding advance ingest_one Shows
  dropped-Shows s port input sent h (io eof) q =
      rw (q, ingest_one, advance, Shows) (h, tt, emptied port input sent q)
  dropped-Shows s port input sent h (io unexpected_eof) q =
      rw (q, ingest_one, advance, Shows) (h, tt, dropped port input sent _ q (λ e. cc))
  dropped-Shows s port input sent h bad_magic q =
      rw (q, ingest_one, advance, Shows) (h, tt, dropped port input sent _ q (λ e. cc))
  dropped-Shows s port input sent h bad_version q =
      rw (q, ingest_one, advance, Shows) (h, tt, dropped port input sent _ q (λ e. cc))
  dropped-Shows s port input sent h count_is_zero q =
      rw (q, ingest_one, advance, Shows) (h, tt, dropped port input sent _ q (λ e. cc))
  dropped-Shows s port input sent h invalid_area q =
      rw (q, ingest_one, advance, Shows) (h, tt, dropped port input sent _ q (λ e. cc))

  ingest-Shows :
      (s : Store) (port : ℕ) (input sent : List ℕ)
      → IsFit s
      → All IsByte input
      → (o : Outcome PacketError (Packet × List ℕ)) → decode_one input port ≡ o
      → Decoded input port o
      → Shows s (ingesting port input sent) (advance auth s (ingesting port input sent))
  unfolding advance ingest_one Shows
  ingest-Shows s port input sent h bytes (err e) q d = dropped-Shows s port input sent h e q
  ingest-Shows s port input sent h bytes panic q d = absurd d
  ingest-Shows s port input sent h bytes (ok (pkt, rest)) q (less, _, payload, tail) =
      let (shorter, sized) = decode_one-sizes input port q in
      let (resp, s', e, effect) = apply_packet-IsIngested s pkt h.sound h.narrow payload sized in
      let change : Ingested s pkt resp s' =
        rw e at (apply_packet-IngestEnds s pkt h.sound payload) in
      let (sound', narrow') = packet_keeps s s' pkt resp h.sound h.narrow change in
      rw (q, e, ingest_one, advance, Shows)
        (
          record { sound = sound'; narrow = narrow' },
          tail,
          ingested port input sent pkt rest resp (units s') q effect,
        )

  pub advance-Shows :
      (s : Store) (t : Thread) → IsFit s → ReadsBytes t → Shows s t (advance auth s t)
  unfolding advance Shows
  advance-Shows s (reading peer input sent) h bytes = elim (read_request_cases input peer.port) [
    | inl (e, r) ↦ rw (r, advance, Shows) (h, tt, left peer input sent e r)
    | inr (req, rest, r, takes, port) ↦
        let (unit, code, payload, tail) = read_request-IsByte input peer.port bytes r in
        rw (r, advance, Shows) (admit-Shows s peer input sent req rest h r payload tail)
  ]
  advance-Shows s (granted peer req rest sent) h (payload, tail) =
      let (pdu, s', e, obeys) = dispatch_memory-Obeys s req h.sound h.narrow payload in
      rw (e, advance, Shows)
        (
          request_keeps s req pdu s' h (rw e at (dispatch_memory-Ends s req h.sound)),
          if-intro ReadsBytes (peer.writable (length sent)) tail tt,
          carried_out peer req rest sent pdu (units s') obeys,
        )
  advance-Shows s (ingesting port input sent) h bytes =
      ingest-Shows s port input sent h bytes (decode_one input port) refl
        (decode_one-Decoded input port bytes)
  advance-Shows s (finished sent) h k = tt
  advance-Shows s (drained sent) h k = tt
  advance-Shows s broken h k = tt

  -- Any schedule of the goroutines of a sound store with narrow bit areas, whose peers send bytes, is a
  -- run of as many steps of the server as its clients see it: it has the same connections, and its
  -- units are those of the stores. No goroutine panics, and the store stays sound and narrow.
  pub schedule-Serves :
      (x : System) (n : ℕ) (y : System)
      → Reaches auth x n y
      → IsFit x.store
      → All ReadsBytes x.threads
      → Serves auth (units x.store) x.threads n (units y.store) y.threads
        × IsFit y.store
        × All ReadsBytes y.threads
  unfolding Shows
  schedule-Serves x n y stay h ts = (none_yet, h, ts)
  schedule-Serves x n y (walk {n = k} {y = z} r s) h ts =
      let (run, fit, us) = schedule-Serves x k z r h ts in
      let bytes = All-get_elem? ReadsBytes z.threads s.place us s.chosen in
      let shown = advance-Shows z.store s.before fit bytes in
      let (fit', bytes', move) = coe 0 1 (i. Shows z.store s.before (s.moved i)) shown in
      rw s.others (
        one_more k (units z.store) z.threads s.place s.before s.after (units y.store) run s.chosen
            move,
        fit',
        All-set ReadsBytes z.threads s.place s.after us bytes',
      )
