-- ===== src/RawIngest/Conn/Shrinks.antt =====
-- A round of the loop in internal/transport/rawingest/handle_conn.go takes bytes of the input.
use mma.Base.{ℕ, ◌<◌, ◌≡◌, refl, arith, List, length, Outcome, ok, err, panic}
use mma.RawIngest.Decoder.{
  Packet, PacketError, io, bad_magic, bad_version, count_is_zero, invalid_area, decode_one,
}
use mma.Golang.Reader.{eof, unexpected_eof}
use mma.RawIngest.Decoder.Packets.{decode_one-length}
use mma.RawIngest.Conn.{Written, apply_packet, Feed, Progress, next, ingest_one}

abbrev pub Shorter : ℕ → Progress → Type 0
Shorter n (next c) = length c.input < n
Shorter n _ = Unit {0}

pub ingest_one-Shorter : (port : ℕ) (c : Feed) → Shorter (length c.input) (ingest_one port c)
unfolding ingest_one
ingest_one-Shorter port c = decoded (decode_one c.input port) refl
  where
    applied :
        (pkt : Packet) (rest : List ℕ) (o : Written)
        → apply_packet c.store pkt ≡ o
        → decode_one c.input port ≡ ok (pkt, rest)
        → Shorter (length c.input) (ingest_one port c)
    applied pkt rest (ok (resp, s)) e q =
        rw (q, e, ingest_one) (omega (arith, decode_one-length c.input port q))
    applied pkt rest (err x) e q = rw (q, e, ingest_one) tt
    applied pkt rest panic e q = rw (q, e, ingest_one) tt

    decoded :
        (o : Outcome PacketError (Packet × List ℕ))
        → decode_one c.input port ≡ o
        → Shorter (length c.input) (ingest_one port c)
    decoded (ok (pkt, rest)) q = applied pkt rest (apply_packet c.store pkt) refl q
    decoded (err (io eof)) q = rw (q, ingest_one) tt
    decoded (err (io unexpected_eof)) q = rw (q, ingest_one) tt
    decoded (err bad_magic) q = rw (q, ingest_one) tt
    decoded (err bad_version) q = rw (q, ingest_one) tt
    decoded (err count_is_zero) q = rw (q, ingest_one) tt
    decoded (err invalid_area) q = rw (q, ingest_one) tt
    decoded panic q = rw (q, ingest_one) tt
