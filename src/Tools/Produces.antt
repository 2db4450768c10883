-- ===== src/Tools/Produces.antt =====
-- The producer of tools/raw_ingest_test.go and the server of cmd/mma2/main.go together.
use mma.Base.{ℕ, ◌≡◌, refl, arith, ◌∙◌, Option, some, List, [], ◌∷◌, Outcome, ok, err}
use mma.Words.{load_u16, store_u16}
use mma.Golang.Reader.{eof, read_full}
use mma.Memorycore.Area.{is_bit_area, is_reg_area}
use mma.Memorycore.Store.{Store}
use mma.Memorycore.Store.WellFormed.{IsSoundStore, IsNarrowStore}
use mma.Memorycore.Units.Views.{units}
use mma.Authority.Evaluate.{Authority}
use mma.Modbus.Conn.{Peer}
use mma.RawIngest.Decoder.{Packet, PacketError, io, payload_len, decode_one}
use mma.RawIngest.Conn.{done, ingest_one, ingest_loop, apply_packet, handle_conn}
use mma.RawIngest.Spec.{IsIngested}
use mma.RawIngest.Spec.Ingests.{apply_packet-IsIngested}
use mma.Ingress.{classify, route}
use mma.Main.{Served, by_raw_ingest, serve, store_after}
use mma.Tools.{first_byte, build_packet, main}

-- The bytes of the packet, and what they mean to the server.
abbrev pub packet_bytes : List ℕ
packet_bytes = b'R' ∷ b'I' ∷ 1 ∷ 3 ∷ 0 ∷ 1 ∷ 0 ∷ 10 ∷ 0 ∷ 1 ∷ 0x12 ∷ 0x34 ∷ []

abbrev pub produced : ℕ → Packet
produced port = record {
  port = port;
  unit_id = 1;
  area = 3;
  address = 10;
  count = 1;
  payload = 0x12 ∷ 0x34 ∷ [];
}

built :
    (connection : List ℕ → List ℕ)
    → main {E = PacketError} (some (λ pkt. some (connection pkt)))
      ≡ first_byte (connection packet_bytes)
unfolding main build_packet store_u16
built connection = refl

decoded : (port : ℕ) → decode_one packet_bytes port ≡ ok (produced port, [])
unfolding decode_one read_full load_u16 payload_len is_bit_area is_reg_area
decoded port = refl

empty_stream : (port : ℕ) → decode_one [] port ≡ err (io eof)
unfolding decode_one read_full
empty_stream port = refl

-- One packet is answered, and then the stream is at its end.
one_packet :
    (port : ℕ) (s : Store) (resp : ℕ) (s' : Store)
    → apply_packet s (produced port) ≡ ok (resp, s')
    → handle_conn port s packet_bytes ≡ done (record { store = s'; input = []; sent = resp ∷ [] })
unfolding handle_conn ingest_loop ingest_one
one_packet port s resp s' e =
    rw (decoded port, e, empty_stream port, ingest_one, ingest_loop, handle_conn) refl

-- The bytes that raw ingest sends back over a connection.
abbrev pub responses : Option Served → List ℕ
responses (some (by_raw_ingest (done c))) = c.sent
responses _ = []

module _ (auth : Authority) (peer : Peer) (s : Store) where
  -- The producer and the server, connected.
  abbrev pub exchange : Outcome PacketError ℕ
  exchange = main (some (λ pkt. some (responses (serve auth peer s pkt))))

  served :
      (resp : ℕ) (s' : Store)
      → handle_conn peer.port s packet_bytes
        ≡ done (record { store = s'; input = []; sent = resp ∷ [] })
      → serve auth peer s packet_bytes
        ≡ some (by_raw_ingest (done (record { store = s'; input = []; sent = resp ∷ [] })))
  unfolding serve route classify
  served resp s' e = rw (e, serve, route, classify) refl

  -- On a sound store with narrow bit areas, the producer connected to the server prints the response
  -- that the contract of raw ingest gives for the register 10 of the unit 1 of the port, with the value
  -- 0x1234, and the units are afterwards as this contract says.
  pub main-IsIngested :
      IsSoundStore s
      → IsNarrowStore s
      → (resp : ℕ) × (s' : Store) × (exchange ≡ ok resp)
        × (store_after s (serve auth peer s packet_bytes) ≡ some s')
        × IsIngested (units s) (produced peer.port) resp (units s')
  unfolding payload_len is_bit_area is_reg_area
  main-IsIngested w n =
      let (resp, s', e, ingested) =
        apply_packet-IsIngested s (produced peer.port) w n (ground arith) refl in
      let q = served resp s' (one_packet peer.port s resp s' e) in
      (resp, s', built _ ∙ rw q refl, rw q refl, ingested)
