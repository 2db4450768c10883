-- ===== src/Tests/Tools.antt =====
-- The theorems on a whole connection, and on the producer of packets, at concrete stores.
use mma.Base.{ℕ, zero, suc, ◌≡◌, refl, arith, none, some, [], ◌∷◌, All, ok}
use mma.Words.{IsByte, load_u16, store_u16}
use mma.Golang.Reader.{read_full}
use mma.Memorycore.Area.{is_bit_area, is_reg_area}
use mma.Memorycore.Layout.{AreaLayout, contains, offset}
use mma.Memorycore.Layout.Laws.{IsLayout}
use mma.Memorycore.Memory.{Memory, regs_area, with_regs, write_regs, write_regs_loop}
use mma.Memorycore.Memory.WellFormed.{IsWellFormed, HasNarrowBits}
use mma.Memorycore.Store.{Store, Pointer, deref, get, lookup, must_get}
use mma.Memorycore.Store.WellFormed.{IsSoundStore, IsNarrowStore}
use mma.Memorycore.Units.Views.{units}
use mma.RawIngest.Decoder.{payload_len, decode_one}
use mma.RawIngest.Conn.{apply_packet, ingest_one, ingest_loop, handle_conn}
use mma.RawIngest.Spec.{IsIngested}
use mma.Ingress.{classify, route}
use mma.Main.{serve, store_after}
use mma.Main.Connections.Contract.{IsAnswered, serve-IsAnswered}
use mma.Tools.{build_packet, main}
use mma.Tools.Produces.{packet_bytes, produced, exchange, main-IsIngested}
use mma.Tests.Samples.{
  memory_of, memory_of-IsWellFormed, memory_of-HasNarrowBits, auth_a, peer_a, store_of,
  store_of-IsSoundStore,
}

-- Registers 9 to 12, as 7, 0, 0 and 0.
abbrev regs_9 : AreaLayout
regs_9 = record { start = 9; size = 4 }

regs_9-IsLayout : IsLayout regs_9
regs_9-IsLayout = record {
  nonempty = omega arith;
  size_u16 = omega arith;
  start_u16 = omega arith;
  fits = omega arith;
}

abbrev registers : ℕ → Memory
registers value = record {
  coils_layout = none;
  discrete_inputs_layout = none;
  holding_regs_layout = some regs_9;
  input_regs_layout = none;
  coils_bits = [];
  discrete_inputs_bits = [];
  holding_regs = 7 ∷ value ∷ 0 ∷ 0 ∷ [];
  input_regs = [];
  state_sealing = none;
}

registers-IsWellFormed : IsWellFormed (registers 0)
registers-IsWellFormed = record {
  coils = tt;
  discrete = tt;
  holding = (regs_9-IsLayout, refl, ground arith);
  input = tt;
}

abbrev plant : ℕ → Store
plant value = store_of (registers value) (memory_of 0 0 none)

plant-IsSoundStore : IsSoundStore (plant 0)
plant-IsSoundStore =
    store_of-IsSoundStore _ _ registers-IsWellFormed
      (memory_of-IsWellFormed 0 0 none (omega arith) (omega arith))

plant-IsNarrowStore : IsNarrowStore (plant 0)
plant-IsNarrowStore = record { narrow = narrow }
  where
    narrow : (p : Pointer) (m : Memory) → deref (plant 0) p ≡ some m → HasNarrowBits m
    narrow zero m h = let e : m ≡ registers 0 = cc h in rw e (tt, tt)
    narrow (suc zero) m h =
        let e : m ≡ memory_of 0 0 none = cc h in rw e (memory_of-HasNarrowBits 0 0 none)
    narrow (suc (suc p)) m h = cc

packet_bytes-IsByte : All IsByte packet_bytes
packet_bytes-IsByte = ground arith

-- The server answers 0, and register 10 has the value.
printed : exchange auth_a peer_a (plant 0) ≡ ok 0
unfolding main build_packet store_u16 serve route classify handle_conn ingest_loop ingest_one
    decode_one read_full load_u16 payload_len is_bit_area is_reg_area apply_packet must_get get
    lookup write_regs regs_area contains offset write_regs_loop with_regs
printed = refl

register_10 :
    store_after (plant 0) (serve auth_a peer_a (plant 0) packet_bytes) ≡ some (plant 0x1234)
unfolding serve route classify handle_conn ingest_loop ingest_one decode_one read_full load_u16
    payload_len is_bit_area is_reg_area apply_packet must_get get lookup write_regs regs_area
    contains offset write_regs_loop with_regs
register_10 = refl

serve-IsAnswered_example :
    IsAnswered auth_a peer_a (plant 0) packet_bytes (serve auth_a peer_a (plant 0) packet_bytes)
serve-IsAnswered_example =
    serve-IsAnswered auth_a peer_a (plant 0) packet_bytes plant-IsSoundStore plant-IsNarrowStore
      packet_bytes-IsByte

main-IsIngested_example :
    (resp : ℕ) × (s' : Store) × (exchange auth_a peer_a (plant 0) ≡ ok resp)
    × (store_after (plant 0) (serve auth_a peer_a (plant 0) packet_bytes) ≡ some s')
    × IsIngested (units (plant 0)) (produced 502) resp (units s')
main-IsIngested_example =
    main-IsIngested auth_a peer_a (plant 0) plant-IsSoundStore plant-IsNarrowStore
