-- ===== src/Tests/Contract.antt =====
-- Tests of the contracts of the two transports on concrete data.
use mma.Base.{ℕ, zero, suc, ◌≡◌, refl, arith, true, false, some, none, List, [], ◌∷◌, All, ok}
use mma.Words.{IsByte}
use mma.Memorycore.Memory.{Memory, bits_area}
use mma.Memorycore.Area.{is_bit_area}
use mma.Memorycore.Memory.WellFormed.{bit_value, HasNarrowBits}
use mma.Memorycore.Store.{Store, Pointer, deref}
use mma.Memorycore.Store.WellFormed.{IsNarrowStore}
use mma.Memorycore.Units.{holds}
use mma.Memorycore.Units.Views.{units}
use mma.Modbus.Wire.{Request}
use mma.Modbus.Dispatch.{dispatch_memory}
use mma.Modbus.Conn.{Session, done}
use mma.Modbus.Conn
use mma.Modbus.Spec.{put_bits, invalid, valid, parse, Obeys}
use mma.Modbus.Spec.Refines.{dispatch_memory-Obeys}
use mma.Modbus.Spec.Conversation.{Converses}
use mma.Modbus.Spec.Converses.{handle_conn-Converses}
use mma.RawIngest.Decoder.{payload_len}
use mma.RawIngest.Conn.{Feed, apply_packet}
use mma.RawIngest.Conn as Raw
use mma.RawIngest.Conn.Unsealing.{seal_packet}
use mma.RawIngest.Spec.{Feeds, IsIngested}
use mma.RawIngest.Spec.Ingests.{apply_packet-IsIngested}
use mma.RawIngest.Spec.Stream.{handle_conn-Feeds}
use mma.Tests.Samples.{memory_of, memory_of-HasNarrowBits, seal_a, id_a, auth_a, peer_a, store_of}
use mma.Main.Threads.Spec.{Serves}
use mma.Main.Threads.Simulates.{ReadsBytes, IsFit, schedule-Serves}
use mma.Tests.Threads.{threads_a, system_a, system_b, one_step}
use mma.Tests.Stores.{
  open_store, sealed_store, stores-IsSoundStore, coil_frame, unseal_frame, unseal_frame-IsByte,
}

stores-IsNarrowStore :
    (bits : ℕ) → IsNarrowStore (store_of (memory_of bits 0 (some seal_a)) (memory_of 0 0 none))
stores-IsNarrowStore bits = record { narrow = narrow }
  where
    narrow :
        (p : Pointer) (m : Memory)
        → deref (store_of (memory_of bits 0 (some seal_a)) (memory_of 0 0 none)) p ≡ some m
        → HasNarrowBits m
    narrow zero m h =
        let e : m ≡ memory_of bits 0 (some seal_a) = cc h in
        rw e (memory_of-HasNarrowBits bits 0 (some seal_a))
    narrow (suc zero) m h =
        let e : m ≡ memory_of 0 0 none = cc h in rw e (memory_of-HasNarrowBits 0 0 none)
    narrow (suc (suc p)) m h = cc

-- The parser of the contract: coil 4 on, and a value that no coil has.
parse_coil : parse 5 (0 ∷ 4 ∷ 0xff ∷ 0 ∷ []) ≡ valid (put_bits 4 1 (λ _. true) 0xff00)
unfolding parse
parse_coil = refl

parse_bad_coil : parse 5 (0 ∷ 4 ∷ 1 ∷ 0 ∷ []) ≡ invalid 3
unfolding parse
parse_bad_coil = refl

parse_unknown : parse 7 [] ≡ invalid 1
unfolding parse
parse_unknown = refl

-- Sixteen coils, and no seventeenth.
all_coils : holds (bit_value (memory_of 0 0 none) 1) 0 16 ≡ true
unfolding holds bit_value bits_area
all_coils = refl

no_coil : holds (bit_value (memory_of 0 0 none) 1) 8 9 ≡ false
unfolding holds bit_value bits_area
no_coil = refl

abbrev coil_request : Request
coil_request = record {
  port = 502;
  transaction_id = 1;
  protocol_id = 0;
  mbap_length = 6;
  unit_id = 1;
  function_code = 5;
  payload = 0 ∷ 4 ∷ 0xff ∷ 0 ∷ [];
}

dispatch_memory-Obeys_example :
    (pdu : List ℕ) × (s' : Store) × (dispatch_memory open_store coil_request ≡ ok (pdu, s'))
    × Obeys (units open_store) id_a 5 (parse 5 (0 ∷ 4 ∷ 0xff ∷ 0 ∷ [])) pdu (units s')
dispatch_memory-Obeys_example =
    dispatch_memory-Obeys open_store coil_request (stores-IsSoundStore 1 (omega arith))
      (stores-IsNarrowStore 1) (omega arith, (omega arith, (omega arith, (omega arith, tt))))

coil_frame-IsByte : All IsByte coil_frame
coil_frame-IsByte = ground arith

handle_conn-Converses_example :
    (c : Session) × (Conn.handle_conn auth_a peer_a open_store coil_frame ≡ done c)
    × Converses auth_a peer_a 0 (units open_store) coil_frame c.sent (units c.store)
handle_conn-Converses_example =
    handle_conn-Converses auth_a peer_a open_store coil_frame (stores-IsSoundStore 1 (omega arith))
      (stores-IsNarrowStore 1) coil_frame-IsByte

unseal_size : payload_len 1 1 ≡ ok 1
unfolding payload_len is_bit_area
unseal_size = refl

apply_packet-IsIngested_example :
    (resp : ℕ) × (s' : Store) × (apply_packet sealed_store (seal_packet id_a seal_a 1)
      ≡ ok (resp, s'))
    × IsIngested (units sealed_store) (seal_packet id_a seal_a 1) resp (units s')
apply_packet-IsIngested_example =
    apply_packet-IsIngested sealed_store (seal_packet id_a seal_a 1)
      (stores-IsSoundStore 0 (omega arith)) (stores-IsNarrowStore 0) (omega arith, tt) unseal_size

handle_conn-Feeds_example :
    (c : Feed) × (Raw.handle_conn 502 sealed_store unseal_frame ≡ Raw.done c)
    × Feeds 502 (units sealed_store) unseal_frame c.sent (units c.store)
handle_conn-Feeds_example =
    handle_conn-Feeds 502 sealed_store unseal_frame (stores-IsSoundStore 0 (omega arith))
      (stores-IsNarrowStore 0) unseal_frame-IsByte

schedule-Serves_example :
    Serves auth_a (units sealed_store) (threads_a 502) 1 (units sealed_store) (system_b 502).threads
    × IsFit sealed_store
    × All ReadsBytes (system_b 502).threads
schedule-Serves_example =
    schedule-Serves auth_a (system_a 502) 1 (system_b 502) (one_step 502)
      (record { sound = stores-IsSoundStore 0 (omega arith); narrow = stores-IsNarrowStore 0 })
      (coil_frame-IsByte, (unseal_frame-IsByte, tt))
