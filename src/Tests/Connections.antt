-- ===== src/Tests/Connections.antt =====
-- The theorems on frames, on requests in sequence and on whole connections at concrete data.
use mma.Base.{◌≡◌, refl, arith, true, some, [], ◌∷◌, ◌++◌, ok}
use mma.Memorycore.Memory.{regs_area}
use mma.Memorycore.Memory.Acceptance.{RegsCover}
use mma.Memorycore.Store.{Store}
use mma.Modbus.Wire.{Request, read_request, build_response}
use mma.Modbus.Wire.RoundTrip.{read_request-build_response}
use mma.Modbus.Conn.{is_blocked}
use mma.Main.{serve, store_after}
use mma.Main.Connections.{serve_keeps_blocked}
use mma.Tests.Samples.{memory_of, regs_4, seal_a, id_a, auth_a, peer_a}
use mma.Tests.Stores.{sealed_store, stores-IsSoundStore, coil_frame, sealed}

abbrev frame_a : Request
frame_a = record {
  port = 502;
  transaction_id = 7;
  protocol_id = 0;
  mbap_length = 0;
  unit_id = 1;
  function_code = 0;
  payload = [];
}

read_request-build_response_example :
    read_request (build_response frame_a (3 ∷ 2 ∷ 0x12 ∷ 0x34 ∷ []) ++ (9 ∷ [])) 502
    ≡ ok (
      record {
        port = 502;
        transaction_id = 7;
        protocol_id = 0;
        mbap_length = 5;
        unit_id = 1;
        function_code = 3;
        payload = 2 ∷ 0x12 ∷ 0x34 ∷ [];
      },
      9 ∷ [],
    )
read_request-build_response_example =
    read_request-build_response frame_a 3 (2 ∷ 0x12 ∷ 0x34 ∷ []) (9 ∷ []) 502 (omega arith)
      (omega arith) (omega arith)

regs_cover : RegsCover (memory_of 0 0 (some seal_a)) 3 101 1
unfolding regs_area
regs_cover = (
  regs_4,
  0 ∷ 0 ∷ 0 ∷ 0 ∷ [],
  refl,
  record { nonempty = omega arith; from = omega arith; until = omega arith },
)

serve_keeps_blocked_example :
    (s' : Store) × (store_after sealed_store (serve auth_a peer_a sealed_store coil_frame)
      ≡ some s')
    × (is_blocked s' id_a ≡ true)
serve_keeps_blocked_example =
    serve_keeps_blocked auth_a peer_a sealed_store coil_frame (stores-IsSoundStore 0 (omega arith))
      id_a refl sealed
