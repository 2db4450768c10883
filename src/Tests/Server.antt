-- ===== src/Tests/Server.antt =====
-- The theorems on the servers at concrete stores, peers and inputs.
use mma.Base.{◌≡◌, ◌⊎◌, ◌↔◌, refl, arith, true, false, not, some, [], ◌∷◌, ok}
use mma.Words.{load_u16}
use mma.Golang.Netip.{v6, is_valid, contains_addr}
use mma.Memorycore.Bits.{
  bytes_for_bits, is_set, put_bit, copy_bits_loop, copy_bits, write_bits_loop, write_bits_at,
}
use mma.Memorycore.Bits.Loops.{bit_at}
use mma.Memorycore.Layout.{contains, offset}
use mma.Memorycore.Memory.{bits_area, with_bits, read_bits, write_bits}
use mma.Memorycore.Memory.Acceptance.{BitsCover}
use mma.Memorycore.Store.{Store, get, lookup, insert, must_get, new_store, add, validate_id}
use mma.Authority.Decision.{allow, deny}
use mma.Authority.IpMatch.{any_contains, match}
use mma.Authority.Rules.{Rule, has_code, matches, allows_fc}
use mma.Authority.Sealing.{is_sealed}
use mma.Authority.Evaluate.{AuthRequest, MemoryPolicy, evaluate_rules, evaluate_policy, evaluate}
use mma.Authority.Evaluate.FirstMatch.{FirstMatch, evaluate_iff}
use mma.Modbus.Wire.{Request}
use mma.Modbus.Decode.{decode_write_single}
use mma.Modbus.Encode.{build_write_single_response_pdu}
use mma.Modbus.Dispatch.{resolve_memory, coil_byte, handle_write_single_coil, dispatch_memory}
use mma.Modbus.Dispatch.Effects.{IsWriteCode}
use mma.Modbus.Conn.{Peer, Answer, sealed_by, is_blocked, answer}
use mma.Modbus.Conn.Guards.{decide, answer_guarded}
use mma.RawIngest.Conn.{apply_packet}
use mma.RawIngest.Conn.Unsealing.{seal_packet, apply_packet-is_blocked}
use mma.Tests.Stores.{sealed_store, open_store, coil_set_store, stores-IsSoundStore, found_a}
use mma.Tests.Samples.{memory_of, memory_of-HasNarrowBits, coils_16, seal_a, id_a, auth_a, host_a}

-- Write Single Coil: coil 4 to ON.
abbrev coil_request : Request
coil_request = record {
  port = 502;
  transaction_id = 1;
  protocol_id = 0;
  mbap_length = 6;
  unit_id = 1;
  function_code = 5;
  payload = 0 ∷ 4 ∷ 0xff ∷ 0 ∷ [];
}

abbrev coil_answer : Answer
coil_answer = record { pdu = 5 ∷ 0 ∷ 4 ∷ 0xff ∷ 0 ∷ []; store = coil_set_store; must_send = true }

answered : answer auth_a host_a open_store coil_request ≡ some coil_answer
unfolding answer is_blocked get lookup sealed_by read_bits write_bits bits_area with_bits contains
    offset copy_bits copy_bits_loop write_bits_at write_bits_loop is_set put_bit bytes_for_bits
    evaluate is_sealed evaluate_policy evaluate_rules allow matches match is_valid any_contains
    contains_addr allows_fc has_code dispatch_memory handle_write_single_coil decode_write_single
    load_u16 coil_byte resolve_memory must_get build_write_single_response_pdu
answered = refl

answer_guarded_example :
    (coil_set_store ≡ open_store)
    ⊎ ((is_blocked open_store id_a ≡ false)
        × ((decide auth_a host_a coil_request).allowed ≡ true)
        × IsWriteCode 5)
answer_guarded_example =
    answer_guarded auth_a host_a open_store coil_request (stores-IsSoundStore 1 (omega arith))
      coil_answer answered

-- A peer with an IPv6 address, which the IPv4 rule never matches.
abbrev peer_6 : Peer
peer_6 = record { port = 502; src_ip = v6 1 ""; writable = λ n. true }

denied_6 :
    (req : Request)
    → req.port ≡ 502
    → IsWriteCode req.function_code
    → (decide auth_a (v6 1 "") req).allowed ≡ false
unfolding evaluate is_sealed evaluate_policy evaluate_rules allow deny matches match is_valid
    any_contains contains_addr lookup
denied_6 req port code = ground arith

-- Access decisions.
abbrev coil_access : AuthRequest
coil_access = record { memory_id = id_a; source_ip = host_a; function_code = 5 }

abbrev register_access : AuthRequest
register_access = record { memory_id = id_a; source_ip = host_a; function_code = 6 }

evaluate_iff_example : ((evaluate auth_a coil_access).allowed ≡ true) ↔ (
    (is_sealed auth_a.sealing id_a ≡ false)
    × (p : MemoryPolicy) × (lookup auth_a.policies id_a ≡ some (some p))
    × (r : Rule) × FirstMatch host_a p.rules r
    × (allows_fc (some r) 5 ≡ true))
evaluate_iff_example = evaluate_iff auth_a coil_access

refused_register : (evaluate auth_a register_access).allowed ≡ false
unfolding evaluate is_sealed evaluate_policy evaluate_rules deny matches match is_valid any_contains
    contains_addr allows_fc has_code lookup
refused_register = refl

-- The store.
abbrev one_entry : Store
one_entry = record { table = (id_a, 0) ∷ []; heap = [] }

added : add (some new_store) id_a (some 0) ≡ ok one_entry
unfolding add validate_id insert
added = refl

sealed_cover : BitsCover (memory_of 0 0 (some seal_a)) 1 0 1
unfolding bits_area
sealed_cover = (
  coils_16,
  0 ∷ 0 ∷ [],
  refl,
  record { nonempty = omega arith; from = omega arith; until = omega arith },
)

apply_packet-is_blocked_example :
    (s' : Store) × (apply_packet sealed_store (seal_packet id_a seal_a 1) ≡ ok (0, s'))
    × (is_blocked s' id_a ≡ not (bit_at (1 ∷ []) 0))
apply_packet-is_blocked_example =
    apply_packet-is_blocked sealed_store id_a 0 (memory_of 0 0 (some seal_a)) seal_a 1
      (stores-IsSoundStore 0 (omega arith)) found_a refl (memory_of-HasNarrowBits 0 0 (some seal_a))
      refl sealed_cover (omega arith)
