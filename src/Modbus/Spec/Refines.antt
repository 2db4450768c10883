-- ===== src/Modbus/Spec/Refines.antt =====
-- DispatchMemory of internal/transport/modbus/dispatch_memorycore.go implements the contract.
use mma.Base.{
  ℕ, zero, suc, ◌%◌, ◌<◌, ◌≡◌, inl, inr, refl, arith, true, false, not, ◌||◌, ◌==◌, Bool-cases,
  List, [], ◌∷◌, length, All, ok, err, panic, if◌then◌else◌,
}
use mma.Words.{IsByte, IsU16, word_at}
use mma.Memorycore.Area.{Area}
use mma.Memorycore.Bits
use mma.Memorycore.Bits.Loops.{bit_at}
use mma.Memorycore.Store.{Store}
use mma.Memorycore.Store.WellFormed.{IsSoundStore, IsNarrowStore}
use mma.Modbus.Wire.{Request, be_bytes}
use mma.Modbus.Encode.{build_write_single_response_pdu, build_write_multiple_response_pdu}
use mma.Modbus.Dispatch.{
  Reply, request_id, handle_read_bits, coil_byte, handle_write_single_coil,
  handle_write_multiple_coils, handle_read_regs, handle_write_single_reg, value_bytes,
  handle_write_multiple_regs, dispatch_memory,
}
use mma.Modbus.Spec.{
  Parsed, two, block, parse_get_bits, parse_get_regs, parse_put_coil, parse_put_reg,
  parse_put_coils, parse_put_regs, parse, Obeys,
}
use mma.Memorycore.Units.Views.{units}
use mma.Modbus.Spec.Parse.{
  decode_read_request-TwoWords, decode_write_single-TwoWords, decode_write_single-IsU16,
  decode_write_multiple_bits-CoilsBlock, decode_write_multiple-RegsBlock,
}
use mma.Modbus.Spec.Perform.{
  Refines, get_bits-Refines, get_regs-Refines, put_bits-Refines, put_regs-Refines,
}

-- The source of a single coil, and of a single register.
bit_at-first : (b k : ℕ) → k < 1 → bit_at (b ∷ []) k ≡ (b % 2 == 1)
unfolding bit_at
bit_at-first b zero h = ground arith
bit_at-first b (suc k) h = absurd (omega arith)

pub one_byte : Bits.bytes_for_bits 1 ≡ 1
unfolding Bits.bytes_for_bits
one_byte = refl

word_at-first : (v k : ℕ) → IsU16 v → k < 1 → word_at (be_bytes v) k ≡ v
unfolding word_at
word_at-first v zero hv h = omega arith
word_at-first v (suc k) hv h = absurd (omega arith)

module _ (s : Store) (req : Request) (w : IsSoundStore s) (narrow : IsNarrowStore s) where
  handle_read_bits-Refines :
      (area : Area)
      → Refines s req (two (parse_get_bits area) req.payload) (handle_read_bits s req area)
  unfolding handle_read_bits
  handle_read_bits-Refines area = elim (decode_read_request-TwoWords req.payload) [
    | inr (e, q, bad) ↦ rw (q, bad (parse_get_bits area)) (refl, refl)
    | inl (x, y, q, good) ↦
        rw (q, good (parse_get_bits area))
          (elim (Bool-cases (y == 0)) [
            | inl zero_q ↦ rw zero_q (refl, refl)
            | inr pos ↦ rw pos (get_bits-Refines s req w area x y narrow pos)
          ])
  ]

  handle_read_regs-Refines :
      (area : Area)
      → Refines s req (two (parse_get_regs area) req.payload) (handle_read_regs s req area)
  unfolding handle_read_regs
  handle_read_regs-Refines area = elim (decode_read_request-TwoWords req.payload) [
    | inr (e, q, bad) ↦ rw (q, bad (parse_get_regs area)) (refl, refl)
    | inl (x, y, q, good) ↦ rw (q, good (parse_get_regs area)) (get_regs-Refines s req w area x y)
  ]

  handle_write_single_coil-Refines :
      Refines s req (two parse_put_coil req.payload) (handle_write_single_coil s req)
  unfolding handle_write_single_coil coil_byte build_write_single_response_pdu
  handle_write_single_coil-Refines = elim (decode_write_single-TwoWords req.payload) [
    | inr (e, q, bad) ↦ rw (q, bad parse_put_coil) (refl, refl)
    | inl (x, y, q, good) ↦
        rw (q, good parse_put_coil)
          (elim (Bool-cases (y == 0xff00)) [
            | inl on ↦ rw on (
                put_bits-Refines s req w x 1 y (1 ∷ []) (λ _. true) (λ k h. bit_at-first 1 k h)
                  narrow refl (omega arith, tt) (omega (arith, one_byte)))
            | inr other ↦ rw other (elim (Bool-cases (y == 0)) [
              | inr off ↦ rw off (refl, refl)
              | inl off ↦ rw off (
                  put_bits-Refines s req w x 1 y (0 ∷ []) (λ _. false) (λ k h. bit_at-first 0 k h)
                    narrow refl (omega arith, tt) (omega (arith, one_byte)))
            ])
          ])
  ]

  module _ (bytes : All IsByte req.payload) where
    handle_write_single_reg-Refines :
        Refines s req (two parse_put_reg req.payload) (handle_write_single_reg s req)
    unfolding handle_write_single_reg build_write_single_response_pdu
    handle_write_single_reg-Refines = elim (decode_write_single-TwoWords req.payload) [
      | inr (e, q, bad) ↦ rw (q, bad parse_put_reg) (refl, refl)
      | inl (x, y, q, good) ↦
          rw (q, good parse_put_reg)
            (put_regs-Refines s req w x 1 y (be_bytes y) (λ _. y)
              (λ k h. word_at-first y k (decode_write_single-IsU16 req.payload bytes q) h) refl
              (omega arith))
    ]

    handle_write_multiple_coils-Refines :
        Refines s req (block parse_put_coils req.payload) (handle_write_multiple_coils s req)
    unfolding handle_write_multiple_coils build_write_multiple_response_pdu
    handle_write_multiple_coils-Refines =
        elim (decode_write_multiple_bits-CoilsBlock req.payload bytes) [
          | inr (e, q, bad) ↦ rw (q, bad) (refl, refl)
          | inl (x, y, src, q, good, room, hs) ↦
              rw (q, good)
                (elim (Bool-cases (y == 0)) [
                  | inl zero_q ↦ rw zero_q (refl, refl)
                  | inr pos ↦ rw pos (
                      put_bits-Refines s req w x y y src (bit_at src) (λ k h. refl) narrow pos hs
                        room)
                ])
        ]

    handle_write_multiple_regs-Refines :
        Refines s req (block parse_put_regs req.payload) (handle_write_multiple_regs s req)
    unfolding handle_write_multiple_regs build_write_multiple_response_pdu
    handle_write_multiple_regs-Refines = elim (decode_write_multiple-RegsBlock req.payload bytes) [
      | inr (e, q, bad) ↦ rw (q, bad) (refl, refl)
      | inl (x, y, values, q, good, len) ↦
          rw (q, good)
            (elim (Bool-cases (y == 0 || not (y == length values))) [
              | inl off ↦ rw off (refl, refl)
              | inr fine ↦ rw fine (
                  put_regs-Refines s req w x y y (value_bytes values) (word_at (value_bytes values))
                    (λ k h. refl) (ground arith) (ground (arith, len)))
            ])
    ]

    case_code :
        (c : ℕ) (p q : Parsed) (x y : Reply)
        → Refines s req p x
        → Refines s req q y
        → Refines s req
            (if req.function_code == c then p else q)
            (if req.function_code == c then x else y)
    case_code c p q x y hx hy = elim (Bool-cases (req.function_code == c)) [
      | inl e ↦ rw e hx
      | inr e ↦ rw e hy
    ]

    dispatch_memory-Refines :
        Refines s req (parse req.function_code req.payload) (dispatch_memory s req)
    unfolding dispatch_memory parse
    dispatch_memory-Refines = case_code 1 _ _ _ _ (handle_read_bits-Refines 1) (
        case_code 2 _ _ _ _ (handle_read_bits-Refines 2) (
          case_code 3 _ _ _ _ (handle_read_regs-Refines 3) (
            case_code 4 _ _ _ _ (handle_read_regs-Refines 4) (
              case_code 5 _ _ _ _ handle_write_single_coil-Refines (
                case_code 6 _ _ _ _ handle_write_single_reg-Refines (
                  case_code 15 _ _ _ _ handle_write_multiple_coils-Refines
                    (case_code 16 _ _ _ _ handle_write_multiple_regs-Refines (refl, refl))))))))

    -- On a sound store whose bit areas have at most 65528 bits, a request whose payload is bytes is
    -- answered as the contract says, exceptions included: DispatchMemory returns a response, and the
    -- response and the units after it are those of the parsed command on the units before it.
    pub dispatch_memory-Obeys :
        (pdu : List ℕ) × (s' : Store) × (dispatch_memory s req ≡ ok (pdu, s'))
        × Obeys
            (units s)
            (request_id req)
            req.function_code
            (parse req.function_code req.payload)
            pdu
            (units s')
    dispatch_memory-Obeys = found_reply (dispatch_memory s req) refl dispatch_memory-Refines
      where
        found_reply :
            (r : Reply)
            → dispatch_memory s req ≡ r
            → Refines s req (parse req.function_code req.payload) r
            → (pdu : List ℕ) × (s' : Store) × (dispatch_memory s req ≡ ok (pdu, s'))
              × Obeys
                  (units s)
                  (request_id req)
                  req.function_code
                  (parse req.function_code req.payload)
                  pdu
                  (units s')
        found_reply (ok (pdu, s')) e h = (pdu, s', e, h)
        found_reply (err x) e h = elim h [ ]
        found_reply panic e h = elim h [ ]
