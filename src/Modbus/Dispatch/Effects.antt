-- ===== src/Modbus/Dispatch/Effects.antt =====
-- The effect of a Modbus request on the store: the handlers of
-- internal/transport/modbus/dispatch_memorycore.go.
use mma.Base.{
  ℕ, ◌≡◌, ◌≢◌, ◌⊎◌, inl, inr, refl, arith, Bool, true, false, ◌==◌, Bool-cases, Option, none, some,
  List, [], ◌∷◌, length, get_or, All, Outcome, ok, err, panic, if◌then◌else◌, not, ◌||◌,
}
use mma.Words.{IsByte}
use mma.Memorycore.Area.{Area, area_coils, area_holding_regs}
use mma.Memorycore.Memory.{Memory, read_bits, write_bits, read_regs, write_regs}
use mma.Memorycore.Memory.WellFormed.{IsWellFormed, SameLayouts}
use mma.Memorycore.Memory.Acceptance.{bits_never_panic, regs_never_panic}
use mma.Memorycore.Memory.BitAreas.{write_bits-IsWellFormed, write_bits-SameLayouts}
use mma.Memorycore.Memory.RegAreas.{write_regs-IsWellFormed, write_regs-SameLayouts}
use mma.Memorycore.Store.{Store, Pointer, deref, update, get, must_get}
use mma.Memorycore.Store.WellFormed.{IsSoundStore, deref-reaches}
use mma.Modbus.Wire.{Request, be_bytes}
use mma.Modbus.Encode.{build_write_single_response_pdu, build_write_multiple_response_pdu}
use mma.Modbus.Decode.{
  decode_read_request, decode_write_single, decode_write_multiple, decode_write_multiple_bits,
}
use mma.Modbus.Decode.Total.{
  decode_read_request-ne-panic, decode_write_single-ne-panic, decode_write_multiple-ne-panic,
  decode_write_multiple_bits-ne-panic,
}
use mma.Modbus.Dispatch.{
  Reply, attempt, found, refuse, request_id, resolve_memory, handle_read_bits, coil_byte,
  handle_write_single_coil, handle_write_multiple_coils, handle_read_regs, handle_write_single_reg,
  value_bytes, handle_write_multiple_regs, dispatch_memory,
}

-- The function codes that write: 5, 6, 15 and 16.
abbrev pub IsWriteCode : ℕ → Type 0
IsWriteCode fc = (fc ≡ 5) ⊎ ((fc ≡ 6) ⊎ ((fc ≡ 15) ⊎ (fc ≡ 16)))

-- What a response says about the store: it is as it was, or the request is a write, its response is
-- no exception, and the memory that the request names was replaced.
pub data Effect (s : Store) (req : Request) (pdu : List ℕ) (s' : Store) : Type 0 where
  kept : s' ≡ s → Effect s req pdu s'
  wrote :
      (p : Pointer) (m m' : Memory)
      → get (some s) (request_id req) ≡ some p
      → deref s p ≡ some m
      → IsWellFormed m'
      → SameLayouts m m'
      → s' ≡ update s p m'
      → get_or pdu 0 0 ≡ req.function_code
      → IsWriteCode req.function_code
      → Effect s req pdu s'

abbrev pub Ends : Store → Request → Reply → Type 0
Ends s req (ok (pdu, s')) = Effect s req pdu s'
Ends s req (err e) = ⊥
Ends s req panic = ⊥

value_bytes-IsByte : (values : List ℕ) → All IsByte (value_bytes values)
unfolding value_bytes
value_bytes-IsByte [] = tt
value_bytes-IsByte (v ∷ values) = (omega arith, (omega arith, value_bytes-IsByte values))

module _ (s : Store) (req : Request) where
  attempt-Ends {ℓ κ} :
      {E : Type κ} {A : Type ℓ} (m : Outcome E A) (fallback : Reply) (f : A → Reply)
      → m ≢ panic
      → Ends s req fallback
      → ((a : A) → m ≡ ok a → Ends s req (f a))
      → Ends s req (attempt m fallback f)
  attempt-Ends (ok a) fallback f h x y = y a refl
  attempt-Ends (err e) fallback f h x y = x
  attempt-Ends panic fallback f h x y = absurd (h refl)

  found-Ends {ℓ} :
      {A : Type ℓ} (o : Option A) (fallback : Reply) (f : A → Reply)
      → Ends s req fallback
      → ((a : A) → o ≡ some a → Ends s req (f a))
      → Ends s req (found o fallback f)
  found-Ends none fallback f x y = x
  found-Ends (some a) fallback f x y = y a refl

  if-Ends : (b : Bool) (x y : Reply) → Ends s req x → Ends s req y → Ends s req (if b then x else y)
  if-Ends true x y p q = p
  if-Ends false x y p q = q

  case-Ends :
      (c : ℕ) (x y : Reply)
      → (req.function_code ≡ c → Ends s req x)
      → Ends s req y
      → Ends s req (if req.function_code == c then x else y)
  case-Ends c x y p q = elim (Bool-cases (req.function_code == c)) [
    | inl e ↦ rw e (p (ground arith))
    | inr e ↦ rw e q
  ]

  refuse-Ends : (code : ℕ) → Ends s req (refuse s req code)
  refuse-Ends code = kept refl

  resolve_memory-get :
      (p : Pointer) → resolve_memory s req ≡ some p → get (some s) (request_id req) ≡ some p
  unfolding resolve_memory must_get
  resolve_memory-get p h = ground arith

  module _ (w : IsSoundStore s) where
    resolved :
        (p : Pointer)
        → resolve_memory s req ≡ some p
        → (m : Memory) × (deref s p ≡ some m) × IsWellFormed m
    resolved p h =
        let (m, e) = deref-reaches s p (w.reaches (request_id req) p (resolve_memory-get p h)) in
        (m, e, w.formed p m e)

    handle_read_bits-Ends : (area : Area) → Ends s req (handle_read_bits s req area)
    unfolding handle_read_bits
    handle_read_bits-Ends area =
        attempt-Ends (decode_read_request req.payload) _ _
          (decode_read_request-ne-panic req.payload) (refuse-Ends 3)
          λ d _. if-Ends (d.quantity == 0) _ _ (refuse-Ends 3) (
            found-Ends (resolve_memory s req) _ _ (refuse-Ends 2) λ p h.
              let (m, e, _) = resolved p h in
              rw e (
                attempt-Ends (read_bits (some m) area d.address d.quantity _) _ _
                  (bits_never_panic m area d.address d.quantity _).1 (refuse-Ends 2)
                  λ buf _. kept refl))

    handle_read_regs-Ends : (area : Area) → Ends s req (handle_read_regs s req area)
    unfolding handle_read_regs
    handle_read_regs-Ends area =
        attempt-Ends (decode_read_request req.payload) _ _
          (decode_read_request-ne-panic req.payload) (refuse-Ends 3)
          λ d _. found-Ends (resolve_memory s req) _ _ (refuse-Ends 2) λ p h.
            let (m, e, wm) = resolved p h in
            rw e (
              attempt-Ends (read_regs (some m) area d.address d.quantity _) _ _
                (regs_never_panic m area d.address d.quantity wm _).1 (refuse-Ends 2)
                λ buf _. kept refl)

    -- WriteBits and WriteRegs behind a pointer, and the response to a success.
    write_bits-Ends :
        (p : Pointer) (address count : ℕ) (src pdu : List ℕ)
        → resolve_memory s req ≡ some p
        → IsWriteCode req.function_code
        → get_or pdu 0 0 ≡ req.function_code
        → Ends s req (
            attempt
              (write_bits (deref s p) area_coils address count src)
              (refuse s req 2)
              λ m. ok (pdu, update s p m))
    write_bits-Ends p address count src pdu h code echo =
        let (m, e, wm) = resolved p h in
        rw e (
          attempt-Ends (write_bits (some m) area_coils address count src) _ _
            (bits_never_panic m area_coils address count src).0 (refuse-Ends 2)
            λ m' q.
              wrote p m m' (resolve_memory-get p h) e
                (write_bits-IsWellFormed m area_coils address count src wm q)
                (write_bits-SameLayouts m area_coils address count src q) refl echo code)

    write_regs-Ends :
        (p : Pointer) (address count : ℕ) (src pdu : List ℕ)
        → All IsByte src
        → resolve_memory s req ≡ some p
        → IsWriteCode req.function_code
        → get_or pdu 0 0 ≡ req.function_code
        → Ends s req (
            attempt
              (write_regs (deref s p) area_holding_regs address count src)
              (refuse s req 2)
              λ m. ok (pdu, update s p m))
    write_regs-Ends p address count src pdu hs h code echo =
        let (m, e, wm) = resolved p h in
        rw e (
          attempt-Ends (write_regs (some m) area_holding_regs address count src) _ _
            (regs_never_panic m area_holding_regs address count wm src).0 (refuse-Ends 2)
            λ m' q.
              wrote p m m' (resolve_memory-get p h) e
                (write_regs-IsWellFormed m area_holding_regs address count src wm q hs)
                (write_regs-SameLayouts m area_holding_regs address count src wm q) refl echo code)

    handle_write_single_coil-Ends :
        IsWriteCode req.function_code → Ends s req (handle_write_single_coil s req)
    unfolding handle_write_single_coil build_write_single_response_pdu
    handle_write_single_coil-Ends code =
        attempt-Ends (decode_write_single req.payload) _ _
          (decode_write_single-ne-panic req.payload) (refuse-Ends 3)
          λ d _. found-Ends (coil_byte d.value) _ _ (refuse-Ends 3) λ src _.
            found-Ends (resolve_memory s req) _ _ (refuse-Ends 2)
              λ p h. write_bits-Ends p d.address 1 (src ∷ []) _ h code refl

    handle_write_multiple_coils-Ends :
        IsWriteCode req.function_code → Ends s req (handle_write_multiple_coils s req)
    unfolding handle_write_multiple_coils build_write_multiple_response_pdu
    handle_write_multiple_coils-Ends code =
        attempt-Ends (decode_write_multiple_bits req.payload) _ _
          (decode_write_multiple_bits-ne-panic req.payload) (refuse-Ends 3)
          λ d _. if-Ends (d.quantity == 0) _ _ (refuse-Ends 3) (
            found-Ends (resolve_memory s req) _ _ (refuse-Ends 2)
              λ p h. write_bits-Ends p d.address d.quantity d.payload _ h code refl)

    handle_write_single_reg-Ends :
        IsWriteCode req.function_code → Ends s req (handle_write_single_reg s req)
    unfolding handle_write_single_reg build_write_single_response_pdu
    handle_write_single_reg-Ends code =
        attempt-Ends (decode_write_single req.payload) _ _
          (decode_write_single-ne-panic req.payload) (refuse-Ends 3)
          λ d _.
            found-Ends (resolve_memory s req) _ _ (refuse-Ends 2)
              λ p h. write_regs-Ends p d.address 1 (be_bytes d.value) _ (omega arith) h code refl

    handle_write_multiple_regs-Ends :
        IsWriteCode req.function_code → Ends s req (handle_write_multiple_regs s req)
    unfolding handle_write_multiple_regs build_write_multiple_response_pdu
    handle_write_multiple_regs-Ends code =
        attempt-Ends (decode_write_multiple req.payload) _ _
          (decode_write_multiple-ne-panic req.payload) (refuse-Ends 3)
          λ d _.
            if-Ends (d.quantity == 0 || not (d.quantity == length d.values)) _ _ (refuse-Ends 3) (
              found-Ends (resolve_memory s req) _ _ (refuse-Ends 2) λ p h.
                write_regs-Ends p d.address d.quantity (value_bytes d.values) _
                  (value_bytes-IsByte d.values) h code refl)

    -- On a sound store no request panics. Each leaves the store as it was, or it has the function code
    -- of a write, replaces the memory that it names by a well-formed one with the same bit layouts, and
    -- is answered with its own function code.
    pub dispatch_memory-Ends : Ends s req (dispatch_memory s req)
    unfolding dispatch_memory
    dispatch_memory-Ends =
        case-Ends 1 _ _ (λ _. handle_read_bits-Ends 1)
          (case-Ends 2 _ _ (λ _. handle_read_bits-Ends 2)
            (case-Ends 3 _ _ (λ _. handle_read_regs-Ends 3)
              (case-Ends 4 _ _ (λ _. handle_read_regs-Ends 4)
                (case-Ends 5 _ _ (λ e. handle_write_single_coil-Ends (inl e))
                  (case-Ends 6 _ _ (λ e. handle_write_single_reg-Ends (inr (inl e)))
                    (case-Ends 15 _ _ (λ e. handle_write_multiple_coils-Ends (inr (inr (inl e))))
                      (case-Ends 16 _ _ (λ e. handle_write_multiple_regs-Ends (inr (inr (inr e))))
                        (refuse-Ends 1))))))))
