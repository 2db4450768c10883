-- ===== src/Modbus/Spec/Perform.antt =====
-- The memory operations behind the handlers of internal/transport/modbus/dispatch_memorycore.go
-- against the commands of the contract.
use mma.Base.{
  ℕ, ◌+◌, ◌*◌, ◌/◌, ◌<◌, ◌≤◌, ◌≡◌, ◌≢◌, inl, inr, refl, ap, ◌∙◌, arith, Bool, true, false, ◌==◌,
  Bool-cases, Option, none, some, Option-cases, List, ◌∷◌, ◌++◌, length, replicate,
  length-replicate, get_or-replicate, All, All-replicate, Outcome, ok, err, panic, if◌then◌else◌,
}
use mma.Words.{IsByte, word_at}
use mma.Memorycore.Area.{Area}
use mma.Memorycore.Bits
use mma.Memorycore.Bits.Loops.{bit_at}
use mma.Memorycore.Memory.{Memory, read_bits, write_bits, read_regs, write_regs}
use mma.Memorycore.Memory.WellFormed.{IsWellFormed, HasNarrowBits, bit_value, reg_value}
use mma.Memorycore.Memory.Acceptance.{
  bits_accept_iff, bits_never_panic, regs_accept_iff, regs_never_panic,
}
use mma.Memorycore.Memory.BitAreas.{bits_area-IsNarrow}
use mma.Memorycore.Memory.Inversion.{read_bits-eq_ok}
use mma.Memorycore.Memory.BitReads.{read_bits-view, read_bits-IsByte}
use mma.Memorycore.Memory.RegReads.{read_regs-view, read_regs-IsByte}
use mma.Memorycore.Store.{Store, Pointer, deref, update, get, must_get}
use mma.Memorycore.Store.WellFormed.{IsSoundStore, IsNarrowStore, deref-reaches}
use mma.Modbus.Wire.{Request, be_bytes}
use mma.Modbus.Encode.{build_read_response_pdu}
use mma.Modbus.Dispatch.{Reply, attempt, found, refuse, request_id, resolve_memory, bytes_for_bits}
use mma.Memorycore.Units.{Cells, with_unit}
use mma.Modbus.Spec.{
  Command, get_bits, get_regs, put_bits, put_regs, Parsed, invalid, valid, permits, PacksBits,
  PacksRegs, IsPerformed, Obeys,
}
use mma.Memorycore.Units.Views.{
  cells, units, unit_of, BitsCover-holds, RegsCover-holds, holds-BitsCover, holds-RegsCover,
  put_bits_in-congr, put_regs_in-congr, cells-write_bits, cells-write_regs, units-update,
}

-- A reply with a response of which `T` holds.
abbrev pub Replies : (List ℕ → Store → Type 0) → Reply → Type 0
Replies T (ok (pdu, s')) = T pdu s'
Replies T (err e) = ⊥
Replies T panic = ⊥

abbrev pub Refines : Store → Request → Parsed → Reply → Type 0
Refines s req parsed =
    Replies λ pdu s'. Obeys (units s) (request_id req) req.function_code parsed pdu (units s')

abbrev pub Performs : Store → Request → Cells → Command → Reply → Type 0
Performs s req c command =
    Replies
      λ pdu s'. IsPerformed (units s) (request_id req) req.function_code pdu (units s') c command

-- An operation that succeeds exactly when the command is permitted, and its fallback.
attempt-permitted {ℓ κ} :
    {E : Type κ} {A : Type ℓ} (T : Reply → Type 0) (o : Outcome E A) (b : Bool) (fallback : Reply)
    (f : A → Reply) (S : Reply → Type 0)
    → o ≢ panic
    → ((a : A) → o ≡ ok a → b ≡ true)
    → (b ≡ true → (a : A) × (o ≡ ok a))
    → ((a : A) → o ≡ ok a → S (f a))
    → T fallback
    → if b then S (attempt o fallback f) else T (attempt o fallback f)
attempt-permitted T (ok a) true fallback f S np only when good bad = good a refl
attempt-permitted T (ok a) false fallback f S np only when good bad = absurd (cc (only a refl))
attempt-permitted T (err e) true fallback f S np only when good bad =
    let (a, h) = when refl in absurd (cc h)
attempt-permitted T (err e) false fallback f S np only when good bad = bad
attempt-permitted T panic b fallback f S np only when good bad = absurd (np refl)

resolve_memory-get :
    (s : Store) (req : Request) (o : Option Pointer)
    → get (some s) (request_id req) ≡ o
    → resolve_memory s req ≡ o
unfolding resolve_memory must_get
resolve_memory-get s req none e = ground arith
resolve_memory-get s req (some p) e = ground arith

-- The buffers of the reads.
bytes_for_bits-eq : (n : ℕ) → bytes_for_bits n ≡ Bits.bytes_for_bits n
unfolding bytes_for_bits Bits.bytes_for_bits
bytes_for_bits-eq n = refl

bit_at-replicate : (n k : ℕ) → bit_at (replicate n 0) k ≡ false
unfolding bit_at
bit_at-replicate n k = rw (get_or-replicate {A = ℕ} n (k / 8) 0) (ground arith)

word_at-replicate : (n k : ℕ) → word_at (replicate n 0) k ≡ 0
unfolding word_at
word_at-replicate n k =
    rw (get_or-replicate {A = ℕ} n (k * 2) 0, get_or-replicate {A = ℕ} n (k * 2 + 1) 0) refl

bytes_for_bits-narrow : (n : ℕ) → (n == 0) ≡ false → n ≤ 65528 → bytes_for_bits n ≡ (n + 7) / 8
unfolding bytes_for_bits
bytes_for_bits-narrow n pos small = ground arith

module _ (m : Memory) (area : Area) (address quantity : ℕ) (w : IsWellFormed m) where
  read_bits-PacksBits :
      {buf : List ℕ}
      → HasNarrowBits m
      → (quantity == 0) ≡ false
      → read_bits (some m) area address quantity (replicate (bytes_for_bits quantity) 0) ≡ ok buf
      → PacksBits (bit_value m area) address quantity buf
  read_bits-PacksBits {buf} narrow pos h =
      let dst : List ℕ = replicate (bytes_for_bits quantity) 0 in
      let view =
        read_bits-view m area address quantity dst w narrow
          (All-replicate IsByte (bytes_for_bits quantity) 0 (omega arith)) h in
      let (l, b, e, range, room, q) = read_bits-eq_ok m area address quantity dst h in
      let small = bits_area-IsNarrow m area l b e narrow in
      (
        read_bits-IsByte m area address quantity dst
            (All-replicate IsByte (bytes_for_bits quantity) 0 (omega arith)) h,
        (view 0).1
            ∙ length-replicate (bytes_for_bits quantity) 0
            ∙ bytes_for_bits-narrow quantity pos (omega (arith, range.from, range.until)),
        λ k. rw (← bit_at-replicate (bytes_for_bits quantity) k) (view k).0,
      )

  read_regs-PacksRegs :
      {buf : List ℕ}
      → read_regs (some m) area address quantity (replicate (quantity * 2) 0) ≡ ok buf
      → PacksRegs (reg_value m area) address quantity buf
  read_regs-PacksRegs {buf} h =
      let view = read_regs-view m area address quantity (replicate (quantity * 2) 0) w h in
      (
        read_regs-IsByte m area address quantity (replicate (quantity * 2) 0) w
            (All-replicate IsByte (quantity * 2) 0 (omega arith)) h,
        (view 0).1 ∙ length-replicate (quantity * 2) 0,
        λ k. rw (← word_at-replicate (quantity * 2) k) (view k).0,
      )

module _ (s : Store) (req : Request) (w : IsSoundStore s) where
  -- The unit that a request names, and the memory behind it.
  on_unit :
      (command : Command) (run : Pointer → Reply)
      → ((p : Pointer) (m : Memory)
          → get (some s) (request_id req) ≡ some p
          → deref s p ≡ some m
          → if permits (cells m) command
            then Performs s req (cells m) command (run p)
            else Refines s req (invalid 2) (run p))
      → Refines s req (valid command) (found (resolve_memory s req) (refuse s req 2) run)
  on_unit command run h = elim (Option-cases (get (some s) (request_id req))) [
    | inl e ↦ rw (resolve_memory-get s req none e, e) (refl, refl)
    | inr (p, e) ↦
        let (m, d) = deref-reaches s p (w.reaches (request_id req) p e) in
        rw (resolve_memory-get s req (some p) e, e, unit_of, d)
          (elim (Bool-cases (permits (cells m) command)) [
            | inl on ↦ rw on (rw on at (h p m e d))
            | inr off ↦ rw off (rw off at (h p m e d))
          ])
  ]

  pub get_bits-Refines :
      (area : Area) (address quantity : ℕ)
      → IsNarrowStore s
      → (quantity == 0) ≡ false
      → Refines s req (valid (get_bits area address quantity)) (
          found (resolve_memory s req) (refuse s req 2) λ p.
            attempt
              (read_bits (deref s p) area address quantity (replicate (bytes_for_bits quantity) 0))
              (refuse s req 2)
              λ buf. ok (build_read_response_pdu req.function_code buf, s))
  unfolding build_read_response_pdu
  get_bits-Refines area address quantity narrow pos = on_unit _ _ λ p m e d.
      let n = bytes_for_bits quantity in
      let dst : List ℕ = replicate n 0 in
      let accept = bits_accept_iff m area address quantity dst in
      let room : Bits.bytes_for_bits quantity ≤ length dst =
        omega (arith, bytes_for_bits-eq quantity, length-replicate {A = ℕ} n 0) in
      rw (pos, d)
        (attempt-permitted (Refines s req (invalid 2))
          (read_bits (some m) area address quantity dst) _ (refuse s req 2)
          (λ buf. ok (build_read_response_pdu req.function_code buf, s))
          (Performs s req (cells m) (get_bits area address quantity))
          (bits_never_panic m area address quantity dst).1
          (λ buf h. BitsCover-holds m area address quantity (accept.1.0 (buf, h)).0)
          (λ h. accept.1.1 (holds-BitsCover m area address quantity (ground arith) h, room))
          (λ buf h. (
            buf,
            refl,
            read_bits-PacksBits m area address quantity (w.formed p m d) (narrow.narrow p m d) pos
                h,
            refl,
          ))
          (refl, refl))

  pub get_regs-Refines :
      (area : Area) (address quantity : ℕ)
      → Refines s req (valid (get_regs area address quantity)) (
          found (resolve_memory s req) (refuse s req 2) λ p.
            attempt
              (read_regs (deref s p) area address quantity (replicate (quantity * 2) 0))
              (refuse s req 2)
              λ buf. ok (build_read_response_pdu req.function_code buf, s))
  unfolding build_read_response_pdu
  get_regs-Refines area address quantity = on_unit _ _ λ p m e d.
      let dst : List ℕ = replicate (quantity * 2) 0 in
      let wm = w.formed p m d in
      let accept = regs_accept_iff m area address quantity wm dst in
      let room : quantity * 2 ≤ length dst =
        omega (arith, length-replicate {A = ℕ} (quantity * 2) 0) in
      rw d (
        attempt-permitted (Refines s req (invalid 2)) (read_regs (some m) area address quantity dst)
          _ (refuse s req 2) (λ buf. ok (build_read_response_pdu req.function_code buf, s))
          (Performs s req (cells m) (get_regs area address quantity))
          (regs_never_panic m area address quantity wm dst).1
          (λ buf h.
            let cover = (accept.1.0 (buf, h)).0 in
            let held = RegsCover-holds m area address quantity cover in
            let nonempty = cover.3.nonempty in ground arith)
          (λ h.
            accept.1.1
              (holds-RegsCover m area address quantity (ground arith) (ground arith), room))
          (λ buf h. (buf, refl, read_regs-PacksRegs m area address quantity wm h, refl))
          (refl, refl))

  pub put_bits-Refines :
      (address quantity echo : ℕ) (src : List ℕ) (values : ℕ → Bool)
      → ((k : ℕ) → k < quantity → bit_at src k ≡ values k)
      → IsNarrowStore s
      → (quantity == 0) ≡ false
      → All IsByte src
      → Bits.bytes_for_bits quantity ≤ length src
      → Refines s req (valid (put_bits address quantity values echo)) (
          found (resolve_memory s req) (refuse s req 2) λ p.
            attempt
              (write_bits (deref s p) 1 address quantity src)
              (refuse s req 2)
              λ m. ok (req.function_code ∷ (be_bytes address ++ be_bytes echo), update s p m))
  put_bits-Refines address quantity echo src values same narrow pos hs room = on_unit _ _ λ p m e d.
      let accept = bits_accept_iff m 1 address quantity src in
      rw (pos, d)
        (attempt-permitted (Refines s req (invalid 2)) (write_bits (some m) 1 address quantity src)
          _ (refuse s req 2)
          (λ m'. ok (req.function_code ∷ (be_bytes address ++ be_bytes echo), update s p m'))
          (Performs s req (cells m) (put_bits address quantity values echo))
          (bits_never_panic m 1 address quantity src).0
          (λ m' h. BitsCover-holds m 1 address quantity (accept.0.0 (m', h)).0)
          (λ h. accept.0.1 (holds-BitsCover m 1 address quantity (ground arith) h, room))
          (λ m' h. (
            refl,
            units-update s (request_id req) p m' w e
                ∙ ap (with_unit (units s) (request_id req)) (
                    cells-write_bits m 1 address quantity src (w.formed p m d) (narrow.narrow p m d)
                      hs h
                    ∙ put_bits_in-congr (cells m) 1 address quantity (bit_at src) values same),
          ))
          (refl, refl))

  pub put_regs-Refines :
      (address quantity echo : ℕ) (src : List ℕ) (values : ℕ → ℕ)
      → ((k : ℕ) → k < quantity → word_at src k ≡ values k)
      → (quantity == 0) ≡ false
      → quantity * 2 ≤ length src
      → Refines s req (valid (put_regs address quantity values echo)) (
          found (resolve_memory s req) (refuse s req 2) λ p.
            attempt
              (write_regs (deref s p) 3 address quantity src)
              (refuse s req 2)
              λ m. ok (req.function_code ∷ (be_bytes address ++ be_bytes echo), update s p m))
  put_regs-Refines address quantity echo src values same pos room = on_unit _ _ λ p m e d.
      let wm = w.formed p m d in
      let accept = regs_accept_iff m 3 address quantity wm src in
      rw (pos, d)
        (attempt-permitted (Refines s req (invalid 2)) (write_regs (some m) 3 address quantity src)
          _ (refuse s req 2)
          (λ m'. ok (req.function_code ∷ (be_bytes address ++ be_bytes echo), update s p m'))
          (Performs s req (cells m) (put_regs address quantity values echo))
          (regs_never_panic m 3 address quantity wm src).0
          (λ m' h. RegsCover-holds m 3 address quantity (accept.0.0 (m', h)).0)
          (λ h. accept.0.1 (holds-RegsCover m 3 address quantity (ground arith) h, room))
          (λ m' h. (
            refl,
            units-update s (request_id req) p m' w e
                ∙ ap (with_unit (units s) (request_id req)) (
                    cells-write_regs m 3 address quantity src wm h
                    ∙ put_regs_in-congr (cells m) 3 address quantity (word_at src) values same),
          ))
          (refl, refl))
