-- ===== src/RawIngest/Spec/Ingests.antt =====
-- The answer to one packet of internal/transport/rawingest/handle_conn.go against the contract.
use mma.Base.{
  ℕ, ◌*◌, ◌≤◌, ◌<◌, ◌≡◌, ◌≢◌, inl, inr, refl, ap, ◌∙◌, arith, Bool, true, false, if◌then◌else◌,
  Bool-cases, some, Option-cases, length, All, Outcome, ok, err, panic,
}
use mma.Words.{IsByte, word_at}
use mma.Memorycore.Area.{is_bit_area, is_reg_area}
use mma.Memorycore.Errors.{MemoryError}
use mma.Memorycore.Bits.{bytes_for_bits}
use mma.Memorycore.Bits.Loops.{bit_at}
use mma.Memorycore.Memory.WellFormed.{bit_value, reg_value}
use mma.Memorycore.Memory.{Memory, write_bits, write_regs}
use mma.Memorycore.Memory.Acceptance.{
  bits_accept_iff, bits_never_panic, regs_accept_iff, regs_never_panic,
}
use mma.Memorycore.Store.{Store, Pointer, update, deref, get, must_get}
use mma.Memorycore.Store.WellFormed.{IsSoundStore, IsNarrowStore, deref-reaches}
use mma.Memorycore.Units.{holds, with_unit, put_bits_in, put_regs_in}
use mma.Memorycore.Units.Views.{
  cells, units, unit_of, BitsCover-holds, RegsCover-holds, holds-BitsCover, holds-RegsCover,
  cells-write_bits, cells-write_regs, units-update,
}
use mma.RawIngest.Decoder.{Packet, payload_len, resp_ok, resp_rejected}
use mma.RawIngest.Conn.{packet_id, Written, written, apply_packet}
use mma.RawIngest.Spec.{accepts, IsRejected, IsPut, IsIngestedBy, IsIngested}

-- The payload has the length that DecodeOne gives it.
abbrev pub IsSized : Packet → Type 0
IsSized pkt = payload_len pkt.area pkt.count ≡ ok (length pkt.payload)

-- A response of which `T` holds.
abbrev pub Responds : (ℕ → Store → Type 0) → Written → Type 0
Responds T (ok (resp, s')) = T resp s'
Responds T (err e) = ⊥
Responds T panic = ⊥

abbrev Ingests : Store → Packet → Written → Type 0
Ingests s pkt = Responds λ resp s'. IsIngested (units s) pkt resp (units s')

-- A write that succeeds exactly when `b` holds.
written-permitted :
    (s : Store) (p : Pointer) (o : Outcome MemoryError Memory) (b : Bool) (T S : ℕ → Store → Type 0)
    → o ≢ panic
    → ((m' : Memory) → o ≡ ok m' → b ≡ true)
    → (b ≡ true → (m' : Memory) × (o ≡ ok m'))
    → ((m' : Memory) → o ≡ ok m' → T resp_ok (update s p m'))
    → S resp_rejected s
    → if b then Responds T (written s p o) else Responds S (written s p o)
written-permitted s p (ok m') true T S np only when good bad = good m' refl
written-permitted s p (ok m') false T S np only when good bad = absurd (cc (only m' refl))
written-permitted s p (err e) true T S np only when good bad =
    let (m', h) = when refl in absurd (cc h)
written-permitted s p (err e) false T S np only when good bad = bad
written-permitted s p panic b T S np only when good bad = absurd (np refl)

sized_bits :
    (pkt : Packet)
    → IsSized pkt
    → is_bit_area pkt.area ≡ true
    → (0 < pkt.count) × (bytes_for_bits pkt.count ≤ length pkt.payload)
unfolding payload_len bytes_for_bits
sized_bits pkt h bit = (ground arith, ground arith)

sized_regs :
    (pkt : Packet)
    → IsSized pkt
    → is_bit_area pkt.area ≡ false
    → (0 < pkt.count) × (is_reg_area pkt.area ≡ true) × (pkt.count * 2 ≤ length pkt.payload)
unfolding payload_len
sized_regs pkt h no_bit = (ground arith, ground arith, ground arith)

module _ (s : Store) (pkt : Packet) (w : IsSoundStore s) (n : IsNarrowStore s)
    (bytes : All IsByte pkt.payload) (sized : IsSized pkt) where
  module _ (p : Pointer) (m : Memory) (g : get (some s) (packet_id pkt) ≡ some p)
      (d : deref s p ≡ some m) where
    Accepted : Written → Type 0
    Accepted r =
        if accepts (cells m) pkt
        then Responds (λ resp s'. IsPut (units s) pkt resp (units s') (cells m)) r
        else Responds (λ resp s'. IsRejected (units s) pkt resp (units s')) r

    bits_put :
        is_bit_area pkt.area ≡ true
        → Accepted (written s p (write_bits (some m) pkt.area pkt.address pkt.count pkt.payload))
    unfolding Accepted
    bits_put bit =
        let (pos, room) = sized_bits pkt sized bit in
        let wm = w.formed p m d in
        let accept = bits_accept_iff m pkt.area pkt.address pkt.count pkt.payload in
        rw bit (
          written-permitted s p (write_bits (some m) pkt.area pkt.address pkt.count pkt.payload)
            (holds (bit_value m pkt.area) pkt.address pkt.count)
            (λ resp s'.
              (resp ≡ resp_ok)
              × (units s'
                  ≡ with_unit (units s) (packet_id pkt)
                      (put_bits_in (cells m) pkt.area pkt.address pkt.count (bit_at pkt.payload))))
            (λ resp s'. IsRejected (units s) pkt resp (units s'))
            (bits_never_panic m pkt.area pkt.address pkt.count pkt.payload).0
            (λ m' h. BitsCover-holds m pkt.area pkt.address pkt.count (accept.0.0 (m', h)).0)
            (λ h. accept.0.1 (holds-BitsCover m pkt.area pkt.address pkt.count pos h, room))
            (λ m' h. (
              refl,
              units-update s (packet_id pkt) p m' w g
                  ∙ ap (with_unit (units s) (packet_id pkt)) (
                      cells-write_bits m pkt.area pkt.address pkt.count pkt.payload wm
                        (n.narrow p m d) bytes h),
            ))
            (refl, refl))

    regs_put :
        is_bit_area pkt.area ≡ false
        → Accepted (written s p (write_regs (some m) pkt.area pkt.address pkt.count pkt.payload))
    unfolding Accepted
    regs_put no_bit =
        let (pos, _, room) = sized_regs pkt sized no_bit in
        let wm = w.formed p m d in
        let accept = regs_accept_iff m pkt.area pkt.address pkt.count wm pkt.payload in
        rw no_bit (
          written-permitted s p (write_regs (some m) pkt.area pkt.address pkt.count pkt.payload)
            (holds (reg_value m pkt.area) pkt.address pkt.count)
            (λ resp s'.
              (resp ≡ resp_ok)
              × (units s'
                  ≡ with_unit (units s) (packet_id pkt)
                      (put_regs_in (cells m) pkt.area pkt.address pkt.count (word_at pkt.payload))))
            (λ resp s'. IsRejected (units s) pkt resp (units s'))
            (regs_never_panic m pkt.area pkt.address pkt.count wm pkt.payload).0
            (λ m' h. RegsCover-holds m pkt.area pkt.address pkt.count (accept.0.0 (m', h)).0)
            (λ h. accept.0.1 (holds-RegsCover m pkt.area pkt.address pkt.count pos h, room))
            (λ m' h. (
              refl,
              units-update s (packet_id pkt) p m' w g
                  ∙ ap (with_unit (units s) (packet_id pkt))
                      (cells-write_regs m pkt.area pkt.address pkt.count pkt.payload wm h),
            ))
            (refl, refl))

    settled :
        (r : Written)
        → Accepted r
        → Responds (λ resp s'. IsIngestedBy (units s) pkt resp (units s') (some (cells m))) r
    unfolding Accepted
    settled r h = elim (Bool-cases (accepts (cells m) pkt)) [
      | inl on ↦ rw on (rw on at h)
      | inr off ↦ rw off (rw off at h)
    ]

    found : must_get (some s) (packet_id pkt) ≡ ok p
    unfolding must_get
    found = rw g

    apply_bits :
        is_bit_area pkt.area ≡ true
        → apply_packet s pkt
          ≡ written s p (write_bits (some m) pkt.area pkt.address pkt.count pkt.payload)
    unfolding apply_packet
    apply_bits bit = rw (found, apply_packet, bit, d) refl

    apply_regs :
        is_bit_area pkt.area ≡ false
        → is_reg_area pkt.area ≡ true
        → apply_packet s pkt
          ≡ written s p (write_regs (some m) pkt.area pkt.address pkt.count pkt.payload)
    unfolding apply_packet
    apply_regs no_bit reg = rw (found, apply_packet, no_bit, reg, d) refl

    on_memory : Ingests s pkt (apply_packet s pkt)
    on_memory = elim (Bool-cases (is_bit_area pkt.area)) [
      | inl bit ↦ rw (apply_bits bit, g, unit_of, d) (settled _ (bits_put bit))
      | inr no_bit ↦
          let (_, reg, _) = sized_regs pkt sized no_bit in
          rw (apply_regs no_bit reg, g, unit_of, d) (settled _ (regs_put no_bit))
    ]

  apply_packet-Ingests : Ingests s pkt (apply_packet s pkt)
  unfolding apply_packet must_get
  apply_packet-Ingests = elim (Option-cases (get (some s) (packet_id pkt))) [
    | inl e ↦ rw (e, apply_packet) (refl, refl)
    | inr (p, e) ↦
        let (m, d) = deref-reaches s p (w.reaches (packet_id pkt) p e) in on_memory p m e d
  ]

  -- On a sound store with narrow bit areas, a packet as DecodeOne gives it, with a payload of bytes, is
  -- answered as the contract says: it is accepted exactly if its unit has a value at every address of
  -- it, and then the units after it are those with its values in its range and no other change.
  pub apply_packet-IsIngested :
      (resp : ℕ) × (s' : Store) × (apply_packet s pkt ≡ ok (resp, s'))
      × IsIngested (units s) pkt resp (units s')
  apply_packet-IsIngested = found_reply (apply_packet s pkt) refl apply_packet-Ingests
    where
      found_reply :
          (r : Written)
          → apply_packet s pkt ≡ r
          → Ingests s pkt r
          → (resp : ℕ) × (s' : Store) × (apply_packet s pkt ≡ ok (resp, s'))
            × IsIngested (units s) pkt resp (units s')
      found_reply (ok (resp, s')) e h = (resp, s', e, h)
      found_reply (err x) e h = elim h [ ]
      found_reply panic e h = elim h [ ]
