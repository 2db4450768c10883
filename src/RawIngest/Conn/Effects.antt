-- ===== src/RawIngest/Conn/Effects.antt =====
-- What one packet does to the store: the body of the loop of
-- internal/transport/rawingest/handle_conn.go.
use mma.Base.{
  ℕ, ◌≡◌, ◌≢◌, ◌⊎◌, inl, inr, refl, arith, Bool-cases, Option, none, some, All, Outcome, ok, err,
  panic,
}
use mma.Words.{IsByte}
use mma.Memorycore.Area.{is_bit_area, is_reg_area}
use mma.Memorycore.Errors.{MemoryError, unknown_memory_id}
use mma.Memorycore.Memory.{Memory, write_bits, write_regs}
use mma.Memorycore.Memory.WellFormed.{IsWellFormed}
use mma.Memorycore.Memory.Acceptance.{bits_never_panic, regs_never_panic}
use mma.Memorycore.Memory.BitAreas.{write_bits-IsWellFormed}
use mma.Memorycore.Memory.RegAreas.{write_regs-IsWellFormed}
use mma.Memorycore.Store.{Store, Pointer, deref, update, get, must_get}
use mma.Memorycore.Store.WellFormed.{IsSoundStore, deref-reaches}
use mma.RawIngest.Decoder.{Packet, resp_ok, resp_rejected}
use mma.RawIngest.Conn.{packet_id, Written, written, apply_packet}

-- The memory after a packet's write, by the kind of its area.
abbrev pub Writes : Packet → Memory → Memory → Type 0
Writes pkt m m' =
    (write_bits (some m) pkt.area pkt.address pkt.count pkt.payload ≡ ok m')
    ⊎ (write_regs (some m) pkt.area pkt.address pkt.count pkt.payload ≡ ok m')

-- A packet is rejected and changes nothing, or is accepted, and the memory that it names is the one
-- that its write gives.
pub data Ingested (s : Store) (pkt : Packet) (resp : ℕ) (s' : Store) : Type 0 where
  rejected : resp ≡ resp_rejected → s' ≡ s → Ingested s pkt resp s'
  accepted :
      (p : Pointer) (m m' : Memory)
      → resp ≡ resp_ok
      → get (some s) (packet_id pkt) ≡ some p
      → deref s p ≡ some m
      → Writes pkt m m'
      → IsWellFormed m'
      → s' ≡ update s p m'
      → Ingested s pkt resp s'

abbrev pub IngestEnds : Store → Packet → Written → Type 0
IngestEnds s pkt (ok (resp, s')) = Ingested s pkt resp s'
IngestEnds s pkt (err e) = ⊥
IngestEnds s pkt panic = ⊥

module _ (s : Store) (pkt : Packet) where
  written-IngestEnds :
      (p : Pointer) (m : Memory) (o : Outcome MemoryError Memory)
      → get (some s) (packet_id pkt) ≡ some p
      → deref s p ≡ some m
      → o ≢ panic
      → ((m' : Memory) → o ≡ ok m' → Writes pkt m m' × IsWellFormed m')
      → IngestEnds s pkt (written s p o)
  written-IngestEnds p m (ok m') g d h f =
      let (how, formed) = f m' refl in accepted p m m' refl g d how formed refl
  written-IngestEnds p m (err e) g d h f = rejected refl refl
  written-IngestEnds p m panic g d h f = absurd (h refl)

  must_get-get :
      (o : Option Pointer)
      → get (some s) (packet_id pkt) ≡ o
      → must_get (some s) (packet_id pkt) ≢ panic
  unfolding must_get
  must_get-get o e = ground arith

  module _ (w : IsSoundStore s) (bytes : All IsByte pkt.payload) where
    at_pointer :
        (p : Pointer) (m : Memory)
        → get (some s) (packet_id pkt) ≡ some p
        → deref s p ≡ some m
        → must_get (some s) (packet_id pkt) ≡ ok p
        → IngestEnds s pkt (apply_packet s pkt)
    unfolding apply_packet
    at_pointer p m g d found =
        let wm = w.formed p m d in
        elim (Bool-cases (is_bit_area pkt.area)) [
          | inl bit ↦
              rw (found, bit, d, apply_packet)
                (written-IngestEnds p m _ g d
                  (bits_never_panic m pkt.area pkt.address pkt.count pkt.payload).0
                  λ m' q. (
                    inl q,
                    write_bits-IsWellFormed m pkt.area pkt.address pkt.count pkt.payload wm q,
                  ))
          | inr no_bit ↦ elim (Bool-cases (is_reg_area pkt.area)) [
            | inl reg ↦
                rw (found, no_bit, reg, d, apply_packet)
                  (written-IngestEnds p m _ g d
                    (regs_never_panic m pkt.area pkt.address pkt.count wm pkt.payload).0
                    λ m' q. (
                      inr q,
                      write_regs-IsWellFormed m pkt.area pkt.address pkt.count pkt.payload wm q
                          bytes,
                    ))
            | inr no_reg ↦ rw (found, no_bit, no_reg, apply_packet) (rejected refl refl)
          ]
        ]

    -- On a sound store a packet whose payload is bytes never panics: it is rejected and changes
    -- nothing, or it is accepted and the memory that it names is replaced by the well-formed memory
    -- that WriteBits or WriteRegs gives.
    pub apply_packet-IngestEnds : IngestEnds s pkt (apply_packet s pkt)
    apply_packet-IngestEnds = from (get (some s) (packet_id pkt)) refl
      where
        from :
            (o : Option Pointer)
            → get (some s) (packet_id pkt) ≡ o
            → IngestEnds s pkt (apply_packet s pkt)
        from none e =
            let lost : must_get (some s) (packet_id pkt) ≡ err unknown_memory_id =
              unfold must_get in rw e in
            unfold apply_packet in rw (lost, apply_packet) (rejected refl refl)
        from (some p) e =
            let (m, d) = deref-reaches s p (w.reaches (packet_id pkt) p e) in
            let found : must_get (some s) (packet_id pkt) ≡ ok p = unfold must_get in rw e in
            at_pointer p m e d found
