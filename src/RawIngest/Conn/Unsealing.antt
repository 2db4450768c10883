-- ===== src/RawIngest/Conn/Unsealing.antt =====
-- State sealing across the two transports: what a raw-ingest write of the sealing bit
-- (internal/transport/rawingest/handle_conn.go) does to the first check of a Modbus request
-- (internal/transport/modbus/handle_conn.go).
use mma.Base.{
  take, ℕ, ◌≤◌, ◌≡◌, refl, ◌∙◌, ap, arith, true, not, ◌==◌, some, List, [], ◌∷◌, All, ok,
}
use mma.Words.{IsByte}
use mma.Memorycore.Area.{Area, is_bit_area}
use mma.Memorycore.Layout.{offset}
use mma.Memorycore.Bits.{bytes_for_bits, write_bits_at}
use mma.Memorycore.Bits.Loops.{bit_at}
use mma.Memorycore.Memory.{Memory, StateSealingDef, bits_area, write_bits}
use mma.Memorycore.Memory.Inversion.{write_bits-eq_ok}
use mma.Memorycore.Memory.WellFormed.{IsWellFormed, HasNarrowBits}
use mma.Memorycore.Memory.Acceptance.{BitsCover, read_bits-accepts, write_bits-accepts}
use mma.Memorycore.Memory.BitAreas.{bits_area-with_bits, write_bits-view}
use mma.Memorycore.Memory.RoundTrip.{read_bits-write_bits}
use mma.Memorycore.Store.{MemoryId, Store, Pointer, deref, update, get, must_get}
use mma.Memorycore.Store.WellFormed.{IsSoundStore, get-update, deref-update_self}
use mma.Modbus.Conn.{sealed_by, is_blocked}
use mma.Memorycore.Memory.BitReads.{read_bits-IsByte}
use mma.Modbus.Conn.Sealed.{flag-bit_at, is_blocked-deref}
use mma.RawIngest.Decoder.{Packet}
use mma.RawIngest.Conn.{apply_packet}

module _ (m : Memory) (area : Area) (address count : ℕ) where
  -- What WriteBits covered it covers afterwards.
  write_bits-BitsCover :
      (src : List ℕ) {m' : Memory}
      → write_bits (some m) area address count src ≡ ok m'
      → BitsCover m' area address count
  write_bits-BitsCover src h =
      let (l, b, e, range, room, q) = write_bits-eq_ok m area address count src h in
      let b' = write_bits_at b (offset l address) count (take (bytes_for_bits count) src) in
      let self : (area == area) ≡ true = ground arith in
      (l, b', rw (q, bits_area-with_bits m area l b e b' area, self), range)

-- A memory whose sealing bit was just written is sealed exactly if the bit is 0.
module _ (m m' : Memory) (seal : StateSealingDef) (v : ℕ) (w : IsWellFormed m)
    (narrow : HasNarrowBits m) (hv : IsByte v)
    (h : write_bits (some m) seal.area seal.address 1 (v ∷ []) ≡ ok m') where
  pub sealed_by-write_bits : sealed_by (some m') (some seal) ≡ not (bit_at (v ∷ []) 0)
  unfolding sealed_by
  sealed_by-write_bits =
      let zeros : All IsByte (0 ∷ []) = (omega arith, tt) in
      let cover = write_bits-BitsCover m seal.area seal.address 1 (v ∷ []) h in
      let (buf, read) = read_bits-accepts m' seal.area seal.address 1 (0 ∷ []) cover one_byte in
      let bit =
        read_bits-write_bits m seal.area seal.address 1 (v ∷ []) (0 ∷ []) w narrow (hv, tt) zeros h
          read 0 (omega arith) in
      rw (read, sealed_by)
        (flag-bit_at buf (read_bits-IsByte m' seal.area seal.address 1 (0 ∷ []) zeros read)
          ∙ ap not bit)
    where
      one_byte : bytes_for_bits 1 ≤ 1
      one_byte = unfold bytes_for_bits in omega arith

-- The packet that writes one byte to the sealing bit of a memory.
abbrev pub seal_packet : MemoryId → StateSealingDef → ℕ → Packet
seal_packet id seal v = record {
  port = id.port;
  unit_id = id.unit_id;
  area = seal.area;
  address = seal.address;
  count = 1;
  payload = v ∷ [];
}

-- On a sound store, for a memory with narrow bit areas and a sealing bit that lies in one of them, a
-- raw-ingest packet with that bit is accepted, and Modbus requests to the memory are blocked after it
-- exactly if the bit is 0: the bit 1 unseals, and the bit 0 seals again.
pub apply_packet-is_blocked :
    (s : Store) (id : MemoryId) (p : Pointer) (m : Memory) (seal : StateSealingDef) (v : ℕ)
    → IsSoundStore s
    → get (some s) id ≡ some p
    → deref s p ≡ some m
    → HasNarrowBits m
    → m.state_sealing ≡ some seal
    → BitsCover m seal.area seal.address 1
    → IsByte v
    → (s' : Store) × (apply_packet s (seal_packet id seal v) ≡ ok (0, s'))
      × (is_blocked s' id ≡ not (bit_at (v ∷ []) 0))
apply_packet-is_blocked s id p m seal v w g d narrow sealing cover hv =
    let (m', h) = write_bits-accepts m seal.area seal.address 1 (v ∷ []) cover one_byte in
    let wm = w.formed p m d in
    let keeps : m'.state_sealing ≡ some seal =
      (write_bits-view m seal.area seal.address 1 (v ∷ []) wm narrow (hv, tt) h 0 0).2 ∙ sealing in
    let there : deref (update s p m') p ≡ some m' = deref-update_self s p m' (w.reaches id p g) in
    let found : must_get (some s) id ≡ ok p = unfold must_get in rw g in
    let bit : is_bit_area seal.area ≡ true = bit_area cover in
    (
      update s p m',
      unfold apply_packet in rw (found, bit, d, h, apply_packet) refl,
      is_blocked-deref (update s p m') id p m' seal (get-update s p m' id ∙ g) there keeps
          ∙ sealed_by-write_bits m m' seal v wm narrow hv h,
    )
  where
    one_byte : bytes_for_bits 1 ≤ 1
    one_byte = unfold bytes_for_bits in omega arith

    bit_area : BitsCover m seal.area seal.address 1 → is_bit_area seal.area ≡ true
    bit_area (l, b, e, range) = unfold is_bit_area bits_area in ground arith
