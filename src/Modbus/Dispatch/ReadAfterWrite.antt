-- ===== src/Modbus/Dispatch/ReadAfterWrite.antt =====
-- Write Single Register, then Read Holding Registers, through DispatchMemory of
-- internal/transport/modbus/dispatch_memorycore.go.
use mma.Base.{ℕ, ◌+◌, ◌*◌, ◌/◌, ◌%◌, ◌≡◌, ◌∙◌, arith, some, List, [], ◌∷◌, ◌++◌, length, All, ok}
use mma.Words.{IsByte, IsU16, load_u16, word_at}
use mma.Memorycore.Memory.{Memory}
use mma.Memorycore.Memory.Acceptance.{RegsCover, write_regs-accepts, read_regs-accepts}
use mma.Memorycore.Memory.RegAreas.{write_regs-IsWellFormed, write_regs-RegsCover}
use mma.Memorycore.Memory.RegReads.{read_regs-view}
use mma.Memorycore.Memory.RoundTrip.{read_regs-write_regs}
use mma.Memorycore.Store.{Store, Pointer, deref, update, get, must_get}
use mma.Memorycore.Store.WellFormed.{IsSoundStore, get-update, deref-update_self}
use mma.Modbus.Wire.{Request, be_bytes}
use mma.Modbus.Encode.{build_write_single_response_pdu, build_read_response_pdu}
use mma.Modbus.Decode.{decode_read_request, decode_write_single}
use mma.Modbus.Dispatch.{
  request_id, resolve_memory, handle_write_single_reg, handle_read_regs, dispatch_memory,
}

-- A request with two words for its payload.
abbrev pub two_words : Request → ℕ → ℕ → ℕ → Request
two_words frame fc x y = record frame { function_code = fc; payload = be_bytes x ++ be_bytes y }

be_word : (v : ℕ) → IsU16 v → v / 256 % 256 * 256 + v % 256 ≡ v
be_word v h = omega arith

decode_write_single-be_bytes :
    (x y : ℕ)
    → IsU16 x
    → IsU16 y
    → decode_write_single (be_bytes x ++ be_bytes y) ≡ ok (record { address = x; value = y })
unfolding decode_write_single load_u16
decode_write_single-be_bytes x y hx hy = rw (be_word x hx, be_word y hy)

decode_read_request-be_bytes :
    (x y : ℕ)
    → IsU16 x
    → IsU16 y
    → decode_read_request (be_bytes x ++ be_bytes y) ≡ ok (record { address = x; quantity = y })
unfolding decode_read_request load_u16
decode_read_request-be_bytes x y hx hy = rw (be_word x hx, be_word y hy)

resolve_memory-some :
    (s : Store) (req : Request) (p : Pointer)
    → get (some s) (request_id req) ≡ some p
    → resolve_memory s req ≡ some p
unfolding resolve_memory must_get
resolve_memory-some s req p h = ground arith

word_at-be_bytes : (v : ℕ) → IsU16 v → word_at (be_bytes v) 0 ≡ v
unfolding word_at
word_at-be_bytes v h = be_word v h

-- On a sound store: a Write Single Register to an address that the holding registers of the request's
-- memory cover succeeds and echoes the request, and a Read Holding Registers of that register then
-- succeeds and answers with two bytes, big-endian the value that was written; it changes nothing.
pub dispatch_memory-write-read :
    (s : Store) (frame : Request) (p : Pointer) (m : Memory) (address value : ℕ)
    → IsSoundStore s
    → get (some s) (request_id frame) ≡ some p
    → deref s p ≡ some m
    → RegsCover m 3 address 1
    → IsU16 address
    → IsU16 value
    → (s' : Store) × (regs : List ℕ) × (dispatch_memory s (two_words frame 6 address value)
        ≡ ok (6 ∷ (be_bytes address ++ be_bytes value), s'))
      × (dispatch_memory s' (two_words frame 3 address 1) ≡ ok (3 ∷ 2 ∷ regs, s'))
      × (length regs ≡ 2)
      × (word_at regs 0 ≡ value)
unfolding dispatch_memory handle_write_single_reg handle_read_regs build_write_single_response_pdu
    build_read_response_pdu
dispatch_memory-write-read s frame p m address value w g d cover ha hv =
    let wm = w.formed p m d in
    let src = be_bytes value in
    let hs : All IsByte src = (omega arith, (omega arith, tt)) in
    let (m', h) = write_regs-accepts m 3 address 1 wm src cover (omega arith) in
    let wm' = write_regs-IsWellFormed m 3 address 1 src wm h hs in
    let cover' = write_regs-RegsCover m 3 address 1 src wm h in
    let (regs, r) = read_regs-accepts m' 3 address 1 wm' (0 ∷ 0 ∷ []) cover' (omega arith) in
    let (_, len) = read_regs-view m' 3 address 1 (0 ∷ 0 ∷ []) wm' r 0 in
    let s' = update s p m' in
    let there : deref s' p ≡ some m' =
      deref-update_self s p m' (w.reaches (request_id frame) p g) in
    let found = resolve_memory-some s (two_words frame 6 address value) p g in
    let found' =
      resolve_memory-some s' (two_words frame 3 address 1) p
        (get-update s p m' (request_id frame) ∙ g) in
    (
      s',
      regs,
      rw (decode_write_single-be_bytes address value ha hv, found, d, h),
      rw (decode_read_request-be_bytes address 1 ha (omega arith), found', there, r, len),
      len,
      read_regs-write_regs m 3 address 1 src (0 ∷ 0 ∷ []) wm hs h r 0 (omega arith)
          ∙ word_at-be_bytes value hv,
    )
