-- ===== src/Raw/Frame.antt =====
-- internal/transport/raw: errors.go, header_v1.go, sizing.go and conn_reader.go.
pub mod Bounds
use mma.Base.{
  ℕ, ◌+◌, ◌*◌, ◌/◌, not, ◌==◌, ◌||◌, ltb, leb, Bool, if◌then◌else◌, List, length, get_or, Outcome,
  ok, err, panic, ◌>>=◌, ◌>>◌, fail_if,
}
use mma.Words.{u16, load_u16}
use mma.Golang.Reader.{read_full}

-- ErrRejected, and a failed write to the connection.
pub data RawError : Type 0 where
  rejected write_failed : RawError

abbrev pub raw_magic : ℕ
raw_magic = 0xa55a

abbrev pub raw_ver_v1 : ℕ
raw_ver_v1 = 0x01

abbrev pub raw_header_v1_size : ℕ
raw_header_v1_size = 14

-- A `MemoryArea` is a byte; the constants of constants.go are the four areas of memorycore.
abbrev pub MemoryArea : Type 0
MemoryArea = ℕ

abbrev pub is_bits : MemoryArea → Bool
is_bits area = area == 0x01 || area == 0x02

abbrev pub is_regs : MemoryArea → Bool
is_regs area = area == 0x03 || area == 0x04

pub record V1Header : Type 0 where
  pub magic : ℕ
  pub version : ℕ
  pub flags : ℕ
  pub area : MemoryArea
  pub rsv : ℕ
  pub unit_id : ℕ
  pub port : ℕ
  pub address : ℕ
  pub count : ℕ

-- The single bytes are read at constant indices, below the length that was checked.
unfoldable pub parse_v1_header : List ℕ → Outcome RawError V1Header
parse_v1_header buf = do
  fail_if (not (length buf == raw_header_v1_size)) rejected
  magic ← load_u16 buf 0
  unit_id ← load_u16 buf 6
  port ← load_u16 buf 8
  address ← load_u16 buf 10
  count ← load_u16 buf 12
  let area = get_or buf 4 0
  fail_if (not (magic == raw_magic)) rejected
  fail_if (not (get_or buf 2 0 == raw_ver_v1)) rejected
  fail_if (not (is_bits area || is_regs area)) rejected
  fail_if (count == 0) rejected
  ok (record {
    magic = magic;
    version = get_or buf 2 0;
    flags = get_or buf 3 0;
    area = area;
    rsv = get_or buf 5 0;
    unit_id = unit_id;
    port = port;
    address = address;
    count = count;
  })

-- `count + 7` is a `uint16` sum.
unfoldable pub payload_size : MemoryArea → ℕ → Outcome RawError ℕ
payload_size area count =
    if is_bits area
    then ok (u16 (count + 7) / 8)
    else if is_regs area
    then ok (count * 2)
    else err rejected

pub record RawFrame : Type 0 where
  pub header : V1Header
  pub payload : List ℕ

-- `readExact`, with the error that readFrame gives for it.
abbrev pub read_exact : ℕ → List ℕ → Outcome RawError (List ℕ × List ℕ)
read_exact n r = elim (read_full n r) [ ok p ↦ ok p | err e ↦ err rejected | panic ↦ panic ]

-- The frame, and what the reader has left.
unfoldable pub read_frame : List ℕ → ℕ → Outcome RawError (RawFrame × List ℕ)
read_frame r max_packet_bytes = do
  fail_if (leb max_packet_bytes raw_header_v1_size) rejected
  (hdr, r1) ← read_exact raw_header_v1_size r
  h ← parse_v1_header hdr
  p_len ← payload_size h.area h.count
  fail_if (ltb max_packet_bytes (raw_header_v1_size + p_len)) rejected
  (payload, r2) ← read_exact p_len r1
  ok (record { header = h; payload = payload }, r2)
