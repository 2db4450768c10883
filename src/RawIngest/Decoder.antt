-- ===== src/RawIngest/Decoder.antt =====
-- internal/transport/rawingest: packet.go and decoder.go.
pub mod Packets
use mma.Base.{
  ℕ, ◌+◌, ◌*◌, ◌/◌, not, ◌==◌, ◌||◌, if◌then◌else◌, List, get_or, Outcome, ok, err, panic, ◌>>=◌,
  ◌>>◌, fail_if,
}
use mma.Words.{u16, load_u16}
use mma.Golang.Reader.{IoError, read_full}
use mma.Memorycore.Area.{Area, is_bit_area, is_reg_area}

pub record Packet : Type 0 where
  pub port : ℕ
  pub unit_id : ℕ
  pub area : Area
  pub address : ℕ
  pub count : ℕ
  pub payload : List ℕ

abbrev pub magic_0 : ℕ
magic_0 = b'R'

abbrev pub magic_1 : ℕ
magic_1 = b'I'

abbrev pub version_1 : ℕ
version_1 = 0x01

abbrev pub resp_ok : ℕ
resp_ok = 0

abbrev pub resp_rejected : ℕ
resp_rejected = 1

abbrev pub header_len : ℕ
header_len = 10

pub data PacketError : Type 0 where
  io : IoError → PacketError
  bad_magic bad_version count_is_zero invalid_area : PacketError

-- `count + 7` is a `uint16` sum.
unfoldable pub payload_len : Area → ℕ → Outcome PacketError ℕ
payload_len area count =
    if count == 0
    then err count_is_zero
    else if is_bit_area area
    then ok (u16 (count + 7) / 8)
    else if is_reg_area area
    then ok (count * 2)
    else err invalid_area

abbrev read_exact : ℕ → List ℕ → Outcome PacketError (List ℕ × List ℕ)
read_exact n r = elim (read_full n r) [ ok p ↦ ok p | err e ↦ err (io e) | panic ↦ panic ]

-- DecodeOne: the packet, and what the reader has left. The header is an array of ten bytes, whose
-- elements are read at constant indices.
unfoldable pub decode_one : List ℕ → ℕ → Outcome PacketError (Packet × List ℕ)
decode_one r port = do
  (hdr, r1) ← read_exact header_len r
  fail_if (not (get_or hdr 0 0 == magic_0) || not (get_or hdr 1 0 == magic_1)) bad_magic
  fail_if (not (get_or hdr 2 0 == version_1)) bad_version
  let area = get_or hdr 3 0
  unit_id ← load_u16 hdr 4
  addr ← load_u16 hdr 6
  count ← load_u16 hdr 8
  n ← payload_len area count
  (payload, r2) ← read_exact n r1
  ok (
    record {
      port = port;
      unit_id = unit_id;
      area = area;
      address = addr;
      count = count;
      payload = payload;
    },
    r2,
  )
