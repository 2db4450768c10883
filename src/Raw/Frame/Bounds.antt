-- ===== src/Raw/Frame/Bounds.antt =====
-- What readFrame (internal/transport/raw/conn_reader.go) returns.
use mma.Base.{
  ℕ, ◌+◌, ◌-◌, ◌*◌, ◌/◌, if◌then◌else◌, refl, ◌≤◌, ◌≡◌, ◌≢◌, sym, arith, true, not, ◌||◌, ◌==◌, ltb,
  leb, ok-injective, List, length, take, drop, get_or, All, All-take, All-drop, All-get_or,
  length-take, length-drop, Outcome, ok, fail_if-eq_ok, >>=-eq-ok,
}
use mma.Words.{IsByte, IsU16, load_u16}
use mma.Golang.Reader.{read_full}
use mma.Raw.Frame.{
  RawError, rejected, V1Header, RawFrame, is_bits, is_regs, parse_v1_header, payload_size,
  read_exact, read_frame, raw_header_v1_size, raw_magic, raw_ver_v1,
}

-- The fourteen bytes of a header: the magic A5 5A, the version 1, and the fields of `h`, the words
-- big-endian.
pub record IsWire (b : List ℕ) (h : V1Header) : Type 0 where
  pub first : get_or b 0 0 ≡ 0xa5
  pub second : get_or b 1 0 ≡ 0x5a
  pub third : get_or b 2 0 ≡ 1
  pub magic : h.magic ≡ 0xa55a
  pub version : h.version ≡ 1
  pub flags : h.flags ≡ get_or b 3 0
  pub area : h.area ≡ get_or b 4 0
  pub rsv : h.rsv ≡ get_or b 5 0
  pub unit_id : h.unit_id ≡ get_or b 6 0 * 256 + get_or b 7 0
  pub port : h.port ≡ get_or b 8 0 * 256 + get_or b 9 0
  pub address : h.address ≡ get_or b 10 0 * 256 + get_or b 11 0
  pub count : h.count ≡ get_or b 12 0 * 256 + get_or b 13 0

-- The bytes of a payload: one for eight bits, two for a register. From 65529 bits on the sum of the code
-- wraps, and gives none.
abbrev pub bytes_of : ℕ → ℕ → ℕ
bytes_of area count =
    if leb area 2 then if leb count 65528 then (count + 7) / 8 else 0 else count * 2

-- A header that was parsed has a known area and a count from 1 to 65535.
pub record IsHeader (h : V1Header) : Type 0 where
  pub area : (is_bits h.area || is_regs h.area) ≡ true
  pub area_least : 1 ≤ h.area
  pub area_most : h.area ≤ 4
  pub some_cells : h.count ≢ 0
  pub word : IsU16 h.count

read_exact-parts :
    (n : ℕ) (r : List ℕ) {a b : List ℕ}
    → read_exact n r ≡ ok (a, b)
    → (n ≤ length r) × (a ≡ take n r) × (b ≡ drop n r)
unfolding read_full
read_exact-parts n r h = ground arith

load_u16-IsU16 :
    (b : List ℕ) (k : ℕ) {n : ℕ}
    → All IsByte b
    → ◌≡◌ {A = Outcome RawError ℕ} (load_u16 b k) (ok n)
    → IsU16 n
unfolding load_u16
load_u16-IsU16 b k h e =
    let zero_byte : IsByte 0 = omega arith in
    ground (arith, All-get_or IsByte b k 0 h zero_byte, All-get_or IsByte b (k + 1) 0 h zero_byte)

-- What holds of the value that is returned holds of the result.
returned {ℓ κ} :
    {A : Type ℓ} (P : A → Type κ) {a b : A} → ◌≡◌ {A = Outcome RawError A} (ok a) (ok b) → P a → P b
returned P e w = coe 0 1 (i. P (ok-injective e i)) w

load_u16-word :
    (b : List ℕ) (k : ℕ) {n : ℕ}
    → ◌≡◌ {A = Outcome RawError ℕ} (load_u16 b k) (ok n)
    → n ≡ get_or b k 0 * 256 + get_or b (k + 1) 0
unfolding load_u16
load_u16-word b k e = ground arith

parse_v1_header-IsHeader :
    (buf : List ℕ) {h : V1Header}
    → All IsByte buf
    → parse_v1_header buf ≡ ok h
    → IsHeader h × IsWire buf h
unfolding parse_v1_header
parse_v1_header-IsHeader buf {h} bytes e =
    let (_, e1) = fail_if-eq_ok (not (length buf == raw_header_v1_size)) rejected _ e in
    let (magic, w0, e2) = >>=-eq-ok (load_u16 buf 0) _ e1 in
    let (unit_id, w6, e3) = >>=-eq-ok (load_u16 buf 6) _ e2 in
    let (port, w8, e4) = >>=-eq-ok (load_u16 buf 8) _ e3 in
    let (address, w10, e5) = >>=-eq-ok (load_u16 buf 10) _ e4 in
    let (count, word, e6) = >>=-eq-ok (load_u16 buf 12) _ e5 in
    let (is_magic, e7) = fail_if-eq_ok (not (magic == raw_magic)) rejected _ e6 in
    let (is_version, e8) = fail_if-eq_ok (not (get_or buf 2 0 == raw_ver_v1)) rejected _ e7 in
    let (known, e9) =
      fail_if-eq_ok (not (is_bits (get_or buf 4 0) || is_regs (get_or buf 4 0))) rejected _ e8 in
    let (nonzero, e10) = fail_if-eq_ok (count == 0) rejected _ e9 in
    let parsed : V1Header = record {
      magic = magic;
      version = get_or buf 2 0;
      flags = get_or buf 3 0;
      area = get_or buf 4 0;
      rsv = get_or buf 5 0;
      unit_id = unit_id;
      port = port;
      address = address;
      count = count;
    } in
    let valid : IsHeader parsed = record {
      area = ground (arith, known);
      area_least = ground (arith, known);
      area_most = ground (arith, known);
      some_cells = ground (arith, nonzero);
      word = load_u16-IsU16 buf 12 bytes word;
    } in
    let byte = λ (k : ℕ). All-get_or IsByte buf k 0 bytes (omega arith) in
    let magic_word = load_u16-word buf 0 w0 in
    let the_magic : magic ≡ 0xa55a = ground (arith, is_magic) in
    let the_version : get_or buf 2 0 ≡ 1 = ground (arith, is_version) in
    let wire : IsWire buf parsed = record {
      first = omega (arith, magic_word, the_magic, byte 0, byte 1);
      second = omega (arith, magic_word, the_magic, byte 0, byte 1);
      third = the_version;
      magic = the_magic;
      version = the_version;
      flags = refl;
      area = refl;
      rsv = refl;
      unit_id = load_u16-word buf 6 w6;
      port = load_u16-word buf 8 w8;
      address = load_u16-word buf 10 w10;
      count = load_u16-word buf 12 word;
    } in
    returned (λ x. IsHeader x × IsWire buf x) e10 (valid, wire)

payload_size-bytes_of :
    (area count : ℕ) {n : ℕ}
    → 1 ≤ area
    → area ≤ 4
    → IsU16 count
    → payload_size area count ≡ ok n
    → n ≡ bytes_of area count
unfolding payload_size
payload_size-bytes_of area count least most u e = ground arith

-- A frame that was read from the front of the input.
pub record IsFrameOf (r : List ℕ) (max : ℕ) (f : RawFrame) (left : List ℕ) : Type 0 where
  pub wire : IsWire (take 14 r) f.header
  pub valid : IsHeader f.header
  pub size : payload_size f.header.area f.header.count ≡ ok (length f.payload)
  pub bytes : length f.payload ≡ bytes_of f.header.area f.header.count
  pub payload : f.payload ≡ take (length f.payload) (drop 14 r)
  pub rest : left ≡ drop (length f.payload) (drop 14 r)
  pub bounded : 14 + length f.payload ≤ max
  pub consumed : length left + 14 + length f.payload ≡ length r

-- On an input of bytes, a frame that readFrame returns is the first bytes of the input: fourteen of a
-- header, which are the magic A5 5A, the version 1 and the fields of the header, with an area from 1 to
-- 4 and a count that is not 0; and a payload of two bytes for each register, or of one byte for eight
-- bits (none from 65529 bits on). It is not longer than the cap, and what is left is the rest of the
-- input.
pub read_frame-IsFrameOf :
    (r : List ℕ) (max : ℕ) {f : RawFrame} {rest : List ℕ}
    → All IsByte r
    → read_frame r max ≡ ok (f, rest)
    → IsFrameOf r max f rest
unfolding read_frame
read_frame-IsFrameOf r max bytes e =
    let (_, e1) = fail_if-eq_ok (leb max raw_header_v1_size) rejected _ e in
    let ((hdr, r1), q1, e2) = >>=-eq-ok (read_exact 14 r) _ e1 in
    let (h, q2, e3) = >>=-eq-ok (parse_v1_header hdr) _ e2 in
    let (n, q3, e4) = >>=-eq-ok (payload_size h.area h.count) _ e3 in
    let (small, e5) = fail_if-eq_ok (ltb max (14 + n)) rejected _ e4 in
    let ((payload, r2), q4, e6) = >>=-eq-ok (read_exact n r1) _ e5 in
    let (enough, hq, rq) = read_exact-parts 14 r q1 in
    let (enough', pq, restq) = read_exact-parts n r1 q4 in
    let len : n ≡ length payload = rw pq (omega (arith, length-take n r1, enough')) in
    let left : length r1 ≡ length r - 14 = rw rq (length-drop 14 r) in
    let (valid, wire) = parse_v1_header-IsHeader hdr (rw hq (All-take IsByte 14 r bytes)) q2 in
    returned (λ (p : RawFrame × List ℕ). IsFrameOf r max p.0 p.1) e6
      (record {
        wire = rw (← hq) wire;
        valid = valid;
        size = rw (← len) q3;
        bytes =
            rw (← len)
              (payload_size-bytes_of h.area h.count valid.area_least valid.area_most valid.word q3);
        payload = rw (← len, ← rq) pq;
        rest = rw (← len, ← rq) restq;
        bounded = ground (arith, small, len);
        consumed = rw restq (omega (arith, length-drop n r1, left, len, enough, enough'));
      })

pub payload-IsByte :
    (r : List ℕ) (max : ℕ) (f : RawFrame) (left : List ℕ)
    → IsFrameOf r max f left
    → All IsByte r
    → All IsByte f.payload
payload-IsByte r max f left w bytes =
    coe 0 1 (i. All IsByte (sym w.payload i))
      (All-take IsByte (length f.payload) (drop 14 r) (All-drop IsByte 14 r bytes))

pub left-IsByte :
    (r : List ℕ) (max : ℕ) (f : RawFrame) (left : List ℕ)
    → IsFrameOf r max f left
    → All IsByte r
    → All IsByte left
left-IsByte r max f left w bytes =
    rw w.rest (All-drop IsByte (length f.payload) (drop 14 r) (All-drop IsByte 14 r bytes))
