-- ===== src/RawIngest/Decoder/Packets.antt =====
-- DecodeOne of internal/transport/rawingest/decoder.go on every input.
use mma.Base.{
  ℕ, ◌+◌, ◌*◌, ◌≤◌, ◌<◌, ◌≡◌, ◌≢◌, inl, inr, refl, arith, Bool, true, false, not, ◌||◌, ◌==◌, leb,
  Bool-cases, List, length, take, drop, get_or, All, All-take, All-drop, length-take, length-drop,
  le→leb, lt→leb_false, Outcome, ok, err, panic, ap, sym, ◌∙◌, ok-injective, >>=-eq-ok,
  fail_if-eq_ok, ◌>>=◌, ◌>>◌, fail_if,
}
use mathlib.Core.Path.{subst}
use mma.Words.{IsByte, load_u16}
use mma.Golang.Reader.{eof, unexpected_eof, read_full}
use mma.Modbus.Wire.Framing.{load_u16-ok}
use mma.RawIngest.Decoder.{
  Packet, PacketError, io, bad_magic, bad_version, payload_len, read_exact, decode_one, magic_0,
  magic_1, version_1, header_len,
}

read_exact_all : (n : ℕ) (r : List ℕ) → n ≤ length r → read_exact n r ≡ ok (take n r, drop n r)
unfolding read_full
read_exact_all n r h = rw (le→leb n (length r) h, read_exact)

read_exact_few : (n : ℕ) (r : List ℕ) → length r < n → (e : PacketError) × (read_exact n r ≡ err e)
unfolding read_full
read_exact_few n r h = elim (Bool-cases (length r == 0)) [
  | inl e ↦ (io eof, rw (lt→leb_false (length r) n h, e, read_exact))
  | inr e ↦ (io unexpected_eof, rw (lt→leb_false (length r) n h, e, read_exact))
]

read_exact-ne-panic : (n : ℕ) (r : List ℕ) → read_exact n r ≢ panic
unfolding read_full
read_exact-ne-panic n r = ground arith

read_exact-parts :
    (n : ℕ) (r : List ℕ) (p : List ℕ × List ℕ)
    → read_exact n r ≡ ok p
    → (p.0 ≡ take n r) × (p.1 ≡ drop n r)
unfolding read_full
read_exact-parts n r p h = ground arith

payload_len-ne-panic : (area count : ℕ) → payload_len area count ≢ panic
unfolding payload_len
payload_len-ne-panic area count = ground arith

module _ (r : List ℕ) (port : ℕ) where
  -- What DecodeOne returns: an error, or a packet of bytes for the port, with ten bytes taken at least.
  abbrev pub Decoded : Outcome PacketError (Packet × List ℕ) → Type 0
  Decoded (ok (pkt, rest)) =
      (length rest + 10 ≤ length r) × (pkt.port ≡ port) × All IsByte pkt.payload × All IsByte rest
  Decoded (err e) = Unit {0}
  Decoded panic = ⊥

  fail_if-Decoded :
      (b : Bool) (e : PacketError) (k : Outcome PacketError (Packet × List ℕ))
      → Decoded k
      → Decoded (fail_if b e >> k)
  fail_if-Decoded true e k h = tt
  fail_if-Decoded false e k h = h

  >>=-Decoded {ℓ} :
      {A : Type ℓ} (m : Outcome PacketError A) (f : A → Outcome PacketError (Packet × List ℕ))
      → m ≢ panic
      → ((a : A) → m ≡ ok a → Decoded (f a))
      → Decoded (m >>= f)
  >>=-Decoded (ok a) f p h = h a refl
  >>=-Decoded (err e) f p h = tt
  >>=-Decoded panic f p h = absurd (p refl)

  -- DecodeOne never panics: it fails with an error, or takes ten bytes of the input at least and
  -- returns a packet for the listening port; the payload and what is left are bytes if the input is.
  pub decode_one-Decoded : All IsByte r → Decoded (decode_one r port)
  unfolding decode_one
  decode_one-Decoded hr = elim (Bool-cases (leb 10 (length r))) [
    | inr few ↦ let (e, q) = read_exact_few 10 r (ground arith) in rw q tt
    | inl enough ↦
        let many : 10 ≤ length r = ground arith in
        let len : length (take 10 r) ≡ 10 = omega (arith, length-take 10 r) in
        rw
          (
            read_exact_all 10 r many,
            load_u16-ok (take 10 r) 4 (omega arith),
            load_u16-ok (take 10 r) 6 (omega arith),
            load_u16-ok (take 10 r) 8 (omega arith),
          )
          (fail_if-Decoded
            (not (get_or (take 10 r) 0 0 == magic_0) || not (get_or (take 10 r) 1 0 == magic_1))
            bad_magic _
            (fail_if-Decoded (not (get_or (take 10 r) 2 0 == version_1)) bad_version _ (
              >>=-Decoded
                (payload_len (get_or (take 10 r) 3 0)
                  (get_or (take 10 r) 8 0 * 256 + get_or (take 10 r) 9 0))
                _ (payload_len-ne-panic _ _)
                λ n _.
                  >>=-Decoded (read_exact n (drop 10 r)) _ (read_exact-ne-panic n (drop 10 r))
                    λ p e.
                      let (take_p, drop_p) = read_exact-parts n (drop 10 r) p e in
                      rw (take_p, drop_p)
                        (
                          omega (arith, length-drop 10 r, length-drop n (drop 10 r)),
                          refl,
                          All-take IsByte n (drop 10 r) (All-drop IsByte 10 r hr),
                          All-drop IsByte n (drop 10 r) (All-drop IsByte 10 r hr),
                        ))))
  ]

read_exact-length :
    (n : ℕ) (r : List ℕ) {a b : List ℕ} → read_exact n r ≡ ok (a, b) → length b + n ≡ length r
unfolding read_full
read_exact-length n r h = ground (arith, length-drop n r)

read_exact-front : (n : ℕ) (r : List ℕ) {a b : List ℕ} → read_exact n r ≡ ok (a, b) → length a ≡ n
unfolding read_full
read_exact-front n r h = ground (arith, length-take n r)

-- A packet takes ten bytes at least, and its payload has the length of its header.
pub decode_one-sizes :
    (r : List ℕ) (port : ℕ) {pkt : Packet} {rest : List ℕ}
    → decode_one r port ≡ ok (pkt, rest)
    → (length rest + 10 ≤ length r) × (payload_len pkt.area pkt.count ≡ ok (length pkt.payload))
unfolding decode_one
decode_one-sizes r port {pkt} {rest} h =
    let ((hdr, r1), e1, h1) = >>=-eq-ok (read_exact header_len r) _ h in
    let (_, h2) =
      fail_if-eq_ok (not (get_or hdr 0 0 == magic_0) || not (get_or hdr 1 0 == magic_1)) bad_magic _
        h1 in
    let (_, h3) = fail_if-eq_ok (not (get_or hdr 2 0 == version_1)) bad_version _ h2 in
    let (unit_id, _, h4) = >>=-eq-ok (load_u16 hdr 4) _ h3 in
    let (addr, _, h5) = >>=-eq-ok (load_u16 hdr 6) _ h4 in
    let (count, _, h6) = >>=-eq-ok (load_u16 hdr 8) _ h5 in
    let (n, e7, h7) = >>=-eq-ok (payload_len (get_or hdr 3 0) count) _ h6 in
    let ((payload, r2), e2, h8) = >>=-eq-ok (read_exact n r1) _ h7 in
    let q = ok-injective h8 in
    let same : length r2 ≡ length rest = ap (λ (p : Packet × List ℕ). length p.1) q in
    (
      omega (
        arith,
        read_exact-length header_len r {a = hdr} {b = r1} e1,
        read_exact-length n r1 {a = payload} {b = r2} e2,
        same,
      ),
      subst (λ (p : Packet × List ℕ). payload_len p.0.area p.0.count ≡ ok (length p.0.payload)) q
          (e7 ∙ ap ok (sym (read_exact-front n r1 {a = payload} {b = r2} e2))),
    )

pub decode_one-length :
    (r : List ℕ) (port : ℕ) {pkt : Packet} {rest : List ℕ}
    → decode_one r port ≡ ok (pkt, rest)
    → length rest + 10 ≤ length r
decode_one-length r port h = (decode_one-sizes r port h).0
