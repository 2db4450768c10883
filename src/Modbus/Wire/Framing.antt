-- ===== src/Modbus/Wire/Framing.antt =====
-- ReadRequest and BuildResponse of internal/transport/modbus, byte by byte.
use mma.Base.{
  ℕ, ◌+◌, ◌-◌, ◌*◌, ◌≤◌, ◌<◌, ◌≡◌, ◌⊎◌, ltb, refl, ◌∙◌, arith, true, false, ◌==◌, leb, le→leb,
  lt→leb_false, Bool-cases, inl, inr, List, length, take, drop, get_or, length-take, length-drop,
  All, All-take, All-drop, All-get_or, sym, ok, err, ok-injective,
}
use mathlib.Core.Path.{subst}
use mma.Words.{IsByte, load_u16}
use mma.Golang.Reader.{eof, unexpected_eof, read_full}
use mma.Modbus.Wire.{
  Request, FrameError, io, invalid_mbap_length, invalid_pdu_length, byte_at, read_exact, read_body,
  read_request,
}

module _ {κ} {E : Type κ} where
  pub load_u16-ok :
      (b : List ℕ) (k : ℕ)
      → k + 2 ≤ length b
      → load_u16 {E = E} b k ≡ ok (get_or b k 0 * 256 + get_or b (k + 1) 0)
  unfolding load_u16
  load_u16-ok b k h = rw (le→leb _ _ h)

  byte_at-ok : (b : List ℕ) (k : ℕ) → k < length b → byte_at {E = E} b k ≡ ok (get_or b k 0)
  byte_at-ok b k h = rw (le→leb (k + 1) (length b) (omega arith))

pub read_exact-ok : (n : ℕ) (r : List ℕ) → n ≤ length r → read_exact n r ≡ ok (take n r, drop n r)
unfolding read_full
read_exact-ok n r h = rw (le→leb n (length r) h, read_exact)

pub read_exact-short :
    (n : ℕ) (r : List ℕ) → length r < n → (e : FrameError) × (read_exact n r ≡ err e)
unfolding read_full
read_exact-short n r h = elim (Bool-cases (length r == 0)) [
  | inl e ↦ (io eof, rw (lt→leb_false (length r) n h, e, read_exact))
  | inr e ↦ (io unexpected_eof, rw (lt→leb_false (length r) n h, e, read_exact))
]

unfoldable pub word_from : List ℕ → ℕ → ℕ
word_from b k = get_or b k 0 * 256 + get_or b (k + 1) 0

-- With seven bytes at hand the header is read, and the body decides.
pub read_request-body :
    (r : List ℕ) (port : ℕ)
    → 7 ≤ length r
    → read_request r port
      ≡ read_body port
          (word_from (take 7 r) 0)
          (word_from (take 7 r) 2)
          (word_from (take 7 r) 4)
          (get_or (take 7 r) 6 0)
          (drop 7 r)
unfolding read_request word_from
read_request-body r port h =
    let len : length (take 7 r) ≡ 7 = omega (arith, length-take 7 r) in
    rw (
      read_exact-ok 7 r h,
      load_u16-ok (take 7 r) 0 (omega arith),
      load_u16-ok (take 7 r) 2 (omega arith),
      load_u16-ok (take 7 r) 4 (omega arith),
      byte_at-ok (take 7 r) 6 (omega arith),
    )

pub read_request-short :
    (r : List ℕ) (port : ℕ) → length r < 7 → (e : FrameError) × (read_request r port ≡ err e)
unfolding read_request
read_request-short r port h = let (e, q) = read_exact-short 7 r h in (e, rw q)

module _ (port tx proto len unit : ℕ) (r : List ℕ) where
  pub read_body-ok :
      2 ≤ len
      → len - 1 ≤ length r
      → read_body port tx proto len unit r
        ≡ ok (
          record {
            port = port;
            transaction_id = tx;
            protocol_id = proto;
            mbap_length = len;
            unit_id = unit;
            function_code = get_or (take (len - 1) r) 0 0;
            payload = drop 1 (take (len - 1) r);
          },
          drop (len - 1) r,
        )
  unfolding read_body
  read_body-ok h1 h2 =
      let taken : length (take (len - 1) r) ≡ len - 1 = omega (arith, length-take (len - 1) r) in
      let nonzero : (len == 0) ≡ false = ground arith in
      let nonempty : (len - 1 == 0) ≡ false = ground arith in
      rw (
        nonzero,
        nonempty,
        read_exact-ok (len - 1) r h2,
        byte_at-ok (take (len - 1) r) 0 (omega arith),
      )

  read_body-err :
      ((len < 2) ⊎ (length r < len - 1))
      → (e : FrameError) × (read_body port tx proto len unit r ≡ err e)
  unfolding read_body
  read_body-err (inl h) = elim (Bool-cases (len == 0)) [
    | inl e ↦ (invalid_mbap_length, rw e)
    | inr e ↦ let one : (len - 1 == 0) ≡ true = ground arith in (invalid_pdu_length, rw (e, one))
  ]
  read_body-err (inr h) =
      let nonzero : (len == 0) ≡ false = ground arith in
      let nonempty : (len - 1 == 0) ≡ false = ground arith in
      let (e, q) = read_exact-short (len - 1) r h in (e, rw (nonzero, nonempty, q))

  read_body_cases : ((2 ≤ len) × (len - 1 ≤ length r)) ⊎ ((len < 2) ⊎ (length r < len - 1))
  read_body_cases = elim (Bool-cases (ltb len 2)) [
    | inl low ↦ inr (inl (ground arith))
    | inr enough ↦ elim (Bool-cases (leb (len - 1) (length r))) [
      | inl all ↦ inl (ground arith, ground arith)
      | inr few ↦ inr (inr (ground arith))
    ]
  ]

-- ReadRequest never panics: it fails with an error, or takes eight bytes of the input at least and
-- returns a request for the listening port.
pub read_request_cases :
    (r : List ℕ) (port : ℕ)
    → ((e : FrameError) × (read_request r port ≡ err e))
      ⊎ ((req : Request) × (rest : List ℕ) × (read_request r port ≡ ok (req, rest))
          × (length rest + 8 ≤ length r)
          × (req.port ≡ port))
read_request_cases r port = elim (Bool-cases (leb 7 (length r))) [
  | inr few ↦ inl (read_request-short r port (ground arith))
  | inl enough ↦ body (ground arith)
]
  where
    body :
        7 ≤ length r
        → ((e : FrameError) × (read_request r port ≡ err e))
          ⊎ ((req : Request) × (rest : List ℕ) × (read_request r port ≡ ok (req, rest))
              × (length rest + 8 ≤ length r)
              × (req.port ≡ port))
    body h =
        let tx = word_from (take 7 r) 0 in
        let proto = word_from (take 7 r) 2 in
        let len = word_from (take 7 r) 4 in
        let unit = get_or (take 7 r) 6 0 in
        elim (read_body_cases port tx proto len unit (drop 7 r)) [
          | inr bad ↦
              let (e, q) = read_body-err port tx proto len unit (drop 7 r) bad in
              inl (e, read_request-body r port h ∙ q)
          | inl (lo, hi) ↦ inr (
            _,
            _,
            read_request-body r port h ∙ read_body-ok port tx proto len unit (drop 7 r) lo hi,
            omega (arith, length-drop 7 r, length-drop (len - 1) (drop 7 r)),
            refl,
          )
        ]

-- From a slice of bytes come a payload of bytes and a rest of bytes; so are the
-- unit and the function code.
pub read_request-IsByte :
    (r : List ℕ) (port : ℕ) {req : Request} {rest : List ℕ}
    → All IsByte r
    → read_request r port ≡ ok (req, rest)
    → IsByte req.unit_id × IsByte req.function_code × All IsByte req.payload × All IsByte rest
read_request-IsByte r port {req} {rest} bytes h = elim (Bool-cases (leb 7 (length r))) [
  | inr few ↦ let (e, q) = read_request-short r port (ground arith) in absurd (cc (q, h))
  | inl enough ↦ body (ground arith)
]
  where
    body :
        7 ≤ length r
        → IsByte req.unit_id × IsByte req.function_code × All IsByte req.payload × All IsByte rest
    body lo =
        let tx = word_from (take 7 r) 0 in
        let proto = word_from (take 7 r) 2 in
        let len = word_from (take 7 r) 4 in
        let unit = get_or (take 7 r) 6 0 in
        let body_eq = read_request-body r port lo in
        let tail = All-drop IsByte 7 r bytes in
        elim (read_body_cases port tx proto len unit (drop 7 r)) [
          | inr bad ↦
              let (e, q) = read_body-err port tx proto len unit (drop 7 r) bad in
              absurd (cc (body_eq, q, h))
          | inl (two, enough) ↦
              subst
                (λ (x : Request × List ℕ).
                  IsByte x.0.unit_id
                  × IsByte x.0.function_code
                  × All IsByte x.0.payload
                  × All IsByte x.1)
                (ok-injective
                  (sym (body_eq ∙ read_body-ok port tx proto len unit (drop 7 r) two enough) ∙ h))
                (
                  All-get_or IsByte (take 7 r) 6 0 (All-take IsByte 7 r bytes) (omega arith),
                  All-get_or IsByte _ 0 0 (All-take IsByte (len - 1) (drop 7 r) tail) (omega arith),
                  All-drop IsByte 1 _ (All-take IsByte (len - 1) (drop 7 r) tail),
                  All-drop IsByte (len - 1) (drop 7 r) tail,
                )
        ]
