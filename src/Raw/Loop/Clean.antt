-- ===== src/Raw/Loop/Clean.antt =====
-- How the steps of Run (internal/transport/raw/ingest_loop.go) can fail.
use mma.Base.{
  ℕ, zero, suc, ◌+◌, ◌*◌, ◌/◌, ◌≤◌, ◌≡◌, refl, arith, Bool, true, false, not, ◌||◌, ◌==◌, ltb, leb,
  Bool-cases, inl, inr, List, length, get_or, Outcome, ok, err, panic, ◌>>=◌, ◌>>◌, fail_if,
}
use mma.Words.{load_u16}
use mma.Modbus.Wire.Framing.{load_u16-ok}
use mma.Golang.Reader.{read_full}
use mma.Raw.Frame.{
  RawError, rejected, write_failed, is_bits, is_regs, raw_magic, raw_ver_v1, raw_header_v1_size,
  parse_v1_header, payload_size, read_exact, read_frame,
}
use mma.Raw.Align.{align_bits_loop, align_regs_loop, align_regs}

-- No failure but ErrRejected, and no panic.
abbrev pub Clean {ℓ} : {A : Type ℓ} → Outcome RawError A → Type 0
Clean (ok a) = Unit {0}
Clean (err rejected) = Unit {0}
Clean (err write_failed) = ⊥
Clean panic = ⊥

>>=-Clean {ℓ κ} :
    {A : Type ℓ} {B : Type κ} (m : Outcome RawError A) (f : A → Outcome RawError B)
    → Clean m
    → ((a : A) → m ≡ ok a → Clean (f a))
    → Clean (m >>= f)
>>=-Clean (ok a) f c h = h a refl
>>=-Clean (err rejected) f c h = tt
>>=-Clean (err write_failed) f c h = c
>>=-Clean panic f c h = c

fail_if-Clean {ℓ} :
    {A : Type ℓ} (b : Bool) (k : Outcome RawError A)
    → (b ≡ false → Clean k)
    → Clean (fail_if b rejected >> k)
fail_if-Clean true k h = tt
fail_if-Clean false k h = h refl

load_u16-Clean : (b : List ℕ) (k : ℕ) → k + 2 ≤ length b → Clean (load_u16 b k)
load_u16-Clean b k h = rw (load_u16-ok {E = RawError} b k h) tt

parse_v1_header-Clean : (buf : List ℕ) → Clean (parse_v1_header buf)
unfolding parse_v1_header
parse_v1_header-Clean buf = fail_if-Clean (not (length buf == raw_header_v1_size)) _ (λ e.
    let len : length buf ≡ 14 = ground (arith, e) in
    >>=-Clean (load_u16 buf 0) _ (load_u16-Clean buf 0 (omega (arith, len))) (λ magic _.
      >>=-Clean (load_u16 buf 6) _ (load_u16-Clean buf 6 (omega (arith, len))) (λ unit_id _.
        >>=-Clean (load_u16 buf 8) _ (load_u16-Clean buf 8 (omega (arith, len))) (λ port _.
          >>=-Clean (load_u16 buf 10) _ (load_u16-Clean buf 10 (omega (arith, len))) (λ address _.
            >>=-Clean (load_u16 buf 12) _ (load_u16-Clean buf 12 (omega (arith, len))) (λ count _.
              fail_if-Clean (not (magic == raw_magic)) _ (λ _.
                fail_if-Clean (not (get_or buf 2 0 == raw_ver_v1)) _ (λ _.
                  fail_if-Clean (not (is_bits (get_or buf 4 0) || is_regs (get_or buf 4 0))) _
                    (λ _. fail_if-Clean (count == 0) _ (λ _. tt))))))))))

read_exact-Clean : (n : ℕ) (r : List ℕ) → Clean (read_exact n r)
unfolding read_full
read_exact-Clean n r = elim (Bool-cases (leb n (length r))) [
  | inl e ↦ rw (e, read_exact) tt
  | inr e ↦ elim (Bool-cases (length r == 0)) [
    | inl z ↦ rw (e, z, read_exact) tt
    | inr z ↦ rw (e, z, read_exact) tt
  ]
]

payload_size-Clean : (area count : ℕ) → Clean (payload_size area count)
unfolding payload_size
payload_size-Clean area count = elim (Bool-cases (is_bits area)) [
  | inl e ↦ rw e tt
  | inr e ↦ elim (Bool-cases (is_regs area)) [ inl z ↦ rw (e, z) tt | inr z ↦ rw (e, z) tt ]
]

pub read_frame-Clean : (r : List ℕ) (max : ℕ) → Clean (read_frame r max)
unfolding read_frame
read_frame-Clean r max = fail_if-Clean (leb max raw_header_v1_size) _ (λ _.
    >>=-Clean (read_exact 14 r) _ (read_exact-Clean 14 r) (λ (hdr, r1) _.
      >>=-Clean (parse_v1_header hdr) _ (parse_v1_header-Clean hdr) (λ h _.
        >>=-Clean (payload_size h.area h.count) _ (payload_size-Clean h.area h.count) (λ n _.
          fail_if-Clean (ltb max (14 + n)) _
            (λ _. >>=-Clean (read_exact n r1) _ (read_exact-Clean n r1) (λ p _. tt))))))

pub align_bits_loop-Clean : (n i : ℕ) (payload : List ℕ) → Clean (align_bits_loop n i payload)
unfolding align_bits_loop
align_bits_loop-Clean zero i payload = tt
align_bits_loop-Clean (suc n) i payload = fail_if-Clean (leb (length payload) (i / 8)) _ (λ _.
    >>=-Clean (align_bits_loop n (i + 1) payload) _ (align_bits_loop-Clean n (i + 1) payload)
      (λ out _. tt))

align_regs_loop-Clean :
    (n i : ℕ) (payload : List ℕ)
    → (i + n) * 2 ≤ length payload
    → Clean (align_regs_loop n i payload)
unfolding align_regs_loop
align_regs_loop-Clean zero i payload h = tt
align_regs_loop-Clean (suc n) i payload h =
    >>=-Clean (load_u16 payload (i * 2)) _ (load_u16-Clean payload (i * 2) (omega arith)) (λ v _.
      >>=-Clean (align_regs_loop n (i + 1) payload) _
        (align_regs_loop-Clean n (i + 1) payload (omega arith)) (λ out _. tt))

pub align_regs-Clean : (payload : List ℕ) (count : ℕ) → Clean (align_regs payload count)
unfolding align_regs
align_regs-Clean payload count =
    fail_if-Clean (not (length payload == count * 2)) _
      (λ e. align_regs_loop-Clean count 0 payload (ground (arith, e)))
