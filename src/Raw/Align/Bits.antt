-- ===== src/Raw/Align/Bits.antt =====
-- alignBits (internal/transport/raw/align_bits.go) against the bits of a packed slice.
use mma.Base.{
  ℕ, zero, suc, ◌+◌, ◌*◌, ◌/◌, ◌%◌, ◌^◌, ◌≤◌, ◌<◌, ◌≡◌, ◌≢◌, refl, arith, Bool, true, false, leb,
  Bool-cases, inl, inr, List, [], ◌∷◌, length, get_or, All, All-get_or, get_or-cons_values,
  lt→leb_false, ok, err,
}
use mma.Words.{IsByte, IsU16}
use mma.Memorycore.Bits.{is_set}
use mma.Memorycore.Bits.Byte.{is_set-bit_of}
use mma.Memorycore.Bits.Loops.{bit_at}
use mma.Raw.Frame.{rejected, is_bits, payload_size, RawFrame}
use mma.Raw.Frame.Bounds.{IsFrameOf, payload-IsByte}
use mma.Raw.Align.{align_bits_loop, align_bits}

-- The values that the loop gives are the bits from `i` on.
align_bits_loop-ok :
    (payload : List ℕ) (n i : ℕ)
    → All IsByte payload
    → i + n ≤ length payload * 8
    → (out : List Bool) × (align_bits_loop n i payload ≡ ok out)
      × (length out ≡ n)
      × ((k : ℕ) → k < n → get_or out k false ≡ bit_at payload (i + k))
unfolding align_bits_loop bit_at
align_bits_loop-ok payload zero i bytes h = ([], refl, refl, λ k lt. absurd (omega arith))
align_bits_loop-ok payload (suc n) i bytes h =
    let (out, e, len, values) = align_bits_loop-ok payload n (i + 1) bytes (omega arith) in
    let inside : leb (length payload) (i / 8) ≡ false =
      lt→leb_false (i / 8) (length payload) (omega arith) in
    let first : is_set (get_or payload (i / 8) 0) (2 ^ (i % 8)) ≡ bit_at payload i =
      is_set-bit_of (get_or payload (i / 8) 0) (i % 8)
        (All-get_or IsByte payload (i / 8) 0 bytes (omega arith)) (omega arith) in
    (
      is_set (get_or payload (i / 8) 0) (2 ^ (i % 8)) ∷ out,
      rw (inside, e) refl,
      omega (arith, len),
      get_or-cons_values (bit_at payload) false _ out i n first values,
    )

align_bits_loop-short :
    (payload : List ℕ) (n i : ℕ)
    → length payload * 8 < i + n
    → n ≢ 0
    → align_bits_loop n i payload ≡ err rejected
unfolding align_bits_loop
align_bits_loop-short payload zero i h nz = absurd (nz refl)
align_bits_loop-short payload (suc n) i h nz = elim (Bool-cases (leb (length payload) (i / 8))) [
  | inl e ↦ rw e refl
  | inr e ↦ rw (e, align_bits_loop-short payload n (i + 1) (omega arith) (ground arith)) refl
]

-- On a byte payload with at least `count` bits, AlignBits gives the first `count` of them.
pub align_bits-ok :
    (payload : List ℕ) (count : ℕ)
    → All IsByte payload
    → count ≤ length payload * 8
    → (out : List Bool) × (align_bits payload count ≡ ok out)
      × (length out ≡ count)
      × ((k : ℕ) → k < count → get_or out k false ≡ bit_at payload k)
align_bits-ok payload count bytes h =
    let (out, e, len, values) = align_bits_loop-ok payload count 0 bytes (omega arith) in
    (out, e, len, λ k lt. let z : 0 + k ≡ k = omega arith in rw z at (values k lt))

-- How many bits the payload of a frame has.
payload_size-bits :
    (area count n : ℕ)
    → is_bits area ≡ true
    → IsU16 count
    → count ≢ 0
    → payload_size area count ≡ ok n
    → (count ≤ 65528 → count ≤ n * 8) × (65528 < count → n ≡ 0)
unfolding payload_size
payload_size-bits area count n b u nz e =
    let q : n ≡ (count + 7) % 65536 / 8 = ground arith in
    (λ small. omega (arith, q), λ large. omega (arith, q))

module _ (r : List ℕ) (max : ℕ) (f : RawFrame) (rest : List ℕ) (w : IsFrameOf r max f rest)
    (b : is_bits f.header.area ≡ true) where
  -- For a frame of coils or discrete inputs that was read from an input of bytes, with a count of 65528 at
  -- most, alignBits gives exactly that many values: the bits of the payload, LSB first.
  pub align_bits-frame :
      All IsByte r
      → f.header.count ≤ 65528
      → (out : List Bool) × (align_bits f.payload f.header.count ≡ ok out)
        × (length out ≡ f.header.count)
        × ((k : ℕ) → k < f.header.count → get_or out k false ≡ bit_at f.payload k)
  align_bits-frame bytes small =
      let (enough, _) =
        payload_size-bits f.header.area f.header.count (length f.payload) b w.valid.word
          w.valid.some_cells w.size in
      align_bits-ok f.payload f.header.count (payload-IsByte r max f rest w bytes) (enough small)

  -- A frame of coils or discrete inputs with a count above 65528 has no payload, and alignBits refuses it.
  pub align_bits-frame_wide :
      65528 < f.header.count → align_bits f.payload f.header.count ≡ err rejected
  align_bits-frame_wide large =
      let (_, none_left) =
        payload_size-bits f.header.area f.header.count (length f.payload) b w.valid.word
          w.valid.some_cells w.size in
      let empty = none_left large in
      align_bits_loop-short f.payload f.header.count 0 (omega (arith, empty)) w.valid.some_cells
