-- ===== src/Raw/Align/Regs.antt =====
-- alignRegs (internal/transport/raw/align_regs.go) against the words of a slice.
use mma.Base.{
  ℕ, zero, suc, ◌+◌, ◌*◌, ◌≤◌, ◌<◌, ◌≡◌, refl, arith, true, ◌==◌, List, [], ◌∷◌, length, get_or,
  get_or-cons_values, ok,
}
use mma.Words.{word_at}
use mma.Words.Laws.{load_u16-word_at}
use mma.Raw.Frame.{is_regs, payload_size, RawFrame}
use mma.Raw.Frame.Bounds.{IsFrameOf}
use mma.Raw.Align.{align_regs_loop, align_regs}

align_regs_loop-ok :
    (payload : List ℕ) (n i : ℕ)
    → (i + n) * 2 ≤ length payload
    → (out : List ℕ) × (align_regs_loop n i payload ≡ ok out)
      × (length out ≡ n)
      × ((k : ℕ) → k < n → get_or out k 0 ≡ word_at payload (i + k))
unfolding align_regs_loop
align_regs_loop-ok payload zero i h = ([], refl, refl, λ k lt. absurd (omega arith))
align_regs_loop-ok payload (suc n) i h =
    let (out, e, len, values) = align_regs_loop-ok payload n (i + 1) (omega arith) in
    (
      word_at payload i ∷ out,
      rw (load_u16-word_at payload i (omega arith), e) refl,
      omega (arith, len),
      get_or-cons_values (word_at payload) 0 _ out i n refl values,
    )

pub align_regs-ok :
    (payload : List ℕ) (count : ℕ)
    → length payload ≡ count * 2
    → (out : List ℕ) × (align_regs payload count ≡ ok out)
      × (length out ≡ count)
      × ((k : ℕ) → k < count → get_or out k 0 ≡ word_at payload k)
unfolding align_regs
align_regs-ok payload count h =
    let (out, e, len, values) = align_regs_loop-ok payload count 0 (omega (arith, h)) in
    let same : (length payload == count * 2) ≡ true = ground (arith, h) in
    (out, rw same e, len, λ k lt. let z : 0 + k ≡ k = omega arith in rw z at (values k lt))

module _ (r : List ℕ) (max : ℕ) (f : RawFrame) (rest : List ℕ) (w : IsFrameOf r max f rest)
    (b : is_regs f.header.area ≡ true) where
  -- For a frame of holding or input registers that was read from the input, alignRegs gives as many
  -- values as the header counts: the big-endian words of the payload.
  pub align_regs-frame :
      (out : List ℕ) × (align_regs f.payload f.header.count ≡ ok out)
      × (length out ≡ f.header.count)
      × ((k : ℕ) → k < f.header.count → get_or out k 0 ≡ word_at f.payload k)
  align_regs-frame = align_regs-ok f.payload f.header.count size
    where
      size : length f.payload ≡ f.header.count * 2
      size = unfold payload_size in ground (arith, w.size)
