-- ===== src/Raw/Loop/Effects.antt =====
-- What Run (internal/transport/raw/ingest_loop.go) asks of a memory for one frame.
use mma.Base.{
  ℕ, ◌<◌, ◌≤◌, ◌≡◌, refl, arith, Bool, true, false, ◌==◌, if◌then◌else◌, Bool-cases, inl, inr, List,
  length, get_or, All,
}
use mma.Words.{IsByte, word_at}
use mma.Memorycore.Bits.Loops.{bit_at}
use mma.Raw.Frame.{RawFrame, is_bits, is_regs}
use mma.Raw.Frame.Bounds.{IsFrameOf}
use mma.Raw.Align.Bits.{align_bits-frame}
use mma.Raw.Align.Regs.{align_regs-frame}
use mma.Raw.Loop.{RawWritableMemory, apply_frame}

module _ {W : Type 0} (mem : RawWritableMemory W) (w : W) (r : List ℕ) (max : ℕ) (f : RawFrame)
    (rest : List ℕ) (frame : IsFrameOf r max f rest) where
  -- A frame of coils or discrete inputs, read from an input of bytes and with a count of 65528 at most,
  -- becomes one write of the memory's method for that area, at the header's address, of as many values as
  -- the header counts: the bits of the payload, LSB first.
  pub apply_frame-bits :
      is_bits f.header.area ≡ true
      → All IsByte r
      → f.header.count ≤ 65528
      → (out : List Bool) × (apply_frame mem f w ≡ (
          if f.header.area == 0x01
          then mem.write_coils f.header.address out w
          else mem.write_discrete_inputs f.header.address out w))
        × (length out ≡ f.header.count)
        × ((k : ℕ) → k < f.header.count → get_or out k false ≡ bit_at f.payload k)
  unfolding apply_frame
  apply_frame-bits b bytes small =
      let (out, e, len, values) = align_bits-frame r max f rest frame b bytes small in
      (
        out,
        elim (Bool-cases (f.header.area == 0x01)) [
          | inl one ↦ rw (one, e, apply_frame) refl
          | inr not_one ↦
              let two : (f.header.area == 0x02) ≡ true = ground arith in
              rw (not_one, two, e, apply_frame) refl
        ],
        len,
        values,
      )

  -- A frame of holding or input registers that was read from the input becomes one write of the memory's
  -- method for that area, at the header's address, of as many values as the header counts: the
  -- big-endian words of the payload.
  pub apply_frame-regs :
      is_regs f.header.area ≡ true
      → (out : List ℕ) × (apply_frame mem f w ≡ (
          if f.header.area == 0x03
          then mem.write_holding_registers f.header.address out w
          else mem.write_input_registers f.header.address out w))
        × (length out ≡ f.header.count)
        × ((k : ℕ) → k < f.header.count → get_or out k 0 ≡ word_at f.payload k)
  unfolding apply_frame
  apply_frame-regs b =
      let (out, e, len, values) = align_regs-frame r max f rest frame b in
      let not_one : (f.header.area == 0x01) ≡ false = ground arith in
      let not_two : (f.header.area == 0x02) ≡ false = ground arith in
      (
        out,
        elim (Bool-cases (f.header.area == 0x03)) [
          | inl three ↦ rw (not_one, not_two, three, e, apply_frame) refl
          | inr not_three ↦
              let four : (f.header.area == 0x04) ≡ true = ground arith in
              rw (not_one, not_two, not_three, four, e, apply_frame) refl
        ],
        len,
        values,
      )
