-- ===== src/Raw/Adapter/Frames.antt =====
-- What one frame does to the slices of a memory: the switch of internal/transport/raw/ingest_loop.go on
-- the methods of memory_adapter.go.
use mma.Base.{
  ℕ, ◌+◌, ◌≤◌, ◌<◌, ◌≡◌, ◌⊎◌, refl, sym, ◌∙◌, arith, Bool, true, false, ◌==◌, Bool-cases, inl, inr,
  List, length, get_or, All, Outcome, ok, panic,
}
use mathlib.Core.Path.{subst}
use mma.Words.{IsByte}
use mma.Raw.Frame.{RawFrame, is_bits, is_regs}
use mma.Raw.Frame.Bounds.{IsFrameOf}
use mma.Raw.Loop.{apply_frame}
use mma.Raw.Loop.Effects.{apply_frame-bits, apply_frame-regs}
use mma.Raw.Adapter.{Slice, RuntimeMemory, bool_to_uint16, put_cells, memory_adapter}
use mma.Raw.Adapter.Writes.{IsSlice, IsApart}
use mma.Raw.Adapter.Lands.{IsRuntimeMemory, value_of, Took, Landed, slice_at, put}

module _ {W : Type 0} (mem : RuntimeMemory W) (law : IsRuntimeMemory mem) (w : W) (r : List ℕ)
    (max : ℕ) (f : RawFrame) (rest : List ℕ) (frame : IsFrameOf r max f rest) where
  -- The frame lands, or the index past the end of the slice panics.
  Settled : Slice W → Outcome W W → Type 0
  Settled slice o =
      ((f.header.address + f.header.count ≤ length (slice.cells w))
        × (w' : W) × (o ≡ ok w')
        × Landed f w w' mem)
      ⊎ ((length (slice.cells w) < f.header.address + f.header.count) × (o ≡ panic))

  Alone : Slice W → W → Type 0
  Alone slice w' =
      Took f w w' slice true × ((other : Slice W) → IsApart slice other → Took f w w' other false)

  settle {ℓ} :
      {A : Type ℓ} (cell : A → ℕ) (a : A) (out : List A)
      → length out ≡ f.header.count
      → ((k : ℕ) → k < f.header.count → cell (get_or out k a) ≡ value_of f k)
      → (slice : Slice W) → IsSlice slice
      → apply_frame (memory_adapter mem) f w ≡ put_cells cell slice f.header.address out w
      → ((w' : W) → Alone slice w' → Landed f w w' mem)
      → Settled slice (apply_frame (memory_adapter mem) f w)
  unfolding Settled Alone
  settle cell a out len values slice own e landed =
      let h = frame.valid in
      elim (put f w cell a out len values slice own (ground (arith, h.some_cells))) [
        | inl (fits, w', run, took, others) ↦ inl (fits, w', e ∙ run, landed w' (took, others))
        | inr (past, run) ↦ inr (past, e ∙ run)
      ]

  -- The flag of a slice, computed.
  flag :
      (w' : W) (slice : Slice W) (on : Bool) {b : Bool}
      → b ≡ on
      → Took f w w' slice on
      → Took f w w' slice b
  flag w' slice on e t = subst (Took f w w' slice) (sym e) t

  module _ (w' : W) where
    Landed-coils : (f.header.area == 0x01) ≡ true → Alone mem.coils w' → Landed f w w' mem
    unfolding Alone
    Landed-coils h (own, others) =
        let (d, r, i) = law.coils_apart in
        (
          flag w' mem.coils true h own,
          flag w' mem.discrete_inputs false (ground arith) (others _ d),
          flag w' mem.holding_regs false (ground arith) (others _ r),
          flag w' mem.input_regs false (ground arith) (others _ i),
        )

    Landed-discrete :
        (f.header.area == 0x02) ≡ true → Alone mem.discrete_inputs w' → Landed f w w' mem
    unfolding Alone
    Landed-discrete h (own, others) =
        let (c, r, i) = law.discrete_apart in
        (
          flag w' mem.coils false (ground arith) (others _ c),
          flag w' mem.discrete_inputs true h own,
          flag w' mem.holding_regs false (ground arith) (others _ r),
          flag w' mem.input_regs false (ground arith) (others _ i),
        )

    Landed-holding : (f.header.area == 0x03) ≡ true → Alone mem.holding_regs w' → Landed f w w' mem
    unfolding Alone
    Landed-holding h (own, others) =
        let (c, d, i) = law.holding_apart in
        (
          flag w' mem.coils false (ground arith) (others _ c),
          flag w' mem.discrete_inputs false (ground arith) (others _ d),
          flag w' mem.holding_regs true h own,
          flag w' mem.input_regs false (ground arith) (others _ i),
        )

    Landed-input : (f.header.area == 0x04) ≡ true → Alone mem.input_regs w' → Landed f w w' mem
    unfolding Alone
    Landed-input h (own, others) =
        let (c, d, r) = law.input_apart in
        (
          flag w' mem.coils false (ground arith) (others _ c),
          flag w' mem.discrete_inputs false (ground arith) (others _ d),
          flag w' mem.holding_regs false (ground arith) (others _ r),
          flag w' mem.input_regs true h own,
        )

  bits-Settled :
      is_bits f.header.area ≡ true
      → All IsByte r
      → f.header.count ≤ 65528
      → Settled (slice_at mem f.header.area) (apply_frame (memory_adapter mem) f w)
  unfolding memory_adapter bool_to_uint16
  bits-Settled b bytes small =
      let (out, e, len, values) =
        apply_frame-bits (memory_adapter mem) w r max f rest frame b bytes small in
      let cells : (k : ℕ)
          → k < f.header.count
          → bool_to_uint16 (get_or out k false) ≡ value_of f k =
        λ k h. rw (values k h, b) refl in
      elim (Bool-cases (f.header.area == 0x01)) [
        | inl one ↦
            subst (λ slice. Settled slice (apply_frame (memory_adapter mem) f w)) (rw one refl)
              (settle bool_to_uint16 false out len cells mem.coils law.coils (e ∙ rw one refl)
                (λ w'. Landed-coils w' one))
        | inr not_one ↦
            let two : (f.header.area == 0x02) ≡ true = ground arith in
            subst (λ slice. Settled slice (apply_frame (memory_adapter mem) f w))
              (rw (not_one, two) refl)
              (settle bool_to_uint16 false out len cells mem.discrete_inputs law.discrete
                (e ∙ rw not_one refl) (λ w'. Landed-discrete w' two))
      ]

  regs-Settled :
      is_bits f.header.area ≡ false
      → Settled (slice_at mem f.header.area) (apply_frame (memory_adapter mem) f w)
  unfolding memory_adapter
  regs-Settled no_bits =
      let h = frame.valid in
      let regs : is_regs f.header.area ≡ true = ground (arith, h.area) in
      let (out, e, len, values) = apply_frame-regs (memory_adapter mem) w r max f rest frame regs in
      let cells : (k : ℕ) → k < f.header.count → get_or out k 0 ≡ value_of f k =
        λ k h. rw (values k h, no_bits) refl in
      let not_one : (f.header.area == 0x01) ≡ false = ground arith in
      let not_two : (f.header.area == 0x02) ≡ false = ground arith in
      elim (Bool-cases (f.header.area == 0x03)) [
        | inl three ↦
            subst (λ slice. Settled slice (apply_frame (memory_adapter mem) f w))
              (rw (not_one, not_two, three) refl)
              (settle (λ v. v) 0 out len cells mem.holding_regs law.holding (e ∙ rw three refl)
                (λ w'. Landed-holding w' three))
        | inr not_three ↦
            let four : (f.header.area == 0x04) ≡ true = ground arith in
            subst (λ slice. Settled slice (apply_frame (memory_adapter mem) f w))
              (rw (not_one, not_two, not_three) refl)
              (settle (λ v. v) 0 out len cells mem.input_regs law.input (e ∙ rw not_three refl)
                (λ w'. Landed-input w' four))
      ]

  -- A frame read from an input of bytes, with a count of 65528 at most, written to a runtime memory: if
  -- its range ends in the slice of its area, that slice takes its values (a bit as 0 or 1, a register
  -- big-endian), and its other cells and the other slices are as they were; otherwise the write panics.
  pub apply_frame-memory_adapter :
      All IsByte r
      → f.header.count ≤ 65528
      → ((f.header.address + f.header.count ≤ length ((slice_at mem f.header.area).cells w))
          × (w' : W) × (apply_frame (memory_adapter mem) f w ≡ ok w')
          × Landed f w w' mem)
        ⊎ ((length ((slice_at mem f.header.area).cells w) < f.header.address + f.header.count)
            × (apply_frame (memory_adapter mem) f w ≡ panic))
  unfolding Settled
  apply_frame-memory_adapter bytes small = elim (Bool-cases (is_bits f.header.area)) [
    | inl b ↦ bits-Settled b bytes small
    | inr no_bits ↦ regs-Settled no_bits
  ]
