-- ===== src/Raw/Adapter/Lands.antt =====
-- What it is for a frame to land in the slices of a runtime memory (internal/transport/raw), and the
-- loop of one method of memory_adapter.go.
use mma.Base.{
  ℕ, ◌+◌, ◌-◌, ◌≤◌, ◌<◌, ◌≡◌, ◌⊎◌, ◌∙◌, ap, arith, Bool, true, false, ◌==◌, ◌&&◌, leb,
  if◌then◌else◌, Bool-cases, inl, inr, within, within_congr, List, length, get_or, ok, panic,
}
use mma.Words.{word_at}
use mma.Memorycore.Bits.Loops.{bit_at}
use mma.Raw.Frame.{RawFrame, is_bits}
use mma.Raw.Adapter.{Slice, RuntimeMemory, put_cells}
use mma.Raw.Adapter.Writes.{IsSlice, IsApart, put_cells-ok, put_cells-panic}

-- The four slices of a memory are slices, and none is a part of another.
pub record IsRuntimeMemory {W : Type 0} (mem : RuntimeMemory W) : Type 0 where
  pub coils : IsSlice mem.coils
  pub discrete : IsSlice mem.discrete_inputs
  pub holding : IsSlice mem.holding_regs
  pub input : IsSlice mem.input_regs
  pub coils_apart :
      IsApart mem.coils mem.discrete_inputs
      × IsApart mem.coils mem.holding_regs
      × IsApart mem.coils mem.input_regs
  pub discrete_apart :
      IsApart mem.discrete_inputs mem.coils
      × IsApart mem.discrete_inputs mem.holding_regs
      × IsApart mem.discrete_inputs mem.input_regs
  pub holding_apart :
      IsApart mem.holding_regs mem.coils
      × IsApart mem.holding_regs mem.discrete_inputs
      × IsApart mem.holding_regs mem.input_regs
  pub input_apart :
      IsApart mem.input_regs mem.coils
      × IsApart mem.input_regs mem.discrete_inputs
      × IsApart mem.input_regs mem.holding_regs

-- Value `k` of a frame: a bit as 0 or 1, or a big-endian word.
abbrev pub value_of : RawFrame → ℕ → ℕ
value_of f k =
    if is_bits f.header.area then if bit_at f.payload k then 1 else 0 else word_at f.payload k

module _ {W : Type 0} (f : RawFrame) (w w' : W) where
  -- A slice that took the values of the frame at their addresses if `on`, and is otherwise as it was.
  abbrev pub Took : Slice W → Bool → Type 0
  Took slice on =
      (length (slice.cells w') ≡ length (slice.cells w))
      × ((j : ℕ)
          → get_or (slice.cells w') j 0 ≡ (
              if on && within f.header.address f.header.count j
              then value_of f (j - f.header.address)
              else get_or (slice.cells w) j 0))

  abbrev pub Landed : RuntimeMemory W → Type 0
  Landed mem =
      Took mem.coils (f.header.area == 0x01)
      × Took mem.discrete_inputs (f.header.area == 0x02)
      × Took mem.holding_regs (f.header.area == 0x03)
      × Took mem.input_regs (f.header.area == 0x04)

-- The slice that the area of a frame selects.
abbrev pub slice_at : {W : Type 0} → RuntimeMemory W → ℕ → Slice W
slice_at mem area =
    if area == 0x01
    then mem.coils
    else if area == 0x02
    then mem.discrete_inputs
    else if area == 0x03
    then mem.holding_regs
    else mem.input_regs

module _ {ℓ} {A : Type ℓ} {W : Type 0} (f : RawFrame) (w : W) (cell : A → ℕ) (a : A) (out : List A)
    (len : length out ≡ f.header.count)
    (values : (k : ℕ) → k < f.header.count → cell (get_or out k a) ≡ value_of f k) (slice : Slice W)
    (law : IsSlice slice) where
  -- The loop of one method: it fits, and its slice alone takes the values; or it panics.
  abbrev pub Put : Type 0
  Put =
      ((f.header.address + f.header.count ≤ length (slice.cells w))
        × (w' : W) × (put_cells cell slice f.header.address out w ≡ ok w')
        × Took f w w' slice true
        × ((other : Slice W) → IsApart slice other → Took f w w' other false))
      ⊎ ((length (slice.cells w) < f.header.address + f.header.count)
          × (put_cells cell slice f.header.address out w ≡ panic))

  pub put : 0 < f.header.count → Put
  put pos = elim (Bool-cases (leb (f.header.address + f.header.count) (length (slice.cells w)))) [
    | inr past ↦
        let out_of : length (slice.cells w) < f.header.address + f.header.count = ground arith in
        inr (
          out_of,
          put_cells-panic cell slice law out f.header.address w (omega (arith, len))
              (omega (arith, len)),
        )
    | inl room ↦
        let fits : f.header.address + f.header.count ≤ length (slice.cells w) = ground arith in
        let (w', e, l, view, others) =
          put_cells-ok cell slice law out f.header.address w (omega (arith, len)) in
        inl (
          fits,
          w',
          e,
          (
            l,
            λ j.
                rw len at (view a j)
                ∙ within_congr f.header.address f.header.count j _ _ _
                    (λ lo hi. values (j - f.header.address) (omega arith)),
          ),
          λ other apart.
              let same = others other apart in
              (ap length same, λ j. ap (λ (c : List ℕ). get_or c j 0) same),
        )
  ]
