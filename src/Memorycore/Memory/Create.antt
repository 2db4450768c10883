-- ===== src/Memorycore/Memory/Create.antt =====
-- NewMemory of internal/memorycore/memory.go: what it refuses, and the memory that it makes.
use mma.Base.{
  ℕ, suc, ◌+◌, ◌-◌, ◌/◌, ◌%◌, ◌^◌, ◌==◌, ◌≢◌, ◌≡◌, refl, arith, true, Option, none, some, List, [],
  get_or, replicate, length-replicate, All-replicate, get_or-replicate, ◌↔◌, ok-injective, ok, leb,
  ltb, ◌&&◌, if◌then◌else◌, if-intro,
}
use mma.Words.{IsByte, IsU16}
use mma.Memorycore.Area.{Area}
use mma.Memorycore.Layout.{AreaLayout, validate}
use mma.Memorycore.Layout.Laws.{IsLayout, validate-IsLayout, IsLayout-validate}
use mma.Memorycore.Bits.{bytes_for_bits}
use mma.Memorycore.Bits.Loops.{bit_at}
use mma.Memorycore.Memory.{MemoryLayouts, Memory, allocate, new_memory, bits_area, regs_area}
use mma.Memorycore.Memory.WellFormed.{
  IsBacked, IsWellFormed, bits_view, regs_view, bit_value, reg_value,
}

-- The layout's fields are `uint16`s.
abbrev pub IsU16Layout : Option AreaLayout → Type 0
IsU16Layout none = Unit {0}
IsU16Layout (some l) = IsU16 l.start × IsU16 l.size

pub record AreU16Layouts (layouts : MemoryLayouts) : Type 0 where
  pub coils : IsU16Layout layouts.coils
  pub discrete : IsU16Layout layouts.discrete_inputs
  pub holding : IsU16Layout layouts.holding_regs
  pub input : IsU16Layout layouts.input_regs

-- An area that is absent, or whose layout is sound.
abbrev pub IsSound : Option AreaLayout → Type 0
IsSound none = Unit {0}
IsSound (some l) = IsLayout l

pub record AreSound (layouts : MemoryLayouts) : Type 0 where
  pub coils : IsSound layouts.coils
  pub discrete : IsSound layouts.discrete_inputs
  pub holding : IsSound layouts.holding_regs
  pub input : IsSound layouts.input_regs

-- A slice of zeros.
abbrev IsClear : List ℕ → Type 0
IsClear b = (i : ℕ) → get_or b i 0 ≡ 0

module _ (cells : ℕ → ℕ) where
  allocate-replicate :
      (l : AreaLayout) {b : List ℕ}
      → allocate (some l) cells ≡ ok b
      → (validate l ≡ ok tt) × (b ≡ replicate (cells l.size) 0)
  unfolding allocate validate
  allocate-replicate l h = ground arith

  allocate-IsBacked :
      (P : ℕ → Type 0) (layout : Option AreaLayout) (b : List ℕ)
      → P 0
      → IsU16Layout layout
      → allocate layout cells ≡ ok b
      → IsBacked cells P layout b
  allocate-IsBacked P none b p u h = tt
  allocate-IsBacked P (some l) b p u h =
      let (v, q) = allocate-replicate l h in
      rw q (
        validate-IsLayout l u.0 u.1 v,
        length-replicate (cells l.size) 0,
        All-replicate P (cells l.size) 0 p,
      )

  allocate-IsClear :
      (layout : Option AreaLayout) (b : List ℕ) → allocate layout cells ≡ ok b → IsClear b
  allocate-IsClear none b h i = unfold allocate in rw (← ok-injective h)
  allocate-IsClear (some l) b h i =
      rw ((allocate-replicate l h).1) (get_or-replicate (cells l.size) i 0)

  allocate-IsSound :
      (layout : Option AreaLayout) (b : List ℕ)
      → IsU16Layout layout
      → allocate layout cells ≡ ok b
      → IsSound layout
  allocate-IsSound none b u h = tt
  allocate-IsSound (some l) b u h = validate-IsLayout l u.0 u.1 (allocate-replicate l h).0

  -- The slice that a sound layout gets.
  allocated : Option AreaLayout → List ℕ
  allocated none = []
  allocated (some l) = replicate (cells l.size) 0

  IsSound-allocate :
      (layout : Option AreaLayout) → IsSound layout → allocate layout cells ≡ ok (allocated layout)
  unfolding allocate allocated
  IsSound-allocate none h = refl
  IsSound-allocate (some l) h = rw (IsLayout-validate l h)

-- The slices of a new memory are the ones allocated, and no sealing is defined.
module _ (layouts : MemoryLayouts) (m : Memory) (h : new_memory layouts ≡ ok m) where
  new_memory-parts :
      (allocate layouts.coils bytes_for_bits ≡ ok m.coils_bits)
      × (allocate layouts.discrete_inputs bytes_for_bits ≡ ok m.discrete_inputs_bits)
      × (allocate layouts.holding_regs (λ size. size) ≡ ok m.holding_regs)
      × (allocate layouts.input_regs (λ size. size) ≡ ok m.input_regs)
  unfolding new_memory
  new_memory-parts = ground arith

  pub new_memory-layouts :
      (m.coils_layout ≡ layouts.coils)
      × (m.discrete_inputs_layout ≡ layouts.discrete_inputs)
      × (m.holding_regs_layout ≡ layouts.holding_regs)
      × (m.input_regs_layout ≡ layouts.input_regs)
      × (m.state_sealing ≡ none)
  unfolding new_memory
  new_memory-layouts = ground arith

  -- A memory that NewMemory makes from layouts of `uint16` fields is well formed.
  pub new_memory-IsWellFormed : AreU16Layouts layouts → IsWellFormed m
  new_memory-IsWellFormed u =
      let (c, d, r, i) = new_memory-parts in
      let (lc, ld, lr, li, s) = new_memory-layouts in
      record {
        coils =
            rw lc (allocate-IsBacked bytes_for_bits IsByte _ m.coils_bits (omega arith) u.coils c);
        discrete = rw ld (
            allocate-IsBacked bytes_for_bits IsByte _ m.discrete_inputs_bits (omega arith)
              u.discrete d);
        holding =
            rw lr
              (allocate-IsBacked (λ size. size) IsU16 _ m.holding_regs (omega arith) u.holding r);
        input =
            rw li (allocate-IsBacked (λ size. size) IsU16 _ m.input_regs (omega arith) u.input i);
      }

-- On layouts of `uint16` fields, NewMemory succeeds exactly when each layout that is given is sound.
pub new_memory_iff :
    (layouts : MemoryLayouts)
    → AreU16Layouts layouts
    → ((m : Memory) × (new_memory layouts ≡ ok m)) ↔ AreSound layouts
new_memory_iff layouts u = (
  λ (m, h).
      let (c, d, r, i) = new_memory-parts layouts m h in
      record {
        coils = allocate-IsSound bytes_for_bits layouts.coils m.coils_bits u.coils c;
        discrete =
            allocate-IsSound bytes_for_bits layouts.discrete_inputs m.discrete_inputs_bits
              u.discrete d;
        holding = allocate-IsSound (λ size. size) layouts.holding_regs m.holding_regs u.holding r;
        input = allocate-IsSound (λ size. size) layouts.input_regs m.input_regs u.input i;
      },
  λ sound. (
    record {
      coils_layout = layouts.coils;
      discrete_inputs_layout = layouts.discrete_inputs;
      holding_regs_layout = layouts.holding_regs;
      input_regs_layout = layouts.input_regs;
      coils_bits = allocated bytes_for_bits layouts.coils;
      discrete_inputs_bits = allocated bytes_for_bits layouts.discrete_inputs;
      holding_regs = allocated (λ size. size) layouts.holding_regs;
      input_regs = allocated (λ size. size) layouts.input_regs;
      state_sealing = none;
    },
    unfold new_memory in
        rw (
          IsSound-allocate bytes_for_bits layouts.coils sound.coils,
          IsSound-allocate bytes_for_bits layouts.discrete_inputs sound.discrete,
          IsSound-allocate (λ size. size) layouts.holding_regs sound.holding,
          IsSound-allocate (λ size. size) layouts.input_regs sound.input,
        ),
  ),
)

bits_view-clear :
    (layout : Option AreaLayout) (b : List ℕ) (k : ℕ)
    → IsClear b
    → bits_view (some (layout, b)) k ≢ some true
unfolding bit_at
bits_view-clear none b k h = λ e. cc
bits_view-clear (some l) b k h = rw (h ((k - l.start) / 8)) (zero_bit (2 ^ ((k - l.start) % 8)))
  where
    zero_bit :
        (p : ℕ)
        → (if leb l.start k && ltb k (l.start + l.size) then some (0 / p % 2 == 1) else none)
          ≢ some true
    zero_bit p = ground arith

regs_view-clear :
    (layout : Option AreaLayout) (b : List ℕ) (k v : ℕ)
    → IsClear b
    → regs_view (some (layout, b)) k ≡ some v
    → v ≡ 0
regs_view-clear none b k v h e = cc
regs_view-clear (some l) b k v h e = ground (arith, h (k - l.start))

new_memory-cells :
    (layouts : MemoryLayouts) (m : Memory)
    → new_memory layouts ≡ ok m
    → (x : Area) (k : ℕ)
    → (bit_value m x k ≢ some true) × ((v : ℕ) → reg_value m x k ≡ some v → v ≡ 0)
unfolding bit_value reg_value bits_area regs_area
new_memory-cells layouts m h x k =
    let (c, d, r, i) = new_memory-parts layouts m h in
    (
      if-intro (λ o. bits_view o k ≢ some true) (x == 1)
          (bits_view-clear m.coils_layout m.coils_bits k (allocate-IsClear bytes_for_bits _ _ c))
          (if-intro (λ o. bits_view o k ≢ some true) (x == 2)
            (bits_view-clear m.discrete_inputs_layout m.discrete_inputs_bits k
              (allocate-IsClear bytes_for_bits _ _ d))
            (λ e. cc)),
      if-intro (λ o. (v : ℕ) → regs_view o k ≡ some v → v ≡ 0) (x == 3)
          (λ v.
            regs_view-clear m.holding_regs_layout m.holding_regs k v
              (allocate-IsClear (λ size. size) _ _ r))
          (if-intro (λ o. (v : ℕ) → regs_view o k ≡ some v → v ≡ 0) (x == 4)
            (λ v.
              regs_view-clear m.input_regs_layout m.input_regs k v
                (allocate-IsClear (λ size. size) _ _ i))
            (λ v e. cc)),
    )

-- In a new memory no bit is set, and no register holds a number other than zero.
pub new_memory-view :
    (layouts : MemoryLayouts) (m : Memory)
    → new_memory layouts ≡ ok m
    → (x : Area) (k v : ℕ) → (bit_value m x k ≢ some true) × (reg_value m x k ≢ some (suc v))
new_memory-view layouts m h x k v =
    let (bits, regs) = new_memory-cells layouts m h x k in
    (bits, λ e. omega (arith, regs (suc v) e))
