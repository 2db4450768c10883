-- ===== src/Raw/Adapter/Writes.antt =====
-- The writes of internal/transport/raw/memory_adapter.go to the slices of a memory.
use mma.Base.{
  ℕ, suc, ◌+◌, ◌-◌, ◌≤◌, ◌<◌, ◌≡◌, refl, ◌∙◌, arith, ltb, if◌then◌else◌, Bool-cases, inl, inr,
  within, within_grow, within_congr, ap, ◌==◌, lt→ltb, List, [], ◌∷◌, length, get_or, set,
  get_or-set, length-set, ok, panic,
}
use mma.Raw.Adapter.{Slice, put_cells}

-- What Go promises of a slice: an assigned element is read back, and the rest is as it was.
pub record IsSlice {W : Type 0} (slice : Slice W) : Type 0 where
  pub cells-with_cells : (d : List ℕ) (w : W) → slice.cells (slice.with_cells d w) ≡ d

-- A slice that an assignment to another one leaves.
pub record IsApart {W : Type 0} (slice other : Slice W) : Type 0 where
  pub kept : (d : List ℕ) (w : W) → other.cells (slice.with_cells d w) ≡ other.cells w

module _ {ℓ} {A : Type ℓ} {W : Type 0} (cell : A → ℕ) (slice : Slice W) (law : IsSlice slice) where
  -- The value that cell `j` takes.
  abbrev at : A → List A → ℕ → A → ℕ → ℕ
  at v values k a j = cell (get_or (v ∷ values) (j - k) a)

  later :
      (v : A) (values : List A) (k j : ℕ) (a : A)
      → k + 1 ≤ j
      → j < k + 1 + length values
      → cell (get_or values (j - (k + 1)) a) ≡ at v values k a j
  later v values k j a lo hi = let e : j - k ≡ suc (j - (k + 1)) = omega arith in rw e refl

  first :
      (v : A) (values : List A) (k j : ℕ) (a : A) (old : ℕ)
      → (if j == k then cell v else old) ≡ (if j == k then at v values k a k else old)
  first v values k j a old = let e : k - k ≡ 0 = omega arith in rw e refl

  pub put_cells-ok :
      (values : List A) (k : ℕ) (w : W)
      → k + length values ≤ length (slice.cells w)
      → (w' : W) × (put_cells cell slice k values w ≡ ok w')
        × (length (slice.cells w') ≡ length (slice.cells w))
        × ((a : A) (j : ℕ)
            → get_or (slice.cells w') j 0 ≡ (
                if within k (length values) j
                then cell (get_or values (j - k) a)
                else get_or (slice.cells w) j 0))
        × ((other : Slice W) → IsApart slice other → other.cells w' ≡ other.cells w)
  unfolding put_cells
  put_cells-ok [] k w room = (w, refl, refl, λ a j. ground arith, λ other apart. refl)
  put_cells-ok (v ∷ values) k w room =
      let d = slice.cells w in
      let d' = set d k (cell v) in
      let w1 = slice.with_cells d' w in
      let read = law.cells-with_cells d' w in
      let len : length (slice.cells w1) ≡ length d = ap length read ∙ length-set d k (cell v) in
      let (w', e, l, view, others) = put_cells-ok values (k + 1) w1 (omega (arith, len)) in
      (
        w',
        rw (lt→ltb k (length d) (omega arith)) e,
        l ∙ len,
        λ a j.
            view a j
            ∙ within_congr (k + 1) (length values) j _ _ _ (later v values k j a)
            ∙ ap (λ y. if within (k + 1) (length values) j then at v values k a j else y)
                (ap (λ (c : List ℕ). get_or c j 0) read
                  ∙ get_or-set d k j (cell v) 0 (omega arith)
                  ∙ first v values k j a (get_or d j 0))
            ∙ within_grow (at v values k a) (λ i. get_or d i 0) (length values) k j,
        λ other apart. others other apart ∙ apart.kept d' w,
      )

  pub put_cells-panic :
      (values : List A) (k : ℕ) (w : W)
      → length (slice.cells w) < k + length values
      → 0 < length values
      → put_cells cell slice k values w ≡ panic
  unfolding put_cells
  put_cells-panic [] k w out pos = absurd (omega arith)
  put_cells-panic (v ∷ values) k w out pos = elim (Bool-cases (ltb k (length (slice.cells w)))) [
    | inr past ↦ rw past refl
    | inl inside ↦
        let d = slice.cells w in
        let d' = set d k (cell v) in
        let len : length (slice.cells (slice.with_cells d' w)) ≡ length d =
          ap length (law.cells-with_cells d' w) ∙ length-set d k (cell v) in
        rw inside (
          put_cells-panic values (k + 1) (slice.with_cells d' w) (omega (arith, len))
            (ground arith))
  ]
