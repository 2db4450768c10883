-- ===== src/Memorycore/Store/WellFormed.antt =====
-- The invariant of the store, and writes through its pointers.
use mma.Base.{
  ℕ, zero, suc, ◌<◌, ◌≡◌, ◌≢◌, refl, arith, true, false, ◌==◌, Bool-cases, inl, inr, ◌⊎◌, some,
  List, [], ◌∷◌, length, get_elem?, set, get_elem?-set_self, get_elem?-set_ne, length-set,
}
use mma.Memorycore.Memory.{Memory}
use mma.Memorycore.Memory.WellFormed.{IsWellFormed, HasNarrowBits, SameLayouts}
use mma.Memorycore.Store.{MemoryId, Pointer, Store, deref, update, get}

-- Every registered pointer reaches a memory, every memory is well formed, and no two identifiers share
-- a memory.
pub record IsSoundStore (s : Store) : Type 0 where
  pub reaches : (id : MemoryId) (p : Pointer) → get (some s) id ≡ some p → p < length s.heap
  pub formed : (p : Pointer) (m : Memory) → deref s p ≡ some m → IsWellFormed m
  pub unshared :
      (i j : MemoryId) (p : Pointer) → get (some s) i ≡ some p → get (some s) j ≡ some p → i ≡ j

-- No bit area of the store is so large that its byte count wraps.
pub record IsNarrowStore (s : Store) : Type 0 where
  pub narrow : (p : Pointer) (m : Memory) → deref s p ≡ some m → HasNarrowBits m

pub deref-reaches :
    (s : Store) (p : Pointer) → p < length s.heap → (m : Memory) × (deref s p ≡ some m)
deref-reaches s p h = find s.heap p h
  where
    find : (l : List Memory) (p : ℕ) → p < length l → (m : Memory) × (get_elem? l p ≡ some m)
    find [] p h = elim h [ ]
    find (x ∷ l) zero h = (x, refl)
    find (x ∷ l) (suc p) h = find l p (omega arith)

deref-bound : (l : List Memory) (p : ℕ) {m : Memory} → get_elem? l p ≡ some m → p < length l
deref-bound [] p h = cc
deref-bound (x ∷ l) zero h = omega arith
deref-bound (x ∷ l) (suc p) h = omega (arith, deref-bound l p h)

module _ (s : Store) (p : Pointer) (m' : Memory) where
  pub get-update : (id : MemoryId) → get (some (update s p m')) id ≡ get (some s) id
  unfolding get
  get-update id = refl

  pub deref-update_self : p < length s.heap → deref (update s p m') p ≡ some m'
  deref-update_self h = get_elem?-set_self s.heap p m' h

  pub deref-update_ne : (q : Pointer) → p ≢ q → deref (update s p m') q ≡ deref s q
  deref-update_ne q h = get_elem?-set_ne s.heap p q m' h

  -- A well-formed memory written through a pointer keeps the store sound.
  pub update-IsSoundStore : IsSoundStore s → IsWellFormed m' → IsSoundStore (update s p m')
  update-IsSoundStore w wm = record {
    reaches = λ id q h. rw (length-set s.heap p m') (w.reaches id q (rw (get-update id) at h));
    formed = λ q m h. formed q m h (Bool-cases (q == p));
    unshared = λ i j q hi hj. w.unshared i j q (rw (get-update i) at hi) (rw (get-update j) at hj);
  }
    where
      formed :
          (q : Pointer) (m : Memory)
          → deref (update s p m') q ≡ some m
          → ((q == p) ≡ true) ⊎ ((q == p) ≡ false)
          → IsWellFormed m
      formed q m h (inl e) =
          let here : q ≡ p = ground arith in
          let h' : deref (update s p m') p ≡ some m = rw here at h in
          let bound : p < length s.heap =
            omega (arith, deref-bound (set s.heap p m') p h', length-set s.heap p m') in
          let same : m ≡ m' = cc (h', deref-update_self bound) in rw same wm
      formed q m h (inr e) =
          let apart : p ≢ q = ground arith in w.formed q m (rw (deref-update_ne q apart) at h)

  -- So does a memory with the same layouts keep the bit areas narrow.
  pub update-IsNarrowStore :
      (m : Memory)
      → deref s p ≡ some m
      → SameLayouts m m'
      → IsNarrowStore s
      → IsNarrowStore (update s p m')
  update-IsNarrowStore m d same n = record { narrow = λ q x h. narrow q x h (Bool-cases (q == p)) }
    where
      narrow :
          (q : Pointer) (x : Memory)
          → deref (update s p m') q ≡ some x
          → ((q == p) ≡ true) ⊎ ((q == p) ≡ false)
          → HasNarrowBits x
      narrow q x h (inl e) =
          let here : q ≡ p = ground arith in
          let h' : deref (update s p m') p ≡ some x = rw here at h in
          let bound : p < length s.heap = deref-bound s.heap p d in
          let new : x ≡ m' = cc (h', deref-update_self bound) in
          rw (new, same.coils, same.discrete) (n.narrow p m d)
      narrow q x h (inr e) =
          let apart : p ≢ q = ground arith in n.narrow q x (rw (deref-update_ne q apart) at h)
