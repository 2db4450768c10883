-- ===== src/Golang/Sets/Fresh.antt =====
-- Keys that a loop puts into a set one by one, each refused if it is there already.
use mma.Base.{◌≡◌, ◌↔◌, refl, arith, Bool, true, false, Bool-cases, inl, inr, List, [], ◌∷◌, ◌++◌}
use mma.Golang.Sets.{has_key}

module _ {ℓ} {K : Type ℓ} (same : K → K → Bool) where
  -- No two keys of the list are the same.
  abbrev pub IsDistinct : List K → Type 0
  IsDistinct [] = Unit {0}
  IsDistinct (k ∷ keys) = (has_key same keys k ≡ false) × IsDistinct keys

  -- The keys are distinct, and none is in the set.
  abbrev pub IsFresh : List K → List K → Type 0
  IsFresh seen [] = Unit {0}
  IsFresh seen (k ∷ keys) = (has_key same seen k ≡ false) × IsFresh (k ∷ seen) keys

  -- The set after the keys went in.
  abbrev pub put_all : List K → List K → List K
  put_all seen [] = seen
  put_all seen (k ∷ keys) = put_all (k ∷ seen) keys

  pub IsFresh-append :
      (seen xs ys : List K)
      → IsFresh seen xs
      → IsFresh (put_all seen xs) ys
      → IsFresh seen (xs ++ ys)
  IsFresh-append seen [] ys h k = k
  IsFresh-append seen (x ∷ xs) ys h k = (h.0, IsFresh-append (x ∷ seen) xs ys h.1 k)

  pub IsFresh-split :
      (seen xs ys : List K)
      → IsFresh seen (xs ++ ys)
      → IsFresh seen xs × IsFresh (put_all seen xs) ys
  IsFresh-split seen [] ys h = (tt, h)
  IsFresh-split seen (x ∷ xs) ys (new, h) =
      let (a, b) = IsFresh-split (x ∷ seen) xs ys h in ((new, a), b)

  pub put_all-append :
      (seen xs ys : List K) → put_all seen (xs ++ ys) ≡ put_all (put_all seen xs) ys
  put_all-append seen [] ys = refl
  put_all-append seen (x ∷ xs) ys = put_all-append (x ∷ seen) xs ys

  -- Keys that go in leave the others there.
  pub has_key-put_all :
      (seen keys : List K) (k : K)
      → has_key same seen k ≡ true
      → has_key same (put_all seen keys) k ≡ true
  unfolding has_key
  has_key-put_all seen [] k h = h
  has_key-put_all seen (x ∷ keys) k h = has_key-put_all (x ∷ seen) keys k (ground arith)

  module _ (iff : (a b : K) → (same a b ≡ true) ↔ (a ≡ b)) where
    -- A key that is in the set is not among fresh ones.
    pub IsFresh-has_key :
        (seen keys : List K) (k : K)
        → IsFresh seen keys
        → has_key same seen k ≡ true
        → has_key same keys k ≡ false
    unfolding has_key
    IsFresh-has_key seen [] k h there = refl
    IsFresh-has_key seen (x ∷ keys) k h there = elim (Bool-cases (same x k)) [
      | inl e ↦ let q : x ≡ k = (iff x k).0 e in cc (q, h.0, there)
      | inr e ↦ rw e (IsFresh-has_key (x ∷ seen) keys k h.1 (rw e there))
    ]

    pub IsFresh-IsDistinct : (seen keys : List K) → IsFresh seen keys → IsDistinct keys
    unfolding has_key
    IsFresh-IsDistinct seen [] h = tt
    IsFresh-IsDistinct seen (x ∷ keys) h =
        let self : same x x ≡ true = (iff x x).1 refl in
        (
          IsFresh-has_key (x ∷ seen) keys x h.1 (rw self refl),
          IsFresh-IsDistinct (x ∷ seen) keys h.1,
        )
