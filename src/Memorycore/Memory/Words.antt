-- ===== src/Memorycore/Memory/Words.antt =====
-- The register loops of internal/memorycore/memory.go, in range, as functions without a failure.
use mma.Base.{
  ℕ, zero, suc, ◌+◌, ◌-◌, ◌*◌, ◌≤◌, ◌≡◌, refl, ◌∙◌, arith, List, length, set, get_or, All, All-set,
  All-get_or, length-set, get_or-set, get_elem?-get_or, ok, lt→ltb, if◌then◌else◌, within,
  within_grow,
}
use mma.Words.{IsByte, IsU16, u16, word_at}
use mma.Words.Laws.{
  put_word, load_u16-word_at, store_u16-put_word, length-put_word, put_word-IsByte, word_at-IsU16,
  word_at-put_word,
}
use mma.Memorycore.Memory.{read_regs_loop, write_regs_loop}

module _ (off : ℕ) (src : List ℕ) where
  -- Cells `off + i`, and so on, take the words of the source from the `i`-th on.
  pub written : ℕ → ℕ → List ℕ → List ℕ
  written zero i backing = backing
  written (suc n) i backing = written n (i + 1) (set backing (off + i) (word_at src i))

  pub write_regs_loop-written :
      (n i : ℕ) (backing : List ℕ)
      → off + i + n ≤ length backing
      → off + i + n ≤ 65536
      → (i + n) * 2 ≤ length src
      → write_regs_loop n i backing off src ≡ ok (written n i backing)
  unfolding write_regs_loop written
  write_regs_loop-written zero i backing h1 h2 h3 = refl
  write_regs_loop-written (suc n) i backing h1 h2 h3 =
      let e : u16 (off + i) ≡ off + i = omega arith in
      let len = length-set backing (off + i) (word_at src i) in
      rw (load_u16-word_at src i (omega arith), e, lt→ltb (off + i) (length backing) (omega arith))
        (write_regs_loop-written n (i + 1) (set backing (off + i) (word_at src i)) (omega arith)
          (omega arith) (omega arith))

  pub length-written : (n i : ℕ) (backing : List ℕ) → length (written n i backing) ≡ length backing
  unfolding written
  length-written zero i backing = refl
  length-written (suc n) i backing =
      length-written n (i + 1) (set backing (off + i) (word_at src i))
      ∙ length-set backing (off + i) (word_at src i)

  pub written-IsU16 :
      (n i : ℕ) (backing : List ℕ)
      → All IsByte src
      → All IsU16 backing
      → All IsU16 (written n i backing)
  unfolding written
  written-IsU16 zero i backing hs h = h
  written-IsU16 (suc n) i backing hs h =
      written-IsU16 n (i + 1) _ hs (All-set IsU16 backing (off + i) _ h (word_at-IsU16 src i hs))

  pub get_or-written :
      (n i : ℕ) (backing : List ℕ) (j : ℕ)
      → off + i + n ≤ length backing
      → get_or (written n i backing) j 0
        ≡ (if within (off + i) n j then word_at src (j - off) else get_or backing j 0)
  unfolding written
  get_or-written zero i backing j h = ground arith
  get_or-written (suc n) i backing j h =
      let v = word_at src i in
      let back : off + i - off ≡ i = omega arith in
      rw
        (
          get_or-written n (i + 1) (set backing (off + i) v) j
              (omega (arith, length-set backing (off + i) v)),
          get_or-set backing (off + i) j v 0 (omega arith),
        )
        (ground (
          arith,
          back,
          within_grow (λ k. word_at src (k - off)) (λ k. get_or backing k 0) n (off + i) j,
        ))

module _ (backing : List ℕ) (off : ℕ) where
  -- The words from the `i`-th on take the cells `off + i`, and so on.
  pub copied : ℕ → ℕ → List ℕ → List ℕ
  copied zero i dst = dst
  copied (suc n) i dst = copied n (i + 1) (put_word dst i (get_or backing (off + i) 0))

  pub read_regs_loop-copied :
      (n i : ℕ) (dst : List ℕ)
      → off + i + n ≤ length backing
      → off + i + n ≤ 65536
      → (i + n) * 2 ≤ length dst
      → read_regs_loop n i dst backing off ≡ ok (copied n i dst)
  unfolding read_regs_loop copied
  read_regs_loop-copied zero i dst h1 h2 h3 = refl
  read_regs_loop-copied (suc n) i dst h1 h2 h3 =
      let e : u16 (off + i) ≡ off + i = omega arith in
      let v = get_or backing (off + i) 0 in
      let len = length-put_word dst i v in
      rw
        (
          e,
          get_elem?-get_or backing (off + i) 0 (omega arith),
          store_u16-put_word dst i v (omega arith),
        )
        (read_regs_loop-copied n (i + 1) (put_word dst i v) (omega arith) (omega arith)
          (omega arith))

  pub length-copied : (n i : ℕ) (dst : List ℕ) → length (copied n i dst) ≡ length dst
  unfolding copied
  length-copied zero i dst = refl
  length-copied (suc n) i dst =
      length-copied n (i + 1) (put_word dst i (get_or backing (off + i) 0))
      ∙ length-put_word dst i (get_or backing (off + i) 0)

  pub copied-IsByte : (n i : ℕ) (dst : List ℕ) → All IsByte dst → All IsByte (copied n i dst)
  unfolding copied
  copied-IsByte zero i dst h = h
  copied-IsByte (suc n) i dst h = copied-IsByte n (i + 1) _ (put_word-IsByte dst i _ h)

  pub word_at-copied :
      (n i : ℕ) (dst : List ℕ) (j : ℕ)
      → All IsU16 backing
      → (i + n) * 2 ≤ length dst
      → word_at (copied n i dst) j
        ≡ (if within i n j then get_or backing (off + j) 0 else word_at dst j)
  unfolding copied
  word_at-copied zero i dst j hb h = ground arith
  word_at-copied (suc n) i dst j hb h =
      let v = get_or backing (off + i) 0 in
      rw
        (
          word_at-copied n (i + 1) (put_word dst i v) j hb (omega (arith, length-put_word dst i v)),
          word_at-put_word dst i j v (All-get_or IsU16 backing (off + i) 0 hb (omega arith))
              (omega arith),
        )
        (within_grow (λ k. get_or backing (off + k) 0) (word_at dst) n i j)
