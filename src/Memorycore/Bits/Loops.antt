-- ===== src/Memorycore/Bits/Loops.antt =====
-- What the loops of internal/memorycore/bits.go do to each bit of a slice.
use mma.Base.{
  ℕ, zero, suc, ◌+◌, ◌-◌, ◌*◌, ◌/◌, ◌%◌, ◌^◌, ◌<◌, ◌≤◌, Bool, ◌==◌, if◌then◌else◌, ◌≡◌, refl, arith,
  List, length, get_or, set, All, length-set, get_or-set_self, get_or-set_ne, All-set, All-get_or,
  Bool-cases, inl, inr, lt→leb_false, if-intro, within, within_grow,
}
use mma.Words.{IsByte, u16}
use mma.Memorycore.Bits.{is_set, put_bit, copy_bits_loop, write_bits_loop}
use mma.Memorycore.Bits.Byte.{bit_of, is_set-bit_of, bit_of-put_bit, put_bit-IsByte}

-- Bit `j` of a packed slice, LSB first; a bit past the end is clear.
unfoldable pub bit_at : List ℕ → ℕ → Bool
bit_at xs j = bit_of (get_or xs (j / 8) 0) (j % 8)

-- One round of either loop: bit `d` of the slice is put to `on`.
abbrev put_at : List ℕ → ℕ → Bool → List ℕ
put_at xs d on = set xs (d / 8) (put_bit (get_or xs (d / 8) 0) (2 ^ (d % 8)) on)

bit_at-put_at_same :
    (xs : List ℕ) (d j : ℕ) (on : Bool)
    → All IsByte xs
    → d / 8 < length xs
    → j / 8 ≡ d / 8
    → bit_at (put_at xs d on) j ≡ (if j == d then on else bit_at xs j)
unfolding bit_at
bit_at-put_at_same xs d j on hx hd e =
    rw (e, get_or-set_self xs (d / 8) (put_bit (get_or xs (d / 8) 0) (2 ^ (d % 8)) on) 0 hd)
      (ground (
        arith,
        bit_of-put_bit (get_or xs (d / 8) 0) (d % 8) (j % 8) on
            (All-get_or IsByte xs (d / 8) 0 hx (omega arith)),
      ))

bit_at-put_at :
    (xs : List ℕ) (d j : ℕ) (on : Bool)
    → All IsByte xs
    → d / 8 < length xs
    → bit_at (put_at xs d on) j ≡ (if j == d then on else bit_at xs j)
unfolding bit_at
bit_at-put_at xs d j on hx hd = elim (Bool-cases (j / 8 == d / 8)) [
  | inl e ↦ bit_at-put_at_same xs d j on hx hd (ground arith)
  | inr e ↦
      rw
        (get_or-set_ne xs (d / 8) (j / 8) (put_bit (get_or xs (d / 8) 0) (2 ^ (d % 8)) on) 0
          (ground arith))
        (ground arith)
]

put_at-IsByte : (xs : List ℕ) (d : ℕ) (on : Bool) → All IsByte xs → All IsByte (put_at xs d on)
put_at-IsByte xs d on hx = All-set IsByte xs (d / 8) _ hx (
    put_bit-IsByte (get_or xs (d / 8) 0) (d % 8) on
      (All-get_or IsByte xs (d / 8) 0 hx (omega arith)) (omega arith))

length-put_at : (xs : List ℕ) (d : ℕ) (on : Bool) → length (put_at xs d on) ≡ length xs
length-put_at xs d on = length-set xs (d / 8) _

module _ (src : List ℕ) (start : ℕ) where
  pub length-copy_bits_loop :
      (n i : ℕ) (dst : List ℕ) → length (copy_bits_loop n i dst src start) ≡ length dst
  unfolding copy_bits_loop
  length-copy_bits_loop zero i dst = refl
  length-copy_bits_loop (suc n) i dst =
      let on = is_set (get_or src (u16 (start + i) / 8) 0) (2 ^ (u16 (start + i) % 8)) in
      ground (arith, length-put_at dst i on, length-copy_bits_loop n (i + 1) (put_at dst i on))

  pub copy_bits_loop-IsByte :
      (n i : ℕ) (dst : List ℕ) → All IsByte dst → All IsByte (copy_bits_loop n i dst src start)
  unfolding copy_bits_loop
  copy_bits_loop-IsByte zero i dst h = h
  copy_bits_loop-IsByte (suc n) i dst h =
      let on = is_set (get_or src (u16 (start + i) / 8) 0) (2 ^ (u16 (start + i) % 8)) in
      if-intro (All IsByte) _ h
        (copy_bits_loop-IsByte n (i + 1) (put_at dst i on) (put_at-IsByte dst i on h))

  -- In range, a round of `copyBits` puts bit `i` to bit `start + i` of the source.
  copy_bits_loop_step :
      (n i : ℕ) (dst : List ℕ)
      → All IsByte src
      → start + i < 8 * length src
      → start + i < 65536
      → i < 8 * length dst
      → copy_bits_loop (suc n) i dst src start
        ≡ copy_bits_loop n (i + 1) (put_at dst i (bit_at src (start + i))) src start
  unfolding copy_bits_loop bit_at
  copy_bits_loop_step n i dst hs h1 h2 h3 =
      let e : u16 (start + i) ≡ start + i = omega arith in
      rw (
        e,
        is_set-bit_of (get_or src ((start + i) / 8) 0) ((start + i) % 8)
            (All-get_or IsByte src _ 0 hs (omega arith)) (omega arith),
        lt→leb_false ((start + i) / 8) (length src) (omega arith),
        lt→leb_false (i / 8) (length dst) (omega arith),
      )

  -- `copyBits` fills the bits from `i` on with those of the source from `start + i` on.
  pub bit_at-copy_bits_loop :
      (n i : ℕ) (dst : List ℕ) (j : ℕ)
      → All IsByte src
      → All IsByte dst
      → start + i + n ≤ 8 * length src
      → start + i + n ≤ 65536
      → i + n ≤ 8 * length dst
      → bit_at (copy_bits_loop n i dst src start) j
        ≡ (if within i n j then bit_at src (start + j) else bit_at dst j)
  bit_at-copy_bits_loop zero i dst j hs hd h1 h2 h3 = unfold copy_bits_loop in ground arith
  bit_at-copy_bits_loop (suc n) i dst j hs hd h1 h2 h3 =
      let on = bit_at src (start + i) in
      let len = length-put_at dst i on in
      rw
        (
          copy_bits_loop_step n i dst hs (omega arith) (omega arith) (omega arith),
          bit_at-copy_bits_loop n (i + 1) (put_at dst i on) j hs (put_at-IsByte dst i on hd)
              (omega arith) (omega arith) (omega arith),
          bit_at-put_at dst i j on hd (omega arith),
        )
        (within_grow (λ k. bit_at src (start + k)) (bit_at dst) n i j)

module _ (start : ℕ) (src : List ℕ) where
  pub length-write_bits_loop :
      (n i : ℕ) (dst : List ℕ) → length (write_bits_loop n i dst start src) ≡ length dst
  unfolding write_bits_loop
  length-write_bits_loop zero i dst = refl
  length-write_bits_loop (suc n) i dst =
      let on = is_set (get_or src (i / 8) 0) (2 ^ (i % 8)) in
      let d = u16 (start + i) in
      ground (arith, length-put_at dst d on, length-write_bits_loop n (i + 1) (put_at dst d on))

  pub write_bits_loop-IsByte :
      (n i : ℕ) (dst : List ℕ) → All IsByte dst → All IsByte (write_bits_loop n i dst start src)
  unfolding write_bits_loop
  write_bits_loop-IsByte zero i dst h = h
  write_bits_loop-IsByte (suc n) i dst h =
      let on = is_set (get_or src (i / 8) 0) (2 ^ (i % 8)) in
      let d = u16 (start + i) in
      if-intro (All IsByte) _ h
        (write_bits_loop-IsByte n (i + 1) (put_at dst d on) (put_at-IsByte dst d on h))

  -- In range, a round of `writeBits` puts bit `start + i` to bit `i` of the source.
  write_bits_loop_step :
      (n i : ℕ) (dst : List ℕ)
      → All IsByte src
      → i < 8 * length src
      → start + i < 65536
      → start + i < 8 * length dst
      → write_bits_loop (suc n) i dst start src
        ≡ write_bits_loop n (i + 1) (put_at dst (start + i) (bit_at src i)) start src
  unfolding write_bits_loop bit_at
  write_bits_loop_step n i dst hs h1 h2 h3 =
      let e : u16 (start + i) ≡ start + i = omega arith in
      rw (
        e,
        is_set-bit_of (get_or src (i / 8) 0) (i % 8) (All-get_or IsByte src _ 0 hs (omega arith))
            (omega arith),
        lt→leb_false (i / 8) (length src) (omega arith),
        lt→leb_false ((start + i) / 8) (length dst) (omega arith),
      )

  -- `writeBits` fills the bits from `start + i` on with those of the source from `i` on.
  pub bit_at-write_bits_loop :
      (n i : ℕ) (dst : List ℕ) (j : ℕ)
      → All IsByte src
      → All IsByte dst
      → i + n ≤ 8 * length src
      → start + i + n ≤ 65536
      → start + i + n ≤ 8 * length dst
      → bit_at (write_bits_loop n i dst start src) j
        ≡ (if within (start + i) n j then bit_at src (j - start) else bit_at dst j)
  bit_at-write_bits_loop zero i dst j hs hd h1 h2 h3 = unfold write_bits_loop in ground arith
  bit_at-write_bits_loop (suc n) i dst j hs hd h1 h2 h3 =
      let on = bit_at src i in
      let len = length-put_at dst (start + i) on in
      let back : start + i - start ≡ i = omega arith in
      rw
        (
          write_bits_loop_step n i dst hs (omega arith) (omega arith) (omega arith),
          bit_at-write_bits_loop n (i + 1) (put_at dst (start + i) on) j hs
              (put_at-IsByte dst (start + i) on hd) (omega arith) (omega arith) (omega arith),
          bit_at-put_at dst (start + i) j on hd (omega arith),
        )
        (ground
          (arith, back, within_grow (λ k. bit_at src (k - start)) (bit_at dst) n (start + i) j))
