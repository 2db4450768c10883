-- ===== src/Memorycore/Memory/RoundTrip.antt =====
-- Reads after writes, through the views; and what a bit area past the wrap of `bytesForBits` does.
use mma.Base.{
  ℕ, ◌+◌, ◌-◌, ◌≤◌, ◌<◌, ◌≡◌, refl, ◌∙◌, arith, true, false, ◌==◌, within-true, some, List, [],
  length, All, ok, if◌then◌else◌, take, zero, suc, ◌∷◌, ◌⊎◌, inl, inr, Bool-cases,
}
use mma.Words.{IsByte, IsU16, word_at}
use mma.Memorycore.Area.{Area}
use mma.Memorycore.Layout.{AreaLayout, offset}
use mma.Memorycore.Bits.{bytes_for_bits, write_bits_loop, write_bits_at}
use mma.Memorycore.Bits.Loops.{bit_at}
use mma.Memorycore.Memory.{Memory, bits_area, read_bits, write_bits, read_regs, write_regs}
use mma.Memorycore.Memory.Inversion.{write_bits-eq_ok}
use mma.Memorycore.Memory.WellFormed.{IsWellFormed, HasNarrowBits, bits_view, bit_value}
use mma.Memorycore.Memory.BitAreas.{
  bits_area-IsBacked, bits_area-with_bits, write_bits-view, write_bits-IsWellFormed,
  write_bits-HasNarrowBits,
}
use mma.Memorycore.Memory.RegAreas.{write_regs-view, write_regs-IsWellFormed}
use mma.Memorycore.Memory.BitReads.{read_bits-parts}
use mma.Memorycore.Memory.RegReads.{read_regs-parts}

same_area : (x : Area) → (x == x) ≡ true
same_area x = ground arith

module _ (m : Memory) (area : Area) (address count : ℕ) (src dst : List ℕ) {m' : Memory}
    {dst' : List ℕ} (w : IsWellFormed m) where
  -- On a well-formed memory with narrow bit areas and buffers of bytes: when a WriteBits succeeds, and
  -- then a ReadBits of the same range, each bit read is the bit written.
  pub read_bits-write_bits :
      HasNarrowBits m
      → All IsByte src
      → All IsByte dst
      → write_bits (some m) area address count src ≡ ok m'
      → read_bits (some m') area address count dst ≡ ok dst'
      → (k : ℕ) → k < count
      → bit_at dst' k ≡ bit_at src k
  read_bits-write_bits narrow hs hd written read k h =
      let w' = write_bits-IsWellFormed m area address count src w written in
      let narrow' = write_bits-HasNarrowBits m area address count src written narrow in
      let back : address + k - address ≡ k = omega arith in
      let hit = within-true address count (address + k) (omega arith) (omega arith) in
      let there =
        rw (same_area area, hit, back) at
          ((write_bits-view m area address count src w narrow hs written area (address + k)).0) in
      let here = (read_bits-parts m' area address count dst w' narrow' hd read k).0 h in
      cc (here, there)

  -- On a well-formed memory: when a WriteRegs of bytes succeeds, and then a ReadRegs of the same range,
  -- each word read is the word written.
  pub read_regs-write_regs :
      All IsByte src
      → write_regs (some m) area address count src ≡ ok m'
      → read_regs (some m') area address count dst ≡ ok dst'
      → (k : ℕ) → k < count
      → word_at dst' k ≡ word_at src k
  read_regs-write_regs hs written read k h =
      let w' = write_regs-IsWellFormed m area address count src w written hs in
      let back : address + k - address ≡ k = omega arith in
      let hit = within-true address count (address + k) (omega arith) (omega arith) in
      let there =
        rw (same_area area, hit, back) at
          ((write_regs-view m area address count src w written area (address + k)).0) in
      let here = (read_regs-parts m' area address count dst w' read k).0 h in cc (here, there)

-- From 65529 bits on `uint16(n + 7)` wraps, and `bytesForBits` is 0.
pub bytes_for_bits_wraps : (n : ℕ) → 65529 ≤ n → IsU16 n → bytes_for_bits n ≡ 0
unfolding bytes_for_bits
bytes_for_bits_wraps n lo hi = ground arith

write_bits_loop-nil : (n i start : ℕ) (src : List ℕ) → write_bits_loop n i [] start src ≡ []
unfolding write_bits_loop
write_bits_loop-nil zero i start src = refl
write_bits_loop-nil (suc n) i start src = ground arith

empty_of_length : (b : List ℕ) → length b ≡ 0 → b ≡ []
empty_of_length [] h = refl
empty_of_length (x ∷ b) h = absurd (omega arith)

-- In a well-formed memory, a WriteBits that an area of 65529 bits or more accepts changes no bit.
pub write_bits_lost :
    (m : Memory) (area : Area) (l : AreaLayout) (b : List ℕ) (address count : ℕ) (src : List ℕ)
    {m' : Memory}
    → IsWellFormed m
    → bits_area m area ≡ some (some l, b)
    → 65529 ≤ l.size
    → write_bits (some m) area address count src ≡ ok m'
    → (x : Area) (k : ℕ) → bit_value m' x k ≡ bit_value m x k
unfolding write_bits_at bit_value
write_bits_lost m area l b address count src w e wide h x k =
    let (l', b', e', range, room, q) = write_bits-eq_ok m area address count src h in
    let own : b' ≡ b = cc (e, e') in
    let (valid, len, hb) = bits_area-IsBacked m area l b e w in
    let none_left : b ≡ [] =
      empty_of_length b (len ∙ bytes_for_bits_wraps l.size wide valid.size_u16) in
    let kept = write_bits_loop-nil count 0 (offset l' address) (take (bytes_for_bits count) src) in
    let out : write_bits_loop count 0 b' (offset l' address) (take (bytes_for_bits count) src) ≡ b =
      rw (own, none_left) kept in
    rw (q, out, bits_area-with_bits m area l b e b x) (put_back (Bool-cases (x == area)))
  where
    put_back :
        ((x == area) ≡ true) ⊎ ((x == area) ≡ false)
        → bits_view (if x == area then some (some l, b) else bits_area m x) k
          ≡ bits_view (bits_area m x) k
    put_back (inl p) = let p' : x ≡ area = ground arith in rw (p, p', e)
    put_back (inr p) = rw p
