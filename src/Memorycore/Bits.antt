-- ===== src/Memorycore/Bits.antt =====
-- internal/memorycore/bits.go: packed bits, LSB first. The loops recur on the rounds left, `i` is the
-- loop's counter, and the updated slice is returned.
pub mod Byte
pub mod Loops
use mma.Base.{
  ℕ, zero, suc, ◌+◌, ◌-◌, ◌/◌, ◌%◌, ◌^◌, bit_and, bit_or, bit_xor, Bool, not, ◌||◌, ◌==◌, leb,
  if◌then◌else◌, List, length, get_or, set,
}
use mma.Words.{u16}

-- `n + 7` is a `uint16` sum.
unfoldable pub bytes_for_bits : ℕ → ℕ
bytes_for_bits n = if n == 0 then 0 else u16 (n + 7) / 8

-- `b&mask != 0`
unfoldable pub is_set : ℕ → ℕ → Bool
is_set b mask = not (bit_and b mask == 0)

-- `b |= mask` or `b &^= mask`
unfoldable pub put_bit : ℕ → ℕ → Bool → ℕ
put_bit b mask on = if on then bit_or b mask else bit_and b (bit_xor 0xff mask)

unfoldable pub copy_bits_loop : ℕ → ℕ → List ℕ → List ℕ → ℕ → List ℕ
copy_bits_loop zero i dst src src_start = dst
copy_bits_loop (suc rounds) i dst src src_start =
    let src_bit = u16 (src_start + i) in
    let dst_bit = i in
    let src_byte = src_bit / 8 in
    let src_mask = 2 ^ (src_bit % 8) in
    let dst_byte = dst_bit / 8 in
    let dst_mask = 2 ^ (dst_bit % 8) in
    let on = is_set (get_or src src_byte 0) src_mask in
    let dst' = set dst dst_byte (put_bit (get_or dst dst_byte 0) dst_mask on) in
    let rest = copy_bits_loop rounds (i + 1) dst' src src_start in
    if leb (length src) src_byte || leb (length dst) dst_byte then dst else rest

-- copyBits(dst, src, srcStart, count)
unfoldable pub copy_bits : List ℕ → List ℕ → ℕ → ℕ → List ℕ
copy_bits dst src src_start count = copy_bits_loop count 0 dst src src_start

unfoldable pub write_bits_loop : ℕ → ℕ → List ℕ → ℕ → List ℕ → List ℕ
write_bits_loop zero i dst dst_start src = dst
write_bits_loop (suc rounds) i dst dst_start src =
    let dst_bit = u16 (dst_start + i) in
    let dst_byte = dst_bit / 8 in
    let dst_mask = 2 ^ (dst_bit % 8) in
    let src_byte = i / 8 in
    let src_mask = 2 ^ (i % 8) in
    let on = is_set (get_or src src_byte 0) src_mask in
    let dst' = set dst dst_byte (put_bit (get_or dst dst_byte 0) dst_mask on) in
    let rest = write_bits_loop rounds (i + 1) dst' dst_start src in
    if leb (length dst) dst_byte || leb (length src) src_byte then dst else rest

-- writeBits(dst, dstStart, count, src)
unfoldable pub write_bits_at : List ℕ → ℕ → ℕ → List ℕ → List ℕ
write_bits_at dst dst_start count src = write_bits_loop count 0 dst dst_start src
