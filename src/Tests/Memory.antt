-- ===== src/Tests/Memory.antt =====
-- The theorems on memories at concrete memories.
use mma.Memorycore.Memory.RoundTrip.{read_regs-write_regs}
use mma.Base.{◌≡◌, ◌↔◌, ◌≤◌, length, ℕ, refl, arith, none, some, List, [], ◌∷◌, ok}
use mma.Memorycore.Bits.{
  bytes_for_bits, is_set, put_bit, copy_bits_loop, copy_bits, write_bits_loop, write_bits_at,
}
use mma.Memorycore.Layout.{validate, contains, offset}
use mma.Memorycore.Memory.{
  allocate, new_memory, bits_area, with_bits, regs_area, with_regs, read_bits, write_bits,
  read_regs_loop, read_regs, write_regs_loop, write_regs,
}
use mma.Words.{load_u16, store_u16}
use mma.Memorycore.Bits.Loops.{bit_at}
use mma.Words.{word_at}
use mma.Memorycore.Memory.{Memory}
use mma.Memorycore.Memory.WellFormed.{IsWellFormed, bit_value, reg_value}
use mma.Memorycore.Memory.BitAreas.{write_bits-view}
use mma.Memorycore.Memory.BitReads.{read_bits-view}
use mma.Memorycore.Memory.RegAreas.{write_regs-view}
use mma.Memorycore.Memory.RegReads.{read_regs-view}
use mma.Memorycore.Memory.RoundTrip.{read_bits-write_bits, write_bits_lost}
use mma.Memorycore.Memory.Acceptance.{BitsCover, RegsCover, bits_accept_iff, regs_accept_iff}
use mma.Memorycore.Memory.Create.{AreSound, new_memory_iff}
use mma.Tests.Samples.{
  memory_wide, coils_wide, memory_wide-IsWellFormed, layouts_a, empty_a, memory_of,
  memory_of-IsWellFormed, memory_of-HasNarrowBits, layouts_a-AreU16Layouts,
}

written_bits : write_bits (some empty_a) 1 3 2 (0x03 ∷ []) ≡ ok (memory_of 0x18 0 none)
unfolding write_bits bits_area contains offset write_bits_at write_bits_loop is_set put_bit
    with_bits bytes_for_bits
written_bits = refl

read_back : read_bits (some (memory_of 0x18 0 none)) 1 3 2 (0xf0 ∷ []) ≡ ok (0xf3 ∷ [])
unfolding read_bits bits_area contains offset copy_bits copy_bits_loop is_set put_bit bytes_for_bits
read_back = refl

written_regs : write_regs (some empty_a) 3 100 1 (0x12 ∷ 0x34 ∷ []) ≡ ok (memory_of 0 0x1234 none)
unfolding write_regs regs_area contains offset write_regs_loop load_u16 with_regs
written_regs = refl

read_reg :
    read_regs (some (memory_of 0 0x1234 none)) 3 100 1 (0 ∷ 0 ∷ 7 ∷ []) ≡ ok (0x12 ∷ 0x34 ∷ 7 ∷ [])
unfolding read_regs regs_area contains offset read_regs_loop store_u16
read_reg = refl

created : new_memory layouts_a ≡ ok empty_a
unfolding new_memory allocate validate bytes_for_bits
created = refl

abbrev bits_a : Memory
bits_a = memory_of 0x18 0 none

abbrev regs_a : Memory
regs_a = memory_of 0 0x1234 none

empty-IsWellFormed : IsWellFormed empty_a
empty-IsWellFormed = memory_of-IsWellFormed 0 0 none (omega arith) (omega arith)

bits_a-IsWellFormed : IsWellFormed bits_a
bits_a-IsWellFormed = memory_of-IsWellFormed 0x18 0 none (omega arith) (omega arith)

regs_a-IsWellFormed : IsWellFormed regs_a
regs_a-IsWellFormed = memory_of-IsWellFormed 0 0x1234 none (omega arith) (omega arith)

write_bits-view_example :
    (bit_value bits_a 1 4 ≡ some (bit_at (0x03 ∷ []) 1))
    × (reg_value bits_a 1 4 ≡ reg_value empty_a 1 4)
    × (bits_a.state_sealing ≡ none)
write_bits-view_example =
    write_bits-view empty_a 1 3 2 (0x03 ∷ []) empty-IsWellFormed (memory_of-HasNarrowBits 0 0 none)
      (omega arith, tt) written_bits 1 4

read_bits-view_example :
    (some (bit_at (0xf3 ∷ []) 1) ≡ bit_value bits_a 1 4)
    × (length {A = ℕ} (0xf3 ∷ []) ≡ length {A = ℕ} (0xf0 ∷ []))
read_bits-view_example =
    read_bits-view bits_a 1 3 2 (0xf0 ∷ []) bits_a-IsWellFormed
      (memory_of-HasNarrowBits 0x18 0 none) (omega arith, tt) read_back 1

write_regs-view_example :
    (reg_value regs_a 3 100 ≡ some (word_at (0x12 ∷ 0x34 ∷ []) 0))
    × (bit_value regs_a 3 100 ≡ bit_value empty_a 3 100)
    × (regs_a.state_sealing ≡ none)
write_regs-view_example =
    write_regs-view empty_a 3 100 1 (0x12 ∷ 0x34 ∷ []) empty-IsWellFormed written_regs 3 100

read_regs-view_example :
    (some (word_at (0x12 ∷ 0x34 ∷ 7 ∷ []) 0) ≡ reg_value regs_a 3 100)
    × (length {A = ℕ} (0x12 ∷ 0x34 ∷ 7 ∷ []) ≡ length {A = ℕ} (0 ∷ 0 ∷ 7 ∷ []))
read_regs-view_example =
    read_regs-view regs_a 3 100 1 (0 ∷ 0 ∷ 7 ∷ []) regs_a-IsWellFormed read_reg 0

read_bits-write_bits_example : bit_at (0xf3 ∷ []) 1 ≡ bit_at (0x03 ∷ []) 1
read_bits-write_bits_example =
    read_bits-write_bits empty_a 1 3 2 (0x03 ∷ []) (0xf0 ∷ []) empty-IsWellFormed
      (memory_of-HasNarrowBits 0 0 none) (omega arith, tt) (omega arith, tt) written_bits read_back
      1 (omega arith)

lost : write_bits (some memory_wide) 1 5 1 (0x01 ∷ []) ≡ ok memory_wide
unfolding write_bits bits_area contains offset write_bits_at write_bits_loop with_bits
    bytes_for_bits
lost = refl

wide_area : bits_area memory_wide 1 ≡ some (some coils_wide, [])
unfolding bits_area
wide_area = refl

write_bits_lost_example : bit_value memory_wide 1 5 ≡ bit_value memory_wide 1 5
write_bits_lost_example =
    write_bits_lost memory_wide 1 coils_wide [] 5 1 (0x01 ∷ []) memory_wide-IsWellFormed wide_area
      (omega arith) lost 1 5

bits_accept_iff_example :
    (((m' : Memory) × (write_bits (some empty_a) 1 3 2 (0x03 ∷ []) ≡ ok m'))
      ↔ (BitsCover empty_a 1 3 2 × (bytes_for_bits 2 ≤ 1)))
    × (((dst' : List ℕ) × (read_bits (some empty_a) 1 3 2 (0x03 ∷ []) ≡ ok dst'))
        ↔ (BitsCover empty_a 1 3 2 × (bytes_for_bits 2 ≤ 1)))
bits_accept_iff_example = bits_accept_iff empty_a 1 3 2 (0x03 ∷ [])

regs_accept_iff_example :
    (((m' : Memory) × (write_regs (some empty_a) 3 100 1 (1 ∷ 2 ∷ []) ≡ ok m'))
      ↔ (RegsCover empty_a 3 100 1 × (2 ≤ 2)))
    × (((dst' : List ℕ) × (read_regs (some empty_a) 3 100 1 (1 ∷ 2 ∷ []) ≡ ok dst'))
        ↔ (RegsCover empty_a 3 100 1 × (2 ≤ 2)))
regs_accept_iff_example = regs_accept_iff empty_a 3 100 1 empty-IsWellFormed (1 ∷ 2 ∷ [])

new_memory_iff_example : ((m : Memory) × (new_memory layouts_a ≡ ok m)) ↔ AreSound layouts_a
new_memory_iff_example = new_memory_iff layouts_a layouts_a-AreU16Layouts

read_regs-write_regs_example : word_at (0x12 ∷ 0x34 ∷ 7 ∷ []) 0 ≡ word_at (0x12 ∷ 0x34 ∷ []) 0
read_regs-write_regs_example =
    read_regs-write_regs empty_a 3 100 1 (0x12 ∷ 0x34 ∷ []) (0 ∷ 0 ∷ 7 ∷ []) empty-IsWellFormed
      (omega arith, (omega arith, tt)) written_regs read_reg 0 (omega arith)
