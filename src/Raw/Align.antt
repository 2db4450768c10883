-- ===== src/Raw/Align.antt =====
-- internal/transport/raw: align_bits.go and align_regs.go.
pub mod Bits
pub mod Regs
use mma.Base.{
  ℕ, zero, suc, ◌+◌, ◌*◌, ◌/◌, ◌%◌, ◌^◌, not, ◌==◌, leb, Bool, if◌then◌else◌, List, [], ◌∷◌, length,
  get_or, Outcome, ok, err, panic, ◌>>=◌, ◌>>◌, fail_if,
}
use mma.Words.{load_u16}
use mma.Memorycore.Bits.{is_set}
use mma.Raw.Frame.{RawError, rejected}

-- The loop of alignBits from `i` on; it fills the slice from the front.
unfoldable pub align_bits_loop : ℕ → ℕ → List ℕ → Outcome RawError (List Bool)
align_bits_loop zero i payload = ok []
align_bits_loop (suc rounds) i payload = do
  fail_if (leb (length payload) (i / 8)) rejected
  out ← align_bits_loop rounds (i + 1) payload
  ok (is_set (get_or payload (i / 8) 0) (2 ^ (i % 8)) ∷ out)

abbrev pub align_bits : List ℕ → ℕ → Outcome RawError (List Bool)
align_bits payload count = align_bits_loop count 0 payload

-- The loop of alignRegs from `i` on.
unfoldable pub align_regs_loop : ℕ → ℕ → List ℕ → Outcome RawError (List ℕ)
align_regs_loop zero i payload = ok []
align_regs_loop (suc rounds) i payload = do
  v ← load_u16 payload (i * 2)
  out ← align_regs_loop rounds (i + 1) payload
  ok (v ∷ out)

unfoldable pub align_regs : List ℕ → ℕ → Outcome RawError (List ℕ)
align_regs payload count = do
  fail_if (not (length payload == count * 2)) rejected
  align_regs_loop count 0 payload
