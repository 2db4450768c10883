-- ===== src/Modbus/Conn/Sealed.antt =====
-- The sealing flag as Modbus reads it (internal/transport/modbus/handle_conn.go).
use mma.Base.{
  All-get_or, ℕ, ◌+◌, ◌<◌, ◌≡◌, ◌≢◌, refl, sym, ◌∙◌, arith, Bool, true, false, not, ◌==◌, bit_and,
  some, List, [], ◌∷◌, get_or, All, Outcome, ok, err, panic,
}
use mma.Words.{IsByte}
use mma.Memorycore.Errors.{MemoryError}
use mma.Memorycore.Bits.{is_set}
use mma.Memorycore.Bits.Byte.{is_set-bit_of}
use mma.Memorycore.Bits.Loops.{bit_at}
use mma.Memorycore.Memory.{Memory, StateSealingDef, read_bits}
use mma.Memorycore.Memory.WellFormed.{IsWellFormed, HasNarrowBits, bit_value}
use mma.Memorycore.Memory.BitReads.{read_bits-parts, read_bits-IsByte}
use mma.Memorycore.Store.{MemoryId, Store, Pointer, deref, get}
use mma.Modbus.Conn.{sealed_by, is_blocked}

-- The test in `is_blocked` negates the first bit that was read.
pub flag-bit_at :
    (dst : List ℕ) → All IsByte dst → (bit_and (get_or dst 0 0) 1 == 0) ≡ not (bit_at dst 0)
unfolding bit_at is_set
flag-bit_at dst h =
    let first : get_or dst 0 0 < 256 = All-get_or IsByte dst 0 0 h (omega arith) in
    ground (arith, is_set-bit_of (get_or dst 0 0) 0 first (omega arith))

pub is_blocked-deref :
    (s : Store) (id : MemoryId) (p : Pointer) (m : Memory) (seal : StateSealingDef)
    → get (some s) id ≡ some p
    → deref s p ≡ some m
    → m.state_sealing ≡ some seal
    → is_blocked s id ≡ sealed_by (some m) (some seal)
unfolding is_blocked
is_blocked-deref s id p m seal g d e = rw (g, d, e, is_blocked)

-- A memory whose sealing bit is not set is sealed.
pub sealed_by-clear :
    (m : Memory) (seal : StateSealingDef)
    → IsWellFormed m
    → HasNarrowBits m
    → bit_value m seal.area seal.address ≢ some true
    → sealed_by (some m) (some seal) ≡ true
unfolding sealed_by
sealed_by-clear m seal w narrow clear =
    read (read_bits (some m) seal.area seal.address 1 (0 ∷ [])) refl
  where
    zeros : All IsByte (0 ∷ [])
    zeros = (omega arith, tt)

    unset : (b : Bool) → some b ≡ bit_value m seal.area (seal.address + 0) → not b ≡ true
    unset false h = refl
    unset true h =
        let z : seal.address + 0 ≡ seal.address = omega arith in absurd (clear (rw z at (sym h)))

    read :
        (o : Outcome MemoryError (List ℕ))
        → read_bits (some m) seal.area seal.address 1 (0 ∷ []) ≡ o
        → sealed_by (some m) (some seal) ≡ true
    read (ok buf) e =
        let (inside, _, _) =
          read_bits-parts m seal.area seal.address 1 (0 ∷ []) w narrow zeros e 0 in
        let bytes = read_bits-IsByte m seal.area seal.address 1 (0 ∷ []) zeros e in
        rw (e, sealed_by) (flag-bit_at buf bytes ∙ unset (bit_at buf 0) (inside (omega arith)))
    read (err x) e = rw (e, sealed_by) refl
    read panic e = rw (e, sealed_by) refl
