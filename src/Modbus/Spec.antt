-- ===== src/Modbus/Spec.antt =====
-- What internal/transport/modbus/dispatch_memorycore.go promises, without slices, decoders or
-- packing: a server is a table of units, a unit a value at each address, and a request a command that
-- is refused or performed.
pub mod Parse
pub mod Perform
pub mod Refines
pub mod Conversation
pub mod Converses
use mma.Base.{
  ℕ, zero, suc, ◌+◌, ◌-◌, ◌*◌, ◌/◌, ◌%◌, ◌≡◌, Bool, true, false, not, ◌&&◌, ◌||◌, ◌==◌, ltb,
  if◌then◌else◌, within, Option, none, some, List, [], ◌∷◌, ◌++◌, length, All,
}
use mma.Words.{IsByte, word_at}
use mma.Memorycore.Area.{Area}
use mma.Memorycore.Bits.Loops.{bit_at}
use mma.Memorycore.Memory.{StateSealingDef}
use mma.Memorycore.Store.{MemoryId, same_id}
use mma.Memorycore.Units.{Cells, Units, holds, put_bits_in, put_regs_in, with_unit}
use mma.Modbus.Wire.{be_bytes}
use mma.Modbus.Encode.{build_exception_pdu}

-- `put_bits address quantity values echo`: the last word of the response is `echo`.
pub data Command : Type 0 where
  get_bits : Area → ℕ → ℕ → Command
  get_regs : Area → ℕ → ℕ → Command
  put_bits : ℕ → ℕ → (ℕ → Bool) → ℕ → Command
  put_regs : ℕ → ℕ → (ℕ → ℕ) → ℕ → Command

pub data Parsed : Type 0 where
  invalid : ℕ → Parsed
  valid : Command → Parsed

-- A payload of two words.
abbrev pub two : (ℕ → ℕ → Parsed) → List ℕ → Parsed
two f (a ∷ b ∷ c ∷ d ∷ []) = f (a * 256 + b) (c * 256 + d)
two f other = invalid 3

-- A payload of two words, a byte count, and that many bytes.
abbrev pub block : (ℕ → ℕ → List ℕ → Parsed) → List ℕ → Parsed
block f (a ∷ b ∷ c ∷ d ∷ n ∷ bytes) =
    if length bytes == n then f (a * 256 + b) (c * 256 + d) bytes else invalid 3
block f other = invalid 3

abbrev pub parse_get_bits : Area → ℕ → ℕ → Parsed
parse_get_bits area address quantity =
    if quantity == 0 then invalid 3 else valid (get_bits area address quantity)

abbrev pub parse_get_regs : Area → ℕ → ℕ → Parsed
parse_get_regs area address quantity = valid (get_regs area address quantity)

abbrev pub parse_put_coil : ℕ → ℕ → Parsed
parse_put_coil address value =
    if value == 0xff00
    then valid (put_bits address 1 (λ _. true) value)
    else if value == 0
    then valid (put_bits address 1 (λ _. false) value)
    else invalid 3

abbrev pub parse_put_reg : ℕ → ℕ → Parsed
parse_put_reg address value = valid (put_regs address 1 (λ _. value) value)

-- The byte count of the bits is a `uint16` sum.
abbrev pub parse_put_coils : ℕ → ℕ → List ℕ → Parsed
parse_put_coils address quantity bytes =
    if quantity == 0 || not (length bytes == (quantity + 7) % 65536 / 8)
    then invalid 3
    else valid (put_bits address quantity (bit_at bytes) quantity)

abbrev pub parse_put_regs : ℕ → ℕ → List ℕ → Parsed
parse_put_regs address quantity bytes =
    if quantity == 0 || not (length bytes == quantity * 2)
    then invalid 3
    else valid (put_regs address quantity (word_at bytes) quantity)

-- The command that a function code and a payload stand for, or the exception that refuses them.
unfoldable pub parse : ℕ → List ℕ → Parsed
parse fc payload =
    if fc == 1
    then two (parse_get_bits 1) payload
    else if fc == 2
    then two (parse_get_bits 2) payload
    else if fc == 3
    then two (parse_get_regs 3) payload
    else if fc == 4
    then two (parse_get_regs 4) payload
    else if fc == 5
    then two parse_put_coil payload
    else if fc == 6
    then two parse_put_reg payload
    else if fc == 15
    then block parse_put_coils payload
    else if fc == 16
    then block parse_put_regs payload
    else invalid 1

-- The command names an address at least, and only addresses that have a value.
abbrev pub permits : Cells → Command → Bool
permits c (get_bits area address quantity) =
    not (quantity == 0) && holds (c.bit area) address quantity
permits c (get_regs area address quantity) =
    not (quantity == 0) && holds (c.reg area) address quantity
permits c (put_bits address quantity values echo) =
    not (quantity == 0) && holds (c.bit 1) address quantity
permits c (put_regs address quantity values echo) =
    not (quantity == 0) && holds (c.reg 3) address quantity

-- The bytes carry the bits of the range, LSB first, and are as few as can be; the bits left are clear.
abbrev pub PacksBits : (ℕ → Option Bool) → ℕ → ℕ → List ℕ → Type 0
PacksBits f address quantity bytes =
    All IsByte bytes
    × (length bytes ≡ (quantity + 7) / 8)
    × ((k : ℕ) → some (bit_at bytes k) ≡ (if ltb k quantity then f (address + k) else some false))

-- The bytes are the registers of the range, big-endian.
abbrev pub PacksRegs : (ℕ → Option ℕ) → ℕ → ℕ → List ℕ → Type 0
PacksRegs f address quantity bytes =
    All IsByte bytes
    × (length bytes ≡ quantity * 2)
    × ((k : ℕ) → some (word_at bytes k) ≡ (if ltb k quantity then f (address + k) else some 0))

-- A PDU and the units after it, for a request with function code `fc` to the unit `id` of `u`.
module _ (u : Units) (id : MemoryId) (fc : ℕ) (pdu : List ℕ) (u' : Units) where
  abbrev pub IsRefused : ℕ → Type 0
  IsRefused code = (pdu ≡ build_exception_pdu fc code) × (u' ≡ u)

  abbrev pub IsPerformed : Cells → Command → Type 0
  IsPerformed c (get_bits area address quantity) =
      (bytes : List ℕ) × (pdu ≡ fc ∷ length bytes % 256 ∷ bytes)
      × PacksBits (c.bit area) address quantity bytes
      × (u' ≡ u)
  IsPerformed c (get_regs area address quantity) =
      (bytes : List ℕ) × (pdu ≡ fc ∷ length bytes % 256 ∷ bytes)
      × PacksRegs (c.reg area) address quantity bytes
      × (u' ≡ u)
  IsPerformed c (put_bits address quantity values echo) =
      (pdu ≡ fc ∷ (be_bytes address ++ be_bytes echo))
      × (u' ≡ with_unit u id (put_bits_in c 1 address quantity values))
  IsPerformed c (put_regs address quantity values echo) =
      (pdu ≡ fc ∷ (be_bytes address ++ be_bytes echo))
      × (u' ≡ with_unit u id (put_regs_in c 3 address quantity values))

  -- A command to the unit, if it is there.
  abbrev pub IsAnswered : Option Cells → Command → Type 0
  IsAnswered none command = IsRefused 2
  IsAnswered (some c) command = if permits c command then IsPerformed c command else IsRefused 2

-- The whole contract.
abbrev pub Obeys : Units → MemoryId → ℕ → Parsed → List ℕ → Units → Type 0
Obeys u id fc (invalid code) pdu u' = IsRefused u id fc pdu u' code
Obeys u id fc (valid command) pdu u' = IsAnswered u id fc pdu u' (u id) command
