-- ===== src/Tests/Samples.antt =====
-- Data for the tests: a memory with 16 coils and 4 holding registers, and the store of a server.
use mma.Base.{true, ℕ, zero, suc, ◌≡◌, refl, arith, Option, none, some, [], ◌∷◌}
use mma.Words.{IsByte, IsU16}
use mma.Memorycore.Bits.{bytes_for_bits}
use mma.Memorycore.Layout.{AreaLayout}
use mma.Memorycore.Layout.Laws.{IsLayout}
use mma.Memorycore.Memory.{MemoryLayouts, Memory, StateSealingDef}
use mma.Memorycore.Memory.Create.{AreU16Layouts}
use mma.Memorycore.Memory.WellFormed.{IsWellFormed, HasNarrowBits}
use mma.Memorycore.Store.{MemoryId, Pointer, Store, deref, get, lookup}
use mma.Memorycore.Store.WellFormed.{IsSoundStore}
use mma.Golang.Netip.{Addr, v4}
use mma.Authority.Sealing.{new_sealing}
use mma.Authority.Rules.{Rule}
use mma.Authority.Evaluate.{Authority, MemoryPolicy}
use mma.Modbus.Conn.{Peer}

abbrev pub coils_16 : AreaLayout
coils_16 = record { start = 0; size = 16 }

abbrev pub regs_4 : AreaLayout
regs_4 = record { start = 100; size = 4 }

abbrev pub layouts_a : MemoryLayouts
layouts_a = record {
  coils = some coils_16;
  discrete_inputs = none;
  holding_regs = some regs_4;
  input_regs = none;
}

abbrev pub seal_a : StateSealingDef
seal_a = record { area = 1; address = 0 }

-- A memory whose coils start with the given byte, and whose first register has the given value.
abbrev pub memory_of : ℕ → ℕ → Option StateSealingDef → Memory
memory_of bits value seal = record {
  coils_layout = some coils_16;
  discrete_inputs_layout = none;
  holding_regs_layout = some regs_4;
  input_regs_layout = none;
  coils_bits = bits ∷ 0 ∷ [];
  discrete_inputs_bits = [];
  holding_regs = value ∷ 0 ∷ 0 ∷ 0 ∷ [];
  input_regs = [];
  state_sealing = seal;
}

pub coils_16-IsLayout : IsLayout coils_16
coils_16-IsLayout = record {
  nonempty = omega arith;
  size_u16 = omega arith;
  start_u16 = omega arith;
  fits = omega arith;
}

pub regs_4-IsLayout : IsLayout regs_4
regs_4-IsLayout = record {
  nonempty = omega arith;
  size_u16 = omega arith;
  start_u16 = omega arith;
  fits = omega arith;
}

pub memory_of-IsWellFormed :
    (bits value : ℕ) (seal : Option StateSealingDef)
    → IsByte bits
    → IsU16 value
    → IsWellFormed (memory_of bits value seal)
unfolding bytes_for_bits
memory_of-IsWellFormed bits value seal hb hv = record {
  coils = (coils_16-IsLayout, refl, (hb, (omega arith, tt)));
  discrete = tt;
  holding = (regs_4-IsLayout, refl, (hv, (omega arith, (omega arith, (omega arith, tt)))));
  input = tt;
}

pub memory_of-HasNarrowBits :
    (bits value : ℕ) (seal : Option StateSealingDef) → HasNarrowBits (memory_of bits value seal)
memory_of-HasNarrowBits bits value seal = (omega arith, tt)

pub layouts_a-AreU16Layouts : AreU16Layouts layouts_a
layouts_a-AreU16Layouts = record {
  coils = (omega arith, omega arith);
  discrete = tt;
  holding = (omega arith, omega arith);
  input = tt;
}

abbrev pub empty_a : Memory
empty_a = memory_of 0 0 none

-- A bit area whose byte count wraps.
abbrev pub coils_wide : AreaLayout
coils_wide = record { start = 0; size = 65535 }

abbrev pub memory_wide : Memory
memory_wide = record {
  coils_layout = some coils_wide;
  discrete_inputs_layout = none;
  holding_regs_layout = none;
  input_regs_layout = none;
  coils_bits = [];
  discrete_inputs_bits = [];
  holding_regs = [];
  input_regs = [];
  state_sealing = none;
}

pub memory_wide-IsWellFormed : IsWellFormed memory_wide
unfolding bytes_for_bits
memory_wide-IsWellFormed = record {
  coils = (
    record {
      nonempty = omega arith;
      size_u16 = omega arith;
      start_u16 = omega arith;
      fits = omega arith;
    },
    refl,
    tt,
  );
  discrete = tt;
  holding = tt;
  input = tt;
}

abbrev pub id_a : MemoryId
id_a = record { port = 502; unit_id = 1 }

abbrev pub id_b : MemoryId
id_b = record { port = 503; unit_id = 1 }

-- A store with a memory on each of two ports.
abbrev pub store_of : Memory → Memory → Store
store_of m n = record { table = (id_a, 0) ∷ (id_b, 1) ∷ []; heap = m ∷ n ∷ [] }

pub store_of-IsSoundStore :
    (m n : Memory) → IsWellFormed m → IsWellFormed n → IsSoundStore (store_of m n)
unfolding get lookup
store_of-IsSoundStore m n wm wn = record {
  reaches = λ id p h. ground arith;
  formed = λ p x h. formed p x h;
  unshared = λ i j p hi hj. ground arith;
}
  where
    formed : (p : Pointer) (x : Memory) → deref (store_of m n) p ≡ some x → IsWellFormed x
    formed zero x h = let e : x ≡ m = cc h in rw e wm
    formed (suc zero) x h = let e : x ≡ n = cc h in rw e wn
    formed (suc (suc p)) x h = cc

-- Every IPv4 address may read coils and registers, and write single coils.
abbrev pub rule_a : Rule
rule_a = record {
  id = "lan";
  ip = some (record { prefixes = record { ip = v4 0; bits = some 0 } ∷ [] });
  allow_function_codes = 1 ∷ 3 ∷ 5 ∷ [];
}

abbrev pub policy_a : MemoryPolicy
policy_a = record { rules = some rule_a ∷ [] }

abbrev pub auth_a : Authority
auth_a = record { sealing = new_sealing; policies = (id_a, some policy_a) ∷ [] }

abbrev pub host_a : Addr
host_a = v4 0x0a000001

abbrev pub peer_a : Peer
peer_a = record { port = 502; src_ip = host_a; writable = λ n. true }
