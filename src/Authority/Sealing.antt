-- ===== src/Authority/Sealing.antt =====
-- internal/authority/sealing.go: the flag of each memory. Both `Ensure` and `IsSealed` hold the lock,
-- so each is one step.
use mma.Base.{Bool, true, false, none, some, List, []}
use mma.Memorycore.Store.{MemoryId, lookup, insert}

pub record Sealing : Type 0 where
  pub flags : List (MemoryId × Bool)

abbrev pub new_sealing : Sealing
new_sealing = record { flags = [] }

unfoldable pub ensure : Sealing → MemoryId → Bool → Sealing
ensure s mid enabled = record { flags = insert s.flags mid enabled }

unfoldable pub is_sealed : Sealing → MemoryId → Bool
is_sealed s mid = elim (lookup s.flags mid) [ none ↦ false | some b ↦ b ]

unfoldable pub seal : Sealing → MemoryId → Sealing
unfolding ensure
seal s mid = ensure s mid true

unfoldable pub unseal : Sealing → MemoryId → Sealing
unfolding ensure
unseal s mid = ensure s mid false
