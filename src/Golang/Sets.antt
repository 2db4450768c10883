-- ===== src/Golang/Sets.antt =====
-- A Go map with empty values, used as a set: the list of its keys under an equality test.
pub mod Fresh
use mma.Base.{Bool, true, false, if◌then◌else◌, List, [], ◌∷◌}

-- `_, ok := seen[key]`
unfoldable pub has_key {ℓ} : {K : Type ℓ} → (K → K → Bool) → List K → K → Bool
has_key same [] key = false
has_key same (j ∷ seen) key = if same j key then true else has_key same seen key
