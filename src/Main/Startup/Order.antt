-- ===== src/Main/Startup/Order.antt =====
-- The order in which main (cmd/mma2/main.go) ranges over the map of policies.
use mathlib.Core.List.{Permᴰ}
use mathlib.Core.List.Permᴰ as PermD
use mma.Base.{◌≡◌, refl, sym, arith, ◌∙◌, false, Bool-cases, inl, inr, Option, some, ◌∷◌, ok}
use mma.Golang.Text.{TextLibrary}
use mma.Golang.Netip.{Parser}
use mma.Golang.Sets.{has_key}
use mma.Golang.Sets.Fresh.{IsDistinct}
use mma.Memorycore.Store.{MemoryId, same_id, lookup}
use mma.Memorycore.Store.Laws.{same_id→eq}
use mma.Authority.Evaluate.{AuthRequest, MemoryPolicy, new_authority, evaluate}
use mma.Config.{Config}
use mma.Config.Policies.{Policies, build_authority_policies}
use mma.Config.Policies.Distinct.{keys, build_authority_policies-IsDistinct}
use mma.Main.Startup.{set_policies}
use mma.Main.Startup.Ready.{lookup-policies}
use mma.Main.Startup.Guarded.{sealing-set_policies}

-- The same map, as a list of entries.
abbrev SameMap : Policies → Policies → Type 0
SameMap out out' =
    IsDistinct same_id (keys out')
    × ((k : MemoryId) → has_key same_id (keys out) k ≡ has_key same_id (keys out') k)
    × ((k : MemoryId) → lookup out k ≡ lookup out' k)

cons-SameMap :
    (a : MemoryId × Option MemoryPolicy) (out out' : Policies)
    → IsDistinct same_id (keys (a ∷ out))
    → SameMap out out'
    → SameMap (a ∷ out) (a ∷ out')
unfolding has_key lookup
cons-SameMap (id, p) out out' (new, h) (d, has, found) =
    ((sym (has id) ∙ new, d), λ k. rw (has k) refl, λ k. rw (found k) refl)

swap-SameMap :
    (a b : MemoryId × Option MemoryPolicy) (out : Policies)
    → IsDistinct same_id (keys (a ∷ b ∷ out))
    → SameMap (a ∷ b ∷ out) (b ∷ a ∷ out)
unfolding has_key lookup
swap-SameMap (i, p) (j, q) out (new, (new', h)) =
    let apart : same_id j i ≡ false = ground (arith, new) in
    let apart' : same_id i j ≡ false = ground (arith, apart) in
    let out_i : has_key same_id (keys out) i ≡ false = ground (arith, new) in
    (
      (rw apart' new', (out_i, h)),
      λ k. elim (Bool-cases (same_id i k)) [
        | inl e ↦ elim (Bool-cases (same_id j k)) [
          | inl e' ↦ rw (e, e') refl
          | inr e' ↦ rw (e, e') refl
        ]
        | inr e ↦ rw e refl
      ],
      λ k. elim (Bool-cases (same_id i k)) [
        | inl e ↦ elim (Bool-cases (same_id j k)) [
          | inl e' ↦ let q : i ≡ k = same_id→eq i k e in cc (q, apart, e')
          | inr e' ↦ rw (e, e') refl
        ]
        | inr e ↦ rw e refl
      ],
    )

Permᴰ-SameMap :
    (out out' : Policies) → Permᴰ out out' → IsDistinct same_id (keys out) → SameMap out out'
Permᴰ-SameMap out out' PermD.nil h = (h, λ k. refl, λ k. refl)
Permᴰ-SameMap (a ∷ out) (b ∷ out') (PermD.cons e d) h =
    let same = cons-SameMap a out out' h (Permᴰ-SameMap out out' d h.1) in
    coe 0 1 (i. SameMap (a ∷ out) (e i ∷ out')) same
Permᴰ-SameMap (a ∷ b ∷ out) _ (PermD.swap e e') h =
    coe 0 1 (i. SameMap (a ∷ b ∷ out) (e' i ∷ e i ∷ out)) (swap-SameMap a b out h)
Permᴰ-SameMap out out' (PermD.trans {l₂ = mid} d d') h =
    let (h1, has, found) = Permᴰ-SameMap out mid d h in
    let (h2, has', found') = Permᴰ-SameMap mid out' d' h1 in
    (h2, λ k. has k ∙ has' k, λ k. found k ∙ found' k)

-- Whatever the order in which main ranges over the map that BuildAuthorityPolicies made, the authority
-- decides every request in the same way.
pub set_policies_any_order :
    (lib : TextLibrary) (parser : Parser) (cfg : Config) (out order : Policies)
    → build_authority_policies lib parser (some cfg) ≡ ok out
    → Permᴰ out order
    → (req : AuthRequest)
    → evaluate (set_policies new_authority order) req
      ≡ evaluate (set_policies new_authority out) req
unfolding evaluate
set_policies_any_order lib parser cfg out order built d req =
    let h = build_authority_policies-IsDistinct lib parser cfg built in
    let (h', _, found) = Permᴰ-SameMap out order d h in
    let q : lookup (set_policies new_authority order).policies req.memory_id
        ≡ lookup (set_policies new_authority out).policies req.memory_id =
      lookup-policies order req.memory_id h'
      ∙ sym (found req.memory_id)
      ∙ sym (lookup-policies out req.memory_id h) in
    rw (q, sealing-set_policies new_authority order, sealing-set_policies new_authority out) refl
