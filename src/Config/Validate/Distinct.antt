-- ===== src/Config/Validate/Distinct.antt =====
-- The identities that Validate (internal/config/validate.go) accepts.
use Prim.Native.String.{String}
use text.Mathlib.Text.{◌==◌ as str_eq}
use text.Mathlib.TextEquality.{eq_iff}
use mma.Base.{
  ◌≡◌, ◌↔◌, refl, arith, sym, true, some, List, [], ◌∷◌, ◌++◌, ℕ, Outcome, ok, err, panic,
  ok-injective, fail_if-eq_ok, >>=-eq-ok,
}
use mma.Golang.Sets.{has_key}
use mma.Golang.Sets.Fresh.{IsDistinct, IsFresh, put_all, IsFresh-append, IsFresh-IsDistinct}
use mma.Golang.Strings.{trim_space}
use mma.Golang.Text.{TextLibrary}
use mma.Golang.Netip.{Parser}
use mma.Memorycore.Store.{MemoryId, same_id}
use mma.Memorycore.Store.Laws.{same_id_refl, same_id→eq}
use mma.Config.{
  MemoryDefinition, IngressGate, Config, ConfigError, id_required, duplicate_id, listen_required,
  identity_conflict, parse_listen_port,
}
use mma.Config.Validate.{
  check_listen, validate_ingress, validate_legacy_memory_def, validate_nested_memory_def,
  validate_legacy, validate_nested, validate_gate, validate_gates, validate_all_memories,
  validate_config, has_text, has_identity,
}

-- The run-time identity of each definition: (Port, UnitID).
abbrev pub legacy_ids : List (String × MemoryDefinition) → List MemoryId
legacy_ids [] = []
legacy_ids ((key, def) ∷ memories) =
    (record { port = def.port; unit_id = def.unit_id }) ∷ legacy_ids memories

abbrev pub nested_ids : ℕ → List MemoryDefinition → List MemoryId
nested_ids port [] = []
nested_ids port (def ∷ defs) =
    (record { port = port; unit_id = def.unit_id }) ∷ nested_ids port defs

abbrev pub port_ids : Outcome ConfigError ℕ → List MemoryDefinition → List MemoryId
port_ids (ok port) defs = nested_ids port defs
port_ids (err e) defs = []
port_ids panic defs = []

abbrev pub gate_ids : TextLibrary → List IngressGate → List MemoryId
gate_ids lib [] = []
gate_ids lib (gate ∷ gates) =
    port_ids (parse_listen_port lib gate.listen) gate.memory ++ gate_ids lib gates

abbrev pub identities : TextLibrary → Config → List MemoryId
identities lib cfg = legacy_ids cfg.memories ++ gate_ids lib cfg.ingress

abbrev pub gate_names : List IngressGate → List String
gate_names [] = []
gate_names (gate ∷ gates) = gate.id ∷ gate_names gates

pub same_id_iff : (a b : MemoryId) → (same_id a b ≡ true) ↔ (a ≡ b)
same_id_iff a b = (same_id→eq a b, λ e. rw e (same_id_refl b))

pub has_identity_head : (id : MemoryId) (seen : List MemoryId) → has_identity (id ∷ seen) id ≡ true
unfolding has_key
has_identity_head id seen = rw (same_id_refl id) refl

pub has_identity_tail :
    (id : MemoryId) (seen : List MemoryId) (k : MemoryId)
    → has_identity seen k ≡ true
    → has_identity (id ∷ seen) k ≡ true
unfolding has_key
has_identity_tail id seen k h = ground arith

module _ (lib : TextLibrary) (parser : Parser) where
  -- A loop that ends well found fresh identities, and has put them in.
  pub validate_legacy-IsFresh :
      (seen : List MemoryId) (memories : List (String × MemoryDefinition)) {seen' : List MemoryId}
      → validate_legacy lib parser seen memories ≡ ok seen'
      → IsFresh same_id seen (legacy_ids memories)
        × (seen' ≡ put_all same_id seen (legacy_ids memories))
  unfolding validate_legacy
  validate_legacy-IsFresh seen [] h = (tt, sym (ok-injective h))
  validate_legacy-IsFresh seen ((key, def) ∷ memories) h =
      let id : MemoryId = record { port = def.port; unit_id = def.unit_id } in
      let (_, _, h1) = >>=-eq-ok (validate_legacy_memory_def lib parser def) _ h in
      let (new, h2) = fail_if-eq_ok (has_identity seen id) identity_conflict _ h1 in
      let (fresh, q) = validate_legacy-IsFresh (id ∷ seen) memories h2 in ((new, fresh), q)

  pub validate_nested-IsFresh :
      (port : ℕ) (seen : List MemoryId) (defs : List MemoryDefinition) {seen' : List MemoryId}
      → validate_nested lib parser port seen defs ≡ ok seen'
      → IsFresh same_id seen (nested_ids port defs)
        × (seen' ≡ put_all same_id seen (nested_ids port defs))
  unfolding validate_nested
  validate_nested-IsFresh port seen [] h = (tt, sym (ok-injective h))
  validate_nested-IsFresh port seen (def ∷ defs) h =
      let id : MemoryId = record { port = port; unit_id = def.unit_id } in
      let (_, _, h1) = >>=-eq-ok (validate_nested_memory_def lib parser port def) _ h in
      let (new, h2) = fail_if-eq_ok (has_identity seen id) identity_conflict _ h1 in
      let (fresh, q) = validate_nested-IsFresh port (id ∷ seen) defs h2 in ((new, fresh), q)

  validate_gate-IsFresh :
      (seen : List MemoryId) (listen : String) (defs : List MemoryDefinition)
      {seen' : List MemoryId}
      → validate_gate lib parser seen listen defs ≡ ok seen'
      → IsFresh same_id seen (port_ids (parse_listen_port lib listen) defs)
        × (seen' ≡ put_all same_id seen (port_ids (parse_listen_port lib listen) defs))
  validate_gate-IsFresh seen listen [] {seen'} h = none_new (parse_listen_port lib listen)
    where
      none_new :
          (o : Outcome ConfigError ℕ)
          → IsFresh same_id seen (port_ids o []) × (seen' ≡ put_all same_id seen (port_ids o []))
      none_new (ok port) = (tt, sym (ok-injective h))
      none_new (err e) = (tt, sym (ok-injective h))
      none_new panic = (tt, sym (ok-injective h))
  validate_gate-IsFresh seen listen (def ∷ defs) h =
      let (port, e, h1) = >>=-eq-ok (parse_listen_port lib listen) _ h in
      rw e (validate_nested-IsFresh port seen (def ∷ defs) h1)

  pub validate_gates-IsFresh :
      (seen : List MemoryId) (gates : List IngressGate) {seen' : List MemoryId}
      → validate_gates lib parser seen gates ≡ ok seen'
      → IsFresh same_id seen (gate_ids lib gates)
  unfolding validate_gates
  validate_gates-IsFresh seen [] h = tt
  validate_gates-IsFresh seen (gate ∷ gates) h =
      let (seen1, e, h1) = >>=-eq-ok (validate_gate lib parser seen gate.listen gate.memory) _ h in
      let (fresh, q) = validate_gate-IsFresh seen gate.listen gate.memory e in
      IsFresh-append same_id seen _ _ fresh (rw q at (validate_gates-IsFresh seen1 gates h1))

  validate_ingress-IsFresh :
      (seen : List String) (gates : List IngressGate)
      → validate_ingress lib seen gates ≡ ok tt
      → IsFresh str_eq seen (gate_names gates)
  unfolding validate_ingress
  validate_ingress-IsFresh seen [] h = tt
  validate_ingress-IsFresh seen (gate ∷ gates) h =
      let (_, h1) = fail_if-eq_ok (str_eq gate.id "") id_required _ h in
      let (new, h2) = fail_if-eq_ok (has_text seen gate.id) duplicate_id _ h1 in
      let (_, h3) = fail_if-eq_ok (str_eq (trim_space gate.listen) "") listen_required _ h2 in
      let (_, _, h4) = >>=-eq-ok (check_listen lib gate.listen gate.memory) _ h3 in
      (new, validate_ingress-IsFresh (gate.id ∷ seen) gates h4)

  -- In a configuration that Validate accepts, no two listeners have the same id, and no two memory
  -- definitions, of either model, the same (port, unit id).
  pub validate_config-IsDistinct :
      (cfg : Config)
      → validate_config lib parser (some cfg) ≡ ok tt
      → IsDistinct str_eq (gate_names cfg.ingress) × IsDistinct same_id (identities lib cfg)
  unfolding validate_config validate_all_memories
  validate_config-IsDistinct cfg h =
      let (_, e, h1) = >>=-eq-ok (validate_ingress lib [] cfg.ingress) _ h in
      let (seen, e1, _) = >>=-eq-ok (validate_all_memories lib parser cfg) _ h1 in
      let (old, e2, e3) = >>=-eq-ok (validate_legacy lib parser [] cfg.memories) _ e1 in
      let (fresh, q) = validate_legacy-IsFresh [] cfg.memories e2 in
      (
        IsFresh-IsDistinct str_eq eq_iff [] _ (validate_ingress-IsFresh [] cfg.ingress e),
        IsFresh-IsDistinct same_id same_id_iff [] _ (
            IsFresh-append same_id [] _ _ fresh
              (rw q at (validate_gates-IsFresh old cfg.ingress e3))),
      )
