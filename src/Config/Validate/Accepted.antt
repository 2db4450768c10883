-- ===== src/Config/Validate/Accepted.antt =====
-- What the checks of Validate (internal/config/validate.go) on one definition leave for
-- buildOneMemory (internal/config/build_memory_store.go).
use mma.Base.{
  suc, ℕ, ◌≡◌, ◌≢◌, refl, arith, true, Option, none, some, [], ◌∷◌, ◌++◌, length, ok, fail_if-eq_ok,
  >>=-eq-ok, ◌==◌, ltb,
}
use mma.Golang.Text.{TextLibrary}
use mma.Golang.Netip.{Parser}
use mma.Memorycore.Area.{Area}
use mma.Memorycore.Memory.{Memory, StateSealingDef, set_state_sealing, bits_area, regs_area}
use mma.Memorycore.Memory.WellFormed.{bit_value, reg_value}
use mma.Memorycore.Memory.Create.{
  IsU16Layout, AreU16Layouts, IsSound, AreSound, new_memory_iff, new_memory-layouts,
  new_memory-view,
}
use mma.Memorycore.Store.{MemoryId, Store, insert, add, validate_id}
use mma.Config.{
  AreaConfig, StateSealingConfig, MemoryDefinition, port_zero, unit_id_too_large, wrap, layout_of,
  layouts_of, attach_sealing, build_one_memory,
}
use mma.Config.Validate.{
  validate_area, validate_areas, validate_state_sealing, validate_policy, validate_definition,
}

abbrev pub identity : ℕ → MemoryDefinition → MemoryId
identity port def = record { port = port; unit_id = def.unit_id }

abbrev pub sealing_def : Option StateSealingConfig → Option StateSealingDef
sealing_def none = none
sealing_def (some c) = some (record { area = 1; address = c.address })

-- A memory as its definition describes it, with every bit clear and every register zero.
pub record IsFreshMemory (def : MemoryDefinition) (m : Memory) : Type 0 where
  pub coils : m.coils_layout ≡ layout_of def.coils
  pub discrete : m.discrete_inputs_layout ≡ layout_of def.discrete_inputs
  pub holding : m.holding_regs_layout ≡ layout_of def.holding_regs
  pub input : m.input_regs_layout ≡ layout_of def.input_regs
  pub sealing : m.state_sealing ≡ sealing_def def.state_sealing
  pub clear :
      (x : Area) (k v : ℕ) → (bit_value m x k ≢ some true) × (reg_value m x k ≢ some (suc v))

validate_area-IsSound :
    (a : AreaConfig) → validate_area a ≡ ok tt → IsU16Layout (layout_of a) → IsSound (layout_of a)
unfolding validate_area layout_of
validate_area-IsSound a h u = ground arith

module _ (lib : TextLibrary) (parser : Parser) (port : ℕ) (def : MemoryDefinition)
    (valid : validate_definition lib parser port def ≡ ok tt) where
  pub definition_parts :
      (port ≢ 0)
      × (validate_areas def ≡ ok tt)
      × (validate_state_sealing lib def.coils def.state_sealing ≡ ok tt)
      × (validate_policy parser def.policy ≡ ok tt)
  unfolding validate_definition
  definition_parts =
      let (nonzero, h1) = fail_if-eq_ok (port == 0) port_zero _ valid in
      let (_, h2) = fail_if-eq_ok (ltb 0xff def.unit_id) unit_id_too_large _ h1 in
      let (_, areas, h3) = >>=-eq-ok (validate_areas def) _ h2 in
      let (_, sealing, h4) =
        >>=-eq-ok (validate_state_sealing lib def.coils def.state_sealing) _ h3 in
      (ground arith, areas, sealing, h4)

  definition-AreSound : AreU16Layouts (layouts_of def) → AreSound (layouts_of def)
  unfolding validate_areas layouts_of
  definition-AreSound u =
      let h = definition_parts.1 in
      let (_, c, h1) = >>=-eq-ok (validate_area def.coils) _ h in
      let (_, d, h2) = >>=-eq-ok (validate_area def.discrete_inputs) _ h1 in
      let (_, r, i) = >>=-eq-ok (validate_area def.holding_regs) _ h2 in
      record {
        coils = validate_area-IsSound def.coils c u.coils;
        discrete = validate_area-IsSound def.discrete_inputs d u.discrete;
        holding = validate_area-IsSound def.holding_regs r u.holding;
        input = validate_area-IsSound def.input_regs i u.input;
      }

  -- The sealing block that Validate passed, buildOneMemory passes.
  definition-attach_sealing :
      (m : Memory)
      → m.state_sealing ≡ none
      → attach_sealing lib def.coils m def.state_sealing
        ≡ ok (record m { state_sealing = sealing_def def.state_sealing })
  unfolding validate_state_sealing attach_sealing set_state_sealing
  definition-attach_sealing m fresh = attached def.state_sealing definition_parts.2
    where
      attached :
          (o : Option StateSealingConfig)
          → validate_state_sealing lib def.coils o ≡ ok tt
          → attach_sealing lib def.coils m o ≡ ok (record m { state_sealing = sealing_def o })
      attached none h = ground arith
      attached (some c) h = ground arith

  -- A definition that Validate accepts, with a unit id other than zero, is built.
  pub definition-build_one_memory :
      (s : Store)
      → AreU16Layouts (layouts_of def)
      → def.unit_id ≢ 0
      → (m : Memory) × (build_one_memory lib s port def
          ≡ ok (record {
            table = insert s.table (identity port def) (length s.heap);
            heap = s.heap ++ m ∷ [];
          }))
        × IsFreshMemory def m
  unfolding build_one_memory add validate_id bit_value reg_value bits_area regs_area layouts_of
  definition-build_one_memory s u unit =
      let (mem, made) = (new_memory_iff (layouts_of def) u).1 (definition-AreSound u) in
      let (c, d, r, i, fresh) = new_memory-layouts (layouts_of def) mem made in
      let attached = definition-attach_sealing mem fresh in
      let nonzero = definition_parts.0 in
      (
        record mem { state_sealing = sealing_def def.state_sealing },
        rw (made, wrap, attached) (ground arith),
        record {
          coils = c;
          discrete = d;
          holding = r;
          input = i;
          sealing = refl;
          clear = λ x k v. new_memory-view (layouts_of def) mem made x k v;
        },
      )
