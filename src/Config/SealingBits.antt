-- ===== src/Config/SealingBits.antt =====
-- Where the sealing bits lie in a store that BuildMemoryStore (internal/config/build_memory_store.go)
-- makes.
use mma.Base.{
  ltb, ℕ, ◌≡◌, inl, inr, refl, arith, Option, none, some, [], ◌∷◌, ◌++◌, length, ok, fail_if-eq_ok,
  >>=-eq-ok,
}
use mma.Golang.Text.{TextLibrary}
use mma.Memorycore.Memory.{bits_area, Memory, StateSealingDef, set_state_sealing, new_memory}
use mma.Memorycore.Memory.Create.{new_memory-layouts}
use mma.Memorycore.Memory.Acceptance.{BitsCover}
use mma.Memorycore.Store.{Pointer, Store, new_store, deref, add}
use mma.Config.{
  StateSealingConfig, MemoryDefinition, Config, wrap, layout_of, layouts_of, attach_sealing,
  create_failed, legacy_memories, build_one_memory, build_memory_store,
}
use mma.Config.Sound.{AreU16Gates, get_elem?-append_one, wrap-eq_ok, build_gates_keep}

-- Every sealing bit lies in the coils of its memory.
abbrev HasSealingBits : Store → Type 0
HasSealingBits s =
    (p : Pointer) (m : Memory) (seal : StateSealingDef)
    → deref s p ≡ some m
    → m.state_sealing ≡ some seal
    → (seal.area ≡ 1) × BitsCover m seal.area seal.address 1

module _ (lib : TextLibrary) where
  -- A sealing bit that is attached lies in the coils.
  attach_sealing-BitsCover :
      (def : MemoryDefinition) (mem m : Memory) (seal : StateSealingDef)
      → new_memory (layouts_of def) ≡ ok mem
      → attach_sealing lib def.coils mem def.state_sealing ≡ ok m
      → m.state_sealing ≡ some seal
      → (seal.area ≡ 1) × BitsCover m seal.area seal.address 1
  unfolding attach_sealing set_state_sealing layouts_of layout_of bits_area
  attach_sealing-BitsCover def mem m seal n a e = attached def.state_sealing a
    where
      attached :
          (o : Option StateSealingConfig)
          → attach_sealing lib def.coils mem o ≡ ok m
          → (seal.area ≡ 1) × BitsCover m seal.area seal.address 1
      attached none h =
          let fresh = (new_memory-layouts (layouts_of def) mem n).4 in
          absurd (ground (arith, fresh))
      attached (some c) h =
          let q : m
              ≡ record mem { state_sealing = some (record { area = 1; address = c.address }) } =
            ground arith in
          let coils = (new_memory-layouts (layouts_of def) mem n).0 in
          let same : seal ≡ record { area = 1; address = c.address } = ground arith in
          let full : mem.coils_layout
              ≡ some (record { start = def.coils.start; size = def.coils.count }) =
            ground arith in
          rw (same, q)
            (
              refl,
              (
                record { start = def.coils.start; size = def.coils.count },
                mem.coils_bits,
                rw full refl,
                record { nonempty = omega arith; from = ground arith; until = ground arith },
              ),
            )

  -- The sealing bit of a memory lies in its coils.
  pub build_one_memory-HasSealingBits :
      (s : Store) (port : ℕ) (def : MemoryDefinition) {s' : Store}
      → build_one_memory lib s port def ≡ ok s'
      → HasSealingBits s
      → HasSealingBits s'
  unfolding build_one_memory add
  build_one_memory-HasSealingBits s port def {s'} h w =
      let (mem, e, h1) = >>=-eq-ok (wrap create_failed (new_memory (layouts_of def))) _ h in
      let (m, a, h2) = >>=-eq-ok (attach_sealing lib def.coils mem def.state_sealing) _ h1 in
      let q : s'.heap ≡ s.heap ++ m ∷ [] = ground (arith, wrap-eq_ok _ _ h2) in
      λ p x seal d sealing. elim (get_elem?-append_one s.heap m x p (rw q at d)) [
        | inl old ↦ w p x seal old sealing
        | inr same ↦
            rw same
              (attach_sealing-BitsCover def mem m seal (wrap-eq_ok _ _ e) a (rw same at sealing))
      ]

  -- In a store that BuildMemoryStore makes from a configuration whose areas have `uint16` fields, a
  -- memory with state sealing has the sealing bit among its allocated coils.
  pub build_memory_store-BitsCover :
      (cfg : Config) {s : Store} (p : Pointer) (m : Memory) (seal : StateSealingDef)
      → AreU16Gates cfg.ingress
      → build_memory_store lib (some cfg) ≡ ok s
      → deref s p ≡ some m
      → m.state_sealing ≡ some seal
      → (seal.area ≡ 1) × BitsCover m seal.area seal.address 1
  unfolding build_memory_store
  build_memory_store-BitsCover cfg p m seal u h d e =
      let (_, h1) = fail_if-eq_ok (ltb 0 (length cfg.memories)) legacy_memories _ h in
      build_gates_keep lib HasSealingBits
        (λ s port def s' h _ w. build_one_memory-HasSealingBits s port def h w) new_store
        cfg.ingress h1 u (λ p m seal d e. cc) p m seal d e
