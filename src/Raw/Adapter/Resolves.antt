-- ===== src/Raw/Adapter/Resolves.antt =====
-- Run of internal/transport/raw/ingest_loop.go on the resolver of resolver.go.
use mma.Base.{
  ℕ, ◌+◌, ◌%◌, ◌<◌, ◌≤◌, ◌≡◌, ◌⊎◌, inl, inr, refl, Bool, if◌then◌else◌, Option, none, some,
  Option-cases, List, [], ◌∷◌, ◌++◌, length, All, ok,
}
use mma.Words.{IsByte}
use mma.Raw.Frame.{rejected, write_failed, RawFrame, read_frame}
use mma.Raw.Frame.Bounds.{read_frame-IsFrameOf}
use mma.Raw.Loop.{RawSession, Round, next, done, crashed, run_one}
use mma.Raw.Adapter.{RuntimeMemory, Runtime, memory_adapter, resolve_in, new_runtime_resolver}
use mma.Raw.Adapter.Lands.{IsRuntimeMemory, Landed, slice_at}
use mma.Raw.Adapter.Frames.{apply_frame-memory_adapter}

-- A port without the unit.
abbrev pub Lacks : {W : Type 0} → ℕ → (ℕ → Option (RuntimeMemory W)) → Type 0
Lacks unit units = units unit ≡ none

-- The memory of the first port that has the unit.
abbrev pub IsFirst :
    {W : Type 0} → ℕ → List (ℕ → Option (RuntimeMemory W)) → RuntimeMemory W → Type 0
IsFirst {W} unit ports mem =
    (before : List (ℕ → Option (RuntimeMemory W))) × (units : ℕ → Option (RuntimeMemory W))
    × (after : List (ℕ → Option (RuntimeMemory W))) × (ports ≡ before ++ (units ∷ after))
    × All (Lacks unit) before
    × (units unit ≡ some mem)

-- The memories of a port are made of slices.
abbrev pub HasRuntimeMemories : {W : Type 0} → (ℕ → Option (RuntimeMemory W)) → Type 0
HasRuntimeMemories {W} units =
    (id : ℕ) (mem : RuntimeMemory W) → units id ≡ some mem → IsRuntimeMemory mem

All-middle {ℓ κ} :
    {A : Type ℓ} (P : A → Type κ) (xs : List A) (y : A) (zs : List A) → All P (xs ++ (y ∷ zs)) → P y
All-middle P [] y zs h = h.0
All-middle P (x ∷ xs) y zs h = All-middle P xs y zs h.1

module _ {W : Type 0} where
  -- ResolveMemoryByID finds no memory if no port has the unit with the identifier's low byte; otherwise
  -- the memory is that of the first port that has it.
  pub resolve_in_cases :
      (ports : List (ℕ → Option (RuntimeMemory W))) (id : ℕ)
      → ((resolve_in ports id ≡ none) × All (Lacks (id % 256)) ports)
        ⊎ ((mem : RuntimeMemory W) × IsFirst (id % 256) ports mem
            × (resolve_in ports id ≡ some (memory_adapter mem)))
  unfolding resolve_in
  resolve_in_cases [] id = inl (refl, tt)
  resolve_in_cases (units ∷ ports) id = elim (Option-cases (units (id % 256))) [
    | inr (mem, e) ↦ inr (mem, ([], units, ports, refl, tt, e), rw e refl)
    | inl e ↦ elim (resolve_in_cases ports id) [
      | inl (q, lack) ↦ inl (rw e q, (e, lack))
      | inr (mem, (before, found, after, split, lack, here), q) ↦
          inr (mem, (units ∷ before, found, after, rw split refl, (e, lack), here), rw e q)
    ]
  ]

  module _ (rt : Runtime W) (max : ℕ) (writable : ℕ → Bool) (c : RawSession W) (f : RawFrame)
      (rest : List ℕ) where
    -- The session after a reply.
    abbrev pub replied : W → ℕ → RawSession W
    replied w status = record { world = w; input = rest; sent = c.sent ++ status ∷ [] }

    -- No port has the unit with the low byte of the frame's identifier: the frame is rejected.
    abbrev pub IsUnknown : Round W → Type 0
    IsUnknown o =
        All (Lacks (f.header.unit_id % 256)) rt.ports × (o ≡ done (replied c.world 1) rejected)

    -- The frame lands in a memory and is answered, or its range ends past the slice and the round
    -- crashes.
    abbrev pub IsWrittenTo : Round W → RuntimeMemory W → Type 0
    IsWrittenTo o mem =
        ((f.header.address + f.header.count ≤ length ((slice_at mem f.header.area).cells c.world))
          × (w' : W) × Landed f c.world w' mem
          × (o ≡ (
              if writable (length c.sent)
              then next (replied w' 0)
              else done (replied w' 0) write_failed)))
        ⊎ ((length ((slice_at mem f.header.area).cells c.world) < f.header.address + f.header.count)
            × (o ≡ crashed))

    -- A round of Run on a runtime, for a frame of 65528 cells at most read from an input of bytes: the
    -- low byte of its identifier selects the unit. If no port has the unit, the frame is rejected;
    -- otherwise it goes to the unit of the first port that has it, where it lands and is answered by 0 if
    -- its range ends in the slice of its area, and crashes the round if not.
    pub run_one-IsWrittenTo :
        All IsByte c.input
        → read_frame c.input max ≡ ok (f, rest)
        → All HasRuntimeMemories rt.ports
        → f.header.count ≤ 65528
        → IsUnknown (run_one (new_runtime_resolver rt) max writable c)
          ⊎ ((mem : RuntimeMemory W) × IsFirst (f.header.unit_id % 256) rt.ports mem
              × IsWrittenTo (run_one (new_runtime_resolver rt) max writable c) mem)
    unfolding run_one new_runtime_resolver
    run_one-IsWrittenTo bytes q laws small =
        let frame = read_frame-IsFrameOf c.input max bytes q in
        elim (resolve_in_cases rt.ports f.header.unit_id) [
          | inl (nowhere, lack) ↦ inl (lack, rw (q, run_one, nowhere) refl)
          | inr (mem, first, found) ↦
              let (before, units, after, split, _, here) = first in
              let law =
                All-middle HasRuntimeMemories before units after (rw split at laws)
                  (f.header.unit_id % 256) mem here in
              inr (
                mem,
                first,
                elim (apply_frame-memory_adapter mem law c.world c.input max f rest frame bytes
                    small) [
                      | inl (fits, w', e, landed) ↦
                          inl (fits, w', landed, rw (q, run_one, found, e) refl)
                      | inr (past, e) ↦ inr (past, rw (q, run_one, found, e) refl)
                    ],
              )
        ]
