-- ===== src/Tests/Adapter.antt =====
-- The theorems on the runtime memories of the older raw transport at concrete data.
use mathlib.Core.Path.{subst}
use mma.Base.{
  Bool-cases, inl, inr, some-injective, All, ℕ, ◌+◌, ◌≤◌, ◌<◌, ◌≡◌, ◌⊎◌, refl, arith, true, some,
  none, Option, List, [], ◌∷◌, ok, panic, if◌then◌else◌, ◌==◌,
}
use mma.Memorycore.Bits.{is_set}
use mma.Raw.Align.{align_bits_loop}
use mma.Raw.Loop.{RawSession, run_one, apply_frame}
use mma.Raw.Adapter.{
  RuntimeMemory, Runtime, bool_to_uint16, put_cells, memory_adapter, resolve_in,
  new_runtime_resolver,
}
use mma.Raw.Adapter.Lands.{IsRuntimeMemory, Landed}
use mma.Raw.Adapter.Frames.{apply_frame-memory_adapter}
use mma.Raw.Adapter.Resolves.{
  IsFirst, HasRuntimeMemories, IsUnknown, IsWrittenTo, run_one-IsWrittenTo,
}
use mma.Tests.Raw.{coil_bytes, coil_bytes-IsByte, frame_of, coils_read, coils_framed}

-- The slices of one unit.
record Cells : Type 0 where
  coils : List ℕ
  discrete : List ℕ
  holding : List ℕ
  input : List ℕ

abbrev unit_memory : RuntimeMemory Cells
unit_memory = record {
  coils = record { cells = λ w. w.coils; with_cells = λ d w. record w { coils = d } };
  discrete_inputs = record {
    cells = λ w. w.discrete;
    with_cells = λ d w. record w { discrete = d };
  };
  holding_regs = record { cells = λ w. w.holding; with_cells = λ d w. record w { holding = d } };
  input_regs = record { cells = λ w. w.input; with_cells = λ d w. record w { input = d } };
}

unit_memory-IsRuntimeMemory : IsRuntimeMemory unit_memory
unit_memory-IsRuntimeMemory = record {
  coils = record { cells-with_cells = λ d w. refl };
  discrete = record { cells-with_cells = λ d w. refl };
  holding = record { cells-with_cells = λ d w. refl };
  input = record { cells-with_cells = λ d w. refl };
  coils_apart =
      (record { kept = λ d w. refl }, record { kept = λ d w. refl }, record { kept = λ d w. refl });
  discrete_apart =
      (record { kept = λ d w. refl }, record { kept = λ d w. refl }, record { kept = λ d w. refl });
  holding_apart =
      (record { kept = λ d w. refl }, record { kept = λ d w. refl }, record { kept = λ d w. refl });
  input_apart =
      (record { kept = λ d w. refl }, record { kept = λ d w. refl }, record { kept = λ d w. refl });
}

-- Units with two coils, and with four.
abbrev two_coils : Cells
two_coils = record { coils = 0 ∷ 0 ∷ []; discrete = []; holding = []; input = [] }

abbrev four_coils : Cells
four_coils = record { coils = 0 ∷ 0 ∷ 0 ∷ 0 ∷ []; discrete = []; holding = []; input = [] }

abbrev unit_1 : ℕ → Option (RuntimeMemory Cells)
unit_1 id = if id == 1 then some unit_memory else none

-- The unit is on the second port.
abbrev runtime_a : Runtime Cells
runtime_a = record { ports = (λ id. none) ∷ unit_1 ∷ [] }

three_bits :
    apply_frame (memory_adapter unit_memory) (frame_of 1 3 (5 ∷ [])) four_coils
    ≡ ok (record { coils = 1 ∷ 0 ∷ 1 ∷ 0 ∷ []; discrete = []; holding = []; input = [] })
unfolding apply_frame memory_adapter put_cells bool_to_uint16 align_bits_loop is_set
three_bits = refl

apply_frame-memory_adapter_example :
    ((0 + 3 ≤ 4)
      × (w' : Cells) × (apply_frame (memory_adapter unit_memory) (frame_of 1 3 (5 ∷ [])) four_coils
          ≡ ok w')
      × Landed (frame_of 1 3 (5 ∷ [])) four_coils w' unit_memory)
    ⊎ ((4 < 0 + 3)
        × (apply_frame (memory_adapter unit_memory) (frame_of 1 3 (5 ∷ [])) four_coils ≡ panic))
apply_frame-memory_adapter_example =
    apply_frame-memory_adapter unit_memory unit_memory-IsRuntimeMemory four_coils coil_bytes 64
      (frame_of 1 3 (5 ∷ [])) [] coils_framed coil_bytes-IsByte (omega arith)

-- Unit 257 is unit 1.
unit_257 : resolve_in runtime_a.ports 257 ≡ some (memory_adapter unit_memory)
unfolding resolve_in
unit_257 = refl

abbrev session_a : RawSession Cells
session_a = record { world = two_coils; input = coil_bytes; sent = [] }

found_1 : resolve_in runtime_a.ports 1 ≡ some (memory_adapter unit_memory)
unfolding resolve_in
found_1 = refl

runtime_a-HasRuntimeMemories : All HasRuntimeMemories runtime_a.ports
runtime_a-HasRuntimeMemories = (λ id mem e. cc e, (of_unit_1, tt))
  where
    of_unit_1 : HasRuntimeMemories unit_1
    of_unit_1 id mem e = elim (Bool-cases (id == 1)) [
      | inl one ↦
          let q : unit_memory ≡ mem = some-injective unit_memory mem (rw one at e) in
          subst IsRuntimeMemory q unit_memory-IsRuntimeMemory
      | inr other ↦ let nothing : none ≡ some mem = rw other at e in absurd (cc nothing)
    ]

-- The frame has three coils, and the unit has two: the round crashes.
run_one-IsWrittenTo_example :
    IsUnknown runtime_a 64
      (λ n. true)
      session_a
      (frame_of 1 3 (5 ∷ []))
      []
      (run_one (new_runtime_resolver runtime_a) 64 (λ n. true) session_a)
    ⊎ ((mem : RuntimeMemory Cells) × IsFirst 1 runtime_a.ports mem
        × IsWrittenTo runtime_a 64
            (λ n. true)
            session_a
            (frame_of 1 3 (5 ∷ []))
            []
            (run_one (new_runtime_resolver runtime_a) 64 (λ n. true) session_a)
            mem)
run_one-IsWrittenTo_example =
    run_one-IsWrittenTo runtime_a 64 (λ n. true) session_a (frame_of 1 3 (5 ∷ [])) []
      coil_bytes-IsByte coils_read runtime_a-HasRuntimeMemories (omega arith)
