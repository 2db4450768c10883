-- ===== src/Tests/Startup.antt =====
-- The theorems on the configuration at a concrete one.
use mma.Base.{◌≡◌, refl, arith, none, some, [], ◌∷◌, ok}
use mma.Golang.Text.{pos, TextLibrary}
use mma.Golang.Strings.{trim_space}
use mma.Memorycore.Bits.{bytes_for_bits}
use mma.Memorycore.Layout.{validate}
use mma.Memorycore.Memory.{allocate, new_memory, set_state_sealing}
use mma.Memorycore.Memory.Acceptance.{BitsCover}
use mma.Memorycore.Store.{Store, validate_id, insert, add}
use mma.Config.{
  MemoryDefinition, Config, parse_listen_port, layout_of, layouts_of, attach_sealing,
  build_one_memory, build_memories, build_gates, build_memory_store,
}
use mma.Config.Sound.{AreU16Gates}
use mma.Config.SealingBits.{build_memory_store-BitsCover}
use mma.Tests.Samples.{memory_of, seal_a, id_a}

-- Library functions that serve for the addresses of this configuration.
abbrev pub library_a : TextLibrary
library_a = record {
  split_host_port = λ s. some "502";
  atoi = λ s. some (pos 502);
  to_lower = λ s. s;
}

abbrev pub definition_a : MemoryDefinition
definition_a = record {
  port = 0;
  unit_id = 1;
  coils = record { start = 0; count = 16 };
  discrete_inputs = record { start = 0; count = 0 };
  holding_regs = record { start = 100; count = 4 };
  input_regs = record { start = 0; count = 0 };
  state_sealing = some (record { area = " coil"; address = 0 });
  policy = none;
}

abbrev pub config_a : Config
config_a = record {
  ingress = record { id = "lan"; listen = ":502"; memory = definition_a ∷ [] } ∷ [];
  memories = [];
}

abbrev pub store_a : Store
store_a = record { table = (id_a, 0) ∷ []; heap = memory_of 0 0 (some seal_a) ∷ [] }

pub config_a-AreU16Gates : AreU16Gates config_a.ingress
unfolding layouts_of layout_of
config_a-AreU16Gates = (
  (
    record {
      coils = (omega arith, omega arith);
      discrete = tt;
      holding = (omega arith, omega arith);
      input = tt;
    },
    tt,
  ),
  tt,
)

built_a : build_memory_store library_a (some config_a) ≡ ok store_a
unfolding build_memory_store build_gates build_memories build_one_memory parse_listen_port
    layouts_of layout_of attach_sealing trim_space set_state_sealing new_memory allocate validate
    bytes_for_bits add validate_id insert
built_a = refl

build_memory_store-BitsCover_example :
    (seal_a.area ≡ 1) × BitsCover (memory_of 0 0 (some seal_a)) 1 0 1
build_memory_store-BitsCover_example =
    build_memory_store-BitsCover library_a config_a 0 (memory_of 0 0 (some seal_a)) seal_a
      config_a-AreU16Gates built_a refl refl
