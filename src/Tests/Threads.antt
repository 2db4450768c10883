-- ===== src/Tests/Threads.antt =====
-- The theorems on interleaved connections at a schedule of one step.
use mma.Main.Threads.Sealed.{schedule_isolates}
use mma.Base.{ℕ, ◌+◌, ◌≤◌, ◌≤◌, refl, arith, none, List, [], ◌∷◌, All}
use mma.Words.{load_u16, store_u16}
use mma.Golang.Reader.{read_full}
use mma.Memorycore.Bits.{bytes_for_bits, is_set, put_bit, copy_bits_loop, copy_bits}
use mma.Memorycore.Layout.{contains, offset}
use mma.Memorycore.Memory.{bits_area, read_bits}
use mma.Memorycore.Store.{get, lookup}
use mma.Modbus.Wire.{read_body, read_request, build_response}
use mma.Modbus.Encode.{build_exception_pdu}
use mma.Modbus.Conn.{sealed_by, is_blocked}
use mma.Main.Threads.{Thread, reading, ingesting, admit, advance, System, Step, Reaches, stay, walk}
use mma.Main.Threads.Sealed.{IsSoundThread, Holds}
use mma.Main.Threads.Measure.{all_steps_left, schedule_bounded}
use mma.Tests.Samples.{memory_of, id_b, auth_a, peer_a}
use mma.Tests.Stores.{
  sealed_store, stores-IsSoundStore, coil_frame, unseal_frame, unseal_frame-IsByte,
}

-- A Modbus connection that wants to write a coil, and a raw connection to the given port.
abbrev pub threads_a : ℕ → List Thread
threads_a port = reading peer_a coil_frame [] ∷ ingesting port unseal_frame [] ∷ []

abbrev pub system_a : ℕ → System
system_a port = record { store = sealed_store; threads = threads_a port }

-- After the Modbus connection was refused.
abbrev pub system_b : ℕ → System
system_b port = record {
  store = sealed_store;
  threads =
      reading peer_a [] ((0 ∷ 1 ∷ 0 ∷ 0 ∷ 0 ∷ 3 ∷ 1 ∷ 0x85 ∷ 6 ∷ []) ∷ [])
      ∷ ingesting port unseal_frame []
      ∷ [];
}

refused-Step : (port : ℕ) → Step auth_a (system_a port) (system_b port)
unfolding advance read_request read_body read_full load_u16 store_u16 admit is_blocked sealed_by get
    lookup read_bits bits_area contains bytes_for_bits copy_bits copy_bits_loop offset put_bit
    is_set build_response build_exception_pdu
refused-Step port = record {
  place = 0;
  before = reading peer_a coil_frame [];
  after = reading peer_a [] ((0 ∷ 1 ∷ 0 ∷ 0 ∷ 0 ∷ 3 ∷ 1 ∷ 0x85 ∷ 6 ∷ []) ∷ []);
  chosen = refl;
  moved = refl;
  others = refl;
}

pub one_step : (port : ℕ) → Reaches auth_a (system_a port) 1 (system_b port)
one_step port = walk stay (refused-Step port)

threads_a-IsSound : All IsSoundThread (threads_a 502)
threads_a-IsSound = (tt, ((tt, unseal_frame-IsByte, tt), tt))

other_memory : Holds id_b 1 (memory_of 0 0 none) sealed_store
unfolding get lookup
other_memory = (stores-IsSoundStore 0 (omega arith), refl, refl)

schedule_bounded_example :
    1 + all_steps_left (system_b 502).threads ≤ all_steps_left (system_a 502).threads
schedule_bounded_example = schedule_bounded auth_a (system_a 502) 1 (system_b 502) (one_step 502)

schedule_isolates_example : Holds id_b 1 (memory_of 0 0 none) sealed_store
schedule_isolates_example =
    schedule_isolates auth_a (system_a 502) 1 (system_b 502) (one_step 502) id_b 1
      (memory_of 0 0 none) other_memory (omega arith, ((omega arith, unseal_frame-IsByte, tt), tt))
