-- ===== src/Tests/Whole.antt =====
-- One connection that a configured server accepts, at concrete data.
use mma.Base.{ℕ, refl, Option, none, some, List, [], ◌∷◌}
use mma.Words.{load_u16, store_u16}
use mma.Golang.Reader.{read_full}
use mma.Memorycore.Bits.{bytes_for_bits, is_set, put_bit, copy_bits_loop, copy_bits}
use mma.Memorycore.Layout.{contains, offset}
use mma.Memorycore.Memory.{bits_area, read_bits}
use mma.Memorycore.Store.{get, lookup}
use mma.Modbus.Wire.{read_body, read_request, build_response}
use mma.Modbus.Encode.{build_exception_pdu}
use mma.Modbus.Conn.{Peer, sealed_by, is_blocked}
use mma.Ingress.{classify, route}
use mma.Main.Threads.{reading, admit, advance, System, Reaches, stay, walk}
use mma.Main.Threads.Accept.{spawn, accept_all, running}
use mma.Tests.Samples.{peer_a}
use mma.Tests.Stores.{coil_frame}
use mma.Tests.Startup.{store_a}
use mma.Tests.Launch.{server_p}

-- An Accept that fails, and a connection that wants to write a coil.
abbrev pub conns_a : List (Option (Peer × List ℕ))
conns_a = none ∷ some (peer_a, coil_frame) ∷ []

abbrev after_a : System
after_a = record {
  store = store_a;
  threads = reading peer_a [] ((0 ∷ 1 ∷ 0 ∷ 0 ∷ 0 ∷ 3 ∷ 1 ∷ 0x85 ∷ 6 ∷ []) ∷ []) ∷ [];
}

one_request : Reaches server_p.auth (running server_p conns_a) 1 after_a
unfolding advance read_request read_body read_full load_u16 store_u16 admit is_blocked sealed_by get
    lookup read_bits bits_area contains bytes_for_bits copy_bits copy_bits_loop offset put_bit
    is_set build_response build_exception_pdu accept_all spawn route classify
one_request = walk stay (record {
  place = 0;
  before = reading peer_a coil_frame [];
  after = reading peer_a [] ((0 ∷ 1 ∷ 0 ∷ 0 ∷ 0 ∷ 3 ∷ 1 ∷ 0x85 ∷ 6 ∷ []) ∷ []);
  chosen = refl;
  moved = refl;
  others = refl;
})
