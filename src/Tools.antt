-- ===== src/Tools.antt =====
-- tools/raw_ingest_test.go: a producer of one raw-ingest packet. tools/raw_ingest_send.go has the same
-- code in a comment, and no other.
pub mod Produces
use mma.Base.{ℕ, Option, none, some, List, [], ◌∷◌, set, Outcome, ok, panic, ◌>>=◌}
use mma.Words.{store_u16}

-- The packet: register 10 of unit 1 is 0x1234.
unfoldable pub build_packet {κ} : {E : Type κ} → Outcome E (List ℕ)
unfolding store_u16
build_packet = do
  let made = 0 ∷ 0 ∷ 0 ∷ 0 ∷ 0 ∷ 0 ∷ 0 ∷ 0 ∷ 0 ∷ 0 ∷ 0 ∷ 0 ∷ []
  let headed = set (set (set (set made 0 b'R') 1 b'I') 2 0x01) 3 0x03
  with_unit ← store_u16 headed 4 1
  with_address ← store_u16 with_unit 6 10
  with_count ← store_u16 with_address 8 1
  store_u16 with_count 10 0x1234

-- The byte that is read back; `conn.Read` fails, and main panics, if the connection has none.
abbrev pub first_byte {κ} : {E : Type κ} → List ℕ → Outcome E ℕ
first_byte [] = panic
first_byte (resp ∷ more) = ok resp

-- `conn.Write` and what comes back: `none` if it fails.
abbrev pub write_to {κ} : {E : Type κ} → (List ℕ → Option (List ℕ)) → List ℕ → Outcome E (List ℕ)
write_to connection pkt = elim (connection pkt) [ none ↦ panic | some back ↦ ok back ]

-- The response that main prints, given the connection that `net.Dial` returns; each error panics.
unfoldable pub main {κ} : {E : Type κ} → Option (List ℕ → Option (List ℕ)) → Outcome E ℕ
unfolding build_packet
main none = panic
main (some connection) = do pkt ← build_packet; back ← write_to connection pkt; first_byte back
