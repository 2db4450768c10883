-- ===== src/Ingress.antt =====
-- internal/ingress: classifier.go, and the dispatch of listener.go. `Peek` leaves the bytes in the
-- buffered reader, from which the handlers read on.
use mma.Base.{
  ℕ, ◌==◌, ◌&&◌, leb, if◌then◌else◌, List, length, get_or, Outcome, ok, err, panic, Option, none,
  some,
}
use mma.Golang.Reader.{IoError, eof}

pub data Protocol : Type 0 where
  unknown modbus raw_ingest : Protocol

-- The protocol, and the bytes that the returned reader still has.
unfoldable pub classify : List ℕ → Outcome IoError (Protocol × List ℕ)
classify reader =
    if leb 2 (length reader)
    then if get_or reader 0 0 == b'R' && get_or reader 1 0 == b'I'
      then ok (raw_ingest, reader)
      else ok (modbus, reader)
    else err eof

-- What handleConn does with a connection: `none` closes it.
unfoldable pub route {ℓ} : {A : Type ℓ} → (List ℕ → A) → (List ℕ → A) → List ℕ → Option A
route on_modbus on_raw_ingest input = elim (classify input) [
  | err e ↦ none
  | panic ↦ none
  | ok (modbus, bc) ↦ some (on_modbus bc)
  | ok (raw_ingest, bc) ↦ some (on_raw_ingest bc)
  | ok (unknown, bc) ↦ none
]
