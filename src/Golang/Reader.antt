-- ===== src/Golang/Reader.antt =====
-- Go's package io over a connection. The reader is the list of bytes that the peer sends before it
-- closes; what is read is taken from the front.
use mma.Base.{ℕ, ◌==◌, leb, if◌then◌else◌, List, length, take, drop, Outcome, ok, err}

pub data IoError : Type 0 where
  eof unexpected_eof : IoError

-- `io.ReadFull` into a buffer of `n` bytes: no byte at all is EOF, too few is ErrUnexpectedEOF.
unfoldable pub read_full : ℕ → List ℕ → Outcome IoError (List ℕ × List ℕ)
read_full n r =
    if leb n (length r)
    then ok (take n r, drop n r)
    else if length r == 0
    then err eof
    else err unexpected_eof
