-- ===== src/Raw/Loop/Spec.antt =====
-- What Run of internal/transport/raw/ingest_loop.go promises to a producer: a status byte for each
-- frame, 0 for every frame that was written, and the first other byte, or reply that fails, is the last.
use mma.Base.{ℕ, ◌+◌, ◌≡◌, Bool, true, false, none, some, List, [], ◌∷◌, ok, err}
use mma.Raw.Frame.{RawError, rejected, write_failed, RawFrame, read_frame}
use mma.Raw.Loop.{RawWritableMemory, MemoryResolver, apply_frame}

-- `Replies n w input sent w' e`: after `n` replies, on the memories `w`, the rest of the stream is
-- answered by these bytes, and the loop ends with the error `e` and the memories `w'`.
pub data Replies {W : Type 0} (resolver : MemoryResolver W) (max : ℕ) (writable : ℕ → Bool)
    : ℕ → W → List ℕ → List ℕ → W → RawError → Type 0 where
  -- No frame can be read.
  unread :
      (n : ℕ) (w : W) (input : List ℕ)
      → read_frame input max ≡ err rejected
      → Replies resolver max writable n w input (1 ∷ []) w rejected
  -- The frame names no memory.
  unknown :
      (n : ℕ) (w : W) (input : List ℕ) (f : RawFrame) (rest : List ℕ)
      → read_frame input max ≡ ok (f, rest)
      → resolver.resolve_memory_by_id f.header.unit_id ≡ none
      → Replies resolver max writable n w input (1 ∷ []) w rejected
  -- The memory refuses the values.
  refused :
      (n : ℕ) (w : W) (input : List ℕ) (f : RawFrame) (rest : List ℕ) (mem : RawWritableMemory W)
      (w' : W)
      → read_frame input max ≡ ok (f, rest)
      → resolver.resolve_memory_by_id f.header.unit_id ≡ some mem
      → apply_frame mem f w ≡ err w'
      → Replies resolver max writable n w input (1 ∷ []) w' rejected
  -- The frame is written, and the reply is sent.
  answered :
      (n : ℕ) (w : W) (input : List ℕ) (f : RawFrame) (rest : List ℕ) (mem : RawWritableMemory W)
      (w' : W) (sent : List ℕ) (w'' : W) (e : RawError)
      → read_frame input max ≡ ok (f, rest)
      → resolver.resolve_memory_by_id f.header.unit_id ≡ some mem
      → apply_frame mem f w ≡ ok w'
      → writable n ≡ true
      → Replies resolver max writable (n + 1) w' rest sent w'' e
      → Replies resolver max writable n w input (0 ∷ sent) w'' e
  -- The frame is written, and the reply fails.
  cut :
      (n : ℕ) (w : W) (input : List ℕ) (f : RawFrame) (rest : List ℕ) (mem : RawWritableMemory W)
      (w' : W)
      → read_frame input max ≡ ok (f, rest)
      → resolver.resolve_memory_by_id f.header.unit_id ≡ some mem
      → apply_frame mem f w ≡ ok w'
      → writable n ≡ false
      → Replies resolver max writable n w input (0 ∷ []) w' write_failed
