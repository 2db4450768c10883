-- ===== src/Raw/Writer.antt =====
-- internal/transport/raw/conn_writer.go, with the responses of constants.go. The io.Writer is a
-- function of the bytes written, which gives what its Write returns.
use mma.Base.{ℕ, List, [], ◌∷◌}

abbrev pub response_ok : ℕ
response_ok = 0x00

abbrev pub response_rejected : ℕ
response_rejected = 0x01

unfoldable pub write_ok {ℓ} : {A : Type ℓ} → (List ℕ → A) → A
write_ok write = write (response_ok ∷ [])

unfoldable pub write_rejected {ℓ} : {A : Type ℓ} → (List ℕ → A) → A
write_rejected write = write (response_rejected ∷ [])
