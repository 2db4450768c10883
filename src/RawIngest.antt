-- ===== src/RawIngest.antt =====
-- internal/transport/rawingest: packets and connections of the raw ingest protocol.
pub mod Decoder
pub mod Conn
pub mod Spec
