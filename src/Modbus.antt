-- ===== src/Modbus.antt =====
-- internal/transport/modbus: frames, PDUs, the dispatch to memory, and connections.
pub mod Wire
pub mod Decode
pub mod Encode
pub mod Dispatch
pub mod Conn
pub mod Spec
