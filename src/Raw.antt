-- ===== src/Raw.antt =====
-- internal/transport/raw: the older loop for raw ingest, which works on memories behind an interface
-- (types.go); memory_adapter.go and resolver.go implement the interface on a runtime memory.
pub mod Frame
pub mod Align
pub mod Loop
pub mod Sizing
pub mod Adapter
pub mod Writer
