-- ===== src/Memorycore.antt =====
-- internal/memorycore: areas, layouts, packed bits, memories and the store.
pub mod Errors
pub mod Area
pub mod Layout
pub mod Bits
pub mod Memory
pub mod Store
pub mod Units
