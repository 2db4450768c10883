-- ===== src/Golang.antt =====
-- What the program uses of Go's standard library: texts, addresses and readers.
pub mod Strings
pub mod Text
pub mod Netip
pub mod Reader
pub mod Sets
