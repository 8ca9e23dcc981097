-- ===== src/Ir/Canon.antt =====
-- crates/brygge-ir/src/canon.rs: the canonical codec.
pub mod Writer
pub mod Reader
pub mod Reads
pub mod Varint
pub mod Minimal
pub mod Zigzag
pub mod Lists
pub mod Records
pub mod Unknown
