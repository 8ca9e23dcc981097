-- ===== src/Ir.antt =====
-- crates/brygge-ir: the intermediate representation and its canonical encoding.
pub mod Error
pub mod Version
pub mod Canon
pub mod Status
pub mod Content
pub mod Builder
pub mod Restamp
pub mod Artifact
pub mod Model
