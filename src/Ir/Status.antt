-- ===== src/Ir/Status.antt =====
-- crates/brygge-ir/src/status.rs: epistemic status and the derivation taxonomy.
pub mod DerivationKind
pub mod ChangedPart
pub mod Derivation
pub mod EpistemicStatus
