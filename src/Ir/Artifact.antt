-- ===== src/Ir/Artifact.antt =====
-- crates/brygge-ir/src/artifact.rs and artifact/frame.rs: the parts of the container that are a function of their
-- arguments.
pub mod Frame
pub mod Plan
pub mod Structure
