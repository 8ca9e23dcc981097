-- ===== src/Ir/Model.antt =====
-- crates/brygge-ir/src/model.rs: the IR types and their canonical records. A text is its UTF-8 bytes.
pub mod Checks
pub mod Text
pub mod Signature
pub mod Extra
pub mod Identity
pub mod Variants
pub mod SourceKind
pub mod RefKind
pub mod LossClass
pub mod FlagKind
pub mod Time
pub mod SourceIdentity
pub mod MetadataClaims
pub mod Annotation
pub mod ImportProvenance
pub mod AtomId
pub mod Grammar
pub mod CopyRecord
pub mod RefRecord
pub mod Flag
pub mod DropRecord
pub mod TransformRecord
pub mod PathOp
pub mod ChangeAtom
pub mod Metadata
