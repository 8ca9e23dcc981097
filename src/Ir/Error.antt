-- ===== src/Ir/Error.antt =====
-- crates/brygge-ir/src/lib.rs: what reading an artifact can fail with. A message that the source
-- formats keeps its fixed words and leaves out the values put into them.
use brygge.Prelude.{ℕ, String}

-- version.rs: the version that an artifact declares.
pub record ContractVersion : Type 0 where
  pub major : ℕ
  pub minor : ℕ
  pub patch : ℕ

pub data Error : Type 0 where
  decode : String → Error
  digest_mismatch : Error
  pre_release_artifact : Error
  unsupported_contract : ContractVersion → ContractVersion → Error
  unknown_critical_field : String → ℕ → Error
  non_canonical : String → Error
  invariant : String → Error
  io : String → Error
  artifact_changed : String → Error
