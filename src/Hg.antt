-- ===== src/Hg.antt =====
-- crates/brygge-decode-hg: what a Mercurial repository publishes. The bytes of each file that the code reads
-- are arguments; the error type keeps the fixed words of a formatted message.
pub mod Util
pub mod Revlog
pub mod Revision
pub mod Answers
pub mod Chunks
pub mod Patch
pub mod Verified
pub mod Phases
pub mod Ancestry
pub mod Obsstore
pub mod Published
use brygge.Prelude.{ℕ, String, Result}

-- lib.rs
pub data Error : Type 0 where
  open_error : String → Error
  read : String → Error
  unsupported_format : String → String → Error
  floor_refusal : String → String → Error
  resource_limit : String → ℕ → Error

abbrev pub Answer : Type 0 → Type 0
Answer A = Result Error A
