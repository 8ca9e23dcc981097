-- ===== src/Tests.antt =====
-- Concrete values on which the definitions are run and the theorems applied.
mod Sample
mod WellFormed
mod Model
mod Codec
mod Svn
mod Hg
mod Obsstore
mod Restamp
mod Builder
mod Artifact
