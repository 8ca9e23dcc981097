-- ===== src/Svn.antt =====
-- crates/brygge-decode-svn: the Subversion decoder.
pub mod Svndiff
