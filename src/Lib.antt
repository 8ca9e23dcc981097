-- ===== src/Lib.antt =====
-- A verification library for brygge, which decodes the history of a Git, Mercurial, Subversion or CVS
-- repository into one intermediate representation, the `Ir`, and writes it as a content-addressed artifact.
--
-- The library models the representation and its canonical encoding, the crate brygge-ir, and of the decoders
-- the reader of svndiff and Mercurial's revlog and published view:
-- * Ir/Canon is crates/brygge-ir/src/canon.rs. Writer has CanonWriter and RecordWriter: what an operation
--   appends is a list of bytes, and `in_turn` lists the calls of `RecordWriter::field` of one encoder.
--   Reader has CanonReader: the state is the part of the slice that is left, the count of the bytes
--   consumed and the count of the fields skipped; `?` is the bind of the monad `Read`. A closure given to
--   `record_fields` is a `Handler`, which gets and returns the variables that the closure sets. Reads says
--   what it is for a reader to undo a writer; Varint, Minimal, Zigzag, Lists, Records and Unknown hold what
--   is proved of numbers, lists, maps and records.
-- * Ir/Status is crates/brygge-ir/src/status.rs, and ChangedPart of model.rs.
-- * Ir/Model is crates/brygge-ir/src/model.rs, a module per type: the type, `encode`, the handler of its
--   fields, `decode`, and `IsWf`, what a value that the encoder may be given fulfils. Metadata has `Ir`
--   itself; what ChangeAtom and Metadata are proved of stands in their RoundTrip.
-- * Ir/Version is the read gate of crates/brygge-ir/src/version.rs, and Ir/Error the error type of lib.rs.
-- * Svn/Svndiff is crates/brygge-decode-svn/src/svndiff.rs, the reader of Subversion's deltas. A cursor is
--   the bytes that are left. Outcome says that a run ends in a value with a property or in an error of the
--   code; Cursor, Window and Apply go up from the cursor to the whole delta, and Literal runs one.
-- * Ir/Content is the store in memory of crates/brygge-ir/src/content.rs, a list of ids and blobs in the order
--   of the ids.
-- * Ir/Builder is crates/brygge-ir/src/builder.rs: `IrBuilder` is a record, an operation gives the next one.
--   Order has `canonical_order_ids` and `topo_order`, Sorting `sort_by` and the scan for equal neighbours.
--   Sorted and Keys hold the lemmas on sorting and on the orders of the keys; Finished is about `add_atom` and
--   `finish`, and Steps about the states that a sequence of calls leads to.
-- * Ir/Restamp is crates/brygge-ir/src/restamp.rs, which rebuilds an `Ir` through the builder. Status is about
--   `restamp_status`, Retold says how new atoms and refs stand to the old ones, Atoms and Refs follow the calls
--   of the builder, and Rebuilt puts them together.
-- * Ir/Artifact/Frame is crates/brygge-ir/src/artifact/frame.rs without the compression, and Plan is about its
--   packing plans. Ir/Artifact/Structure is `check_structure` of crates/brygge-ir/src/artifact.rs with what it
--   calls; Vocabulary lists the parts that a transform may name, Chain is about the chain of transforms, Sound
--   about the whole check.
-- * Hg/Revlog and Hg/Revision are crates/brygge-decode-hg/src/revlog.rs: the index, and the text of a revision.
--   Chunks, Patch and Verified are about where chunks lie, what a delta does, and what a returned text is.
-- * Hg/Phases and Hg/Published are phases.rs and published.rs of the same crate. Ancestry has the relations of
--   parent and ancestor that Roots, Visible and Closed use. Hg/Obsstore is obsstore.rs, with
--   what a parsed store is made of in Tiled. Hg/Util is util.rs.
--
-- Prelude has what the parts share: tests on numbers, bytes, texts as UTF-8 with their order, results, and
-- the digits of the bit operations. Tests has concrete values and runs.
--
-- Numbers are natural numbers; a u64 is one below 2 ^ 64 and keeps its wrap-around written out, and an i64
-- or i16 is its two's complement pattern. A text is its bytes; a digest is 32 of them. `Fits` says that an
-- encoding is shorter than 2 ^ 64 bytes, as on a machine with a 64-bit usize it is; without it a length
-- would not be a u64. The loop of `uvarint_value` has ten rounds as fuel, which 64 bits never use up. A
-- loop over a delta's windows or instructions has the length of what it reads as fuel, since a round takes
-- a byte at least; `no_fuel` would say that it was not enough. A chain of transforms is read at most 64
-- levels deep, as the source has it, which is the argument of `decode_levels`. An inline index and a delta of
-- Mercurial have their length as fuel, since an entry takes 64 bytes and a hunk 12; the base chain of a
-- revision goes down, so it has the revision and one more. `canonical_order_ids` gets one round more than there
-- are atoms, as it refuses a longer order anyway.
--
-- SHA-256 is not part of the repository: `sha256` is a parameter of all that computes the id of an atom or a
-- blob, and nothing is assumed of it. Of zlib, zstd and the collision-detecting SHA-1, the record `Libraries` has
-- what the revlog uses, and nothing is assumed either. A revlog promises that parents come before their children,
-- which its parser does not check: `ParentsFirst` is that promise. An error keeps the fixed words of its message,
-- without the values formatted in.
--
-- Not modelled: the container around the metadata section with its header, blob table, compression and digest;
-- the transforms, the honesty checks; the content stores that are backed by files; the text parsers
-- of Mercurial's small files, whose results are arguments, as are the nodes of its obsolescence store; the rest of the decoders,
-- which are mostly readers of foreign formats; the command line.
pub mod Prelude
pub mod Ir
pub mod Svn
pub mod Tests
pub mod Hg
