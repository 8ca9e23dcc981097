-- ===== src/Ir/Builder.antt =====
-- builder.rs: the one way to construct an `Ir`. The hash that names blobs and atoms is a parameter.
pub mod Sorting
pub mod Sorted
pub mod Order
pub mod Keys
pub mod Finished
pub mod Steps
use brygge.Prelude.{
  ℕ, zero, suc, Bool, true, false, ◌&&◌, ◌||◌, not, List, [], ◌∷◌, ◌++◌, Option, none, some, Bytes,
}
use brygge.Prelude.{length, leb, ltb, ◌==◌, if◌then◌else◌, Result, ok, err, replicate}
use brygge.Prelude.Utf8.{text_eq, text_ltb}
use brygge.Ir.Error.{Error, invariant}
use brygge.Ir.Content
use brygge.Ir.Content.{BlobId, ContentStore}
use brygge.Ir.Model.AtomId.{AtomId}
use brygge.Ir.Model.PathOp
use brygge.Ir.Model.PathOp.{PathOp}
use brygge.Ir.Model.CopyRecord.{CopyRecord}
use brygge.Ir.Model.MetadataClaims.{MetadataClaims}
use brygge.Ir.Model.SourceIdentity.{SourceIdentity}
use brygge.Ir.Model.ChangeAtom.{ChangeAtom, less_path, less_copy, compute_id}
use brygge.Ir.Model.RefKind
use brygge.Ir.Model.RefRecord.{RefRecord}
use brygge.Ir.Model.LossClass
use brygge.Ir.Model.DropRecord.{DropRecord}
use brygge.Ir.Model.FlagKind
use brygge.Ir.Model.Flag.{Flag}
use brygge.Ir.Model.TransformRecord.{TransformRecord}
use brygge.Ir.Model.ImportProvenance.{ImportProvenance}
use brygge.Ir.Model.Metadata.{Ir, less_ref, less_drop, less_flag, option_eq}
use brygge.Ir.Status.EpistemicStatus.{EpistemicStatus}
use brygge.Ir.Builder.Sorting.{sort_by, repeats}
use brygge.Ir.Builder.Order.{topo_order}

pub record AtomDraft : Type 0 where
  pub parents : List AtomId
  pub ops : List PathOp
  pub copies : List CopyRecord
  pub metadata : MetadataClaims
  pub source : SourceIdentity
  pub status : EpistemicStatus

-- `dropped` is the one field of the loss boundary.
pub record IrBuilder : Type 0 where
  pub content : ContentStore
  pub atoms : List ChangeAtom
  pub known : List AtomId
  pub refs : List RefRecord
  pub provenance : ImportProvenance
  pub dropped : List DropRecord
  pub flags : List Flag
  pub transforms : List TransformRecord

-- The `Ir` and its content store.
pub record Built : Type 0 where
  pub ir : Ir
  pub content : ContentStore

-- IrBuilder::new
abbrev pub new : ImportProvenance → IrBuilder
new from = record {
  content = [];
  atoms = [];
  known = [];
  refs = [];
  provenance = from;
  dropped = [];
  flags = [];
  transforms = [];
}

unfoldable pub knows : List AtomId → AtomId → Bool
knows [] id = false
knows (k ∷ known) id = let rest = knows known id in if text_eq k id then true else rest

unfoldable pub same_path : PathOp → PathOp → Bool
same_path a b = text_eq (PathOp.path a) (PathOp.path b)

-- The first copy that names an atom that was not added.
unfoldable pub copies_known : List AtomId → List CopyRecord → Bool
copies_known known [] = true
copies_known known (c ∷ copies) = knows known c.from_atom && copies_known known copies

-- `(&a.name, a.kind.variant()) == (&b.name, b.kind.variant())`, and the same for drops and flags.
unfoldable pub same_ref : RefRecord → RefRecord → Bool
same_ref a b = text_eq a.name b.name && RefKind.variant a.kind == RefKind.variant b.kind

unfoldable pub same_drop : DropRecord → DropRecord → Bool
same_drop a b =
    LossClass.variant a.class == LossClass.variant b.class
    && (option_eq a.step b.step && text_eq a.what b.what)

unfoldable pub same_flag : Flag → Flag → Bool
same_flag a b = FlagKind.variant a.kind == FlagKind.variant b.kind && text_eq a.what b.what

-- The blobs that the operations of the atoms name.
unfoldable pub op_blobs : List PathOp → List BlobId
op_blobs [] = []
op_blobs (PathOp.add path blob mode _ ∷ ops) = blob ∷ op_blobs ops
op_blobs (PathOp.modify path blob mode _ ∷ ops) = blob ∷ op_blobs ops
op_blobs (PathOp.replace path blob mode _ ∷ ops) = blob ∷ op_blobs ops
op_blobs (PathOp.delete path _ ∷ ops) = op_blobs ops

unfoldable pub referenced : List ChangeAtom → List BlobId
referenced [] = []
referenced (a ∷ atoms) = op_blobs a.ops ++ referenced atoms

-- IrBuilder::add_ref
unfoldable pub add_ref : IrBuilder → RefRecord → Result Error IrBuilder
add_ref b r =
    if knows b.known r.target
    then ok (record b { refs = b.refs ++ r ∷ [] })
    else err (invariant "ref targets unknown atom")

-- IrBuilder::set_loss, add_flag and add_transform
abbrev pub set_loss : IrBuilder → List DropRecord → IrBuilder
set_loss b loss = record b { dropped = loss }

abbrev pub add_flag : IrBuilder → Flag → IrBuilder
add_flag b flag = record b { flags = b.flags ++ flag ∷ [] }

abbrev pub add_transform : IrBuilder → TransformRecord → ℕ × IrBuilder
add_transform b step = (length b.transforms, record b { transforms = b.transforms ++ step ∷ [] })

-- IrBuilder::finish, behind the order of the atoms.
unfoldable pub assemble : IrBuilder → List ChangeAtom → Result Error Built
assemble b ordered =
    let sorted_refs = sort_by less_ref b.refs in
    let sorted_drops = sort_by less_drop b.dropped in
    let sorted_flags = sort_by less_flag b.flags in
    if repeats less_ref same_ref sorted_refs
    then err (invariant "two refs of one kind")
    else if ltb 64 (length b.transforms)
    then err (invariant "more than 64 transform records")
    else if repeats less_drop same_drop sorted_drops
    then err (invariant "two drops of one class/step with the same `what`")
    else if repeats less_flag same_flag sorted_flags
    then err (invariant "two flags of one kind with the same `what`")
    else ok (record {
      ir = record {
        atoms = ordered;
        refs = sorted_refs;
        provenance = b.provenance;
        dropped = sorted_drops;
        flags = sorted_flags;
        transforms = b.transforms;
      };
      content = Content.retain (knows (referenced ordered)) b.content;
    })

unfoldable pub finish_ordered : IrBuilder → Option (List ChangeAtom) → Result Error Built
finish_ordered b none =
    err (invariant "atom graph contains a cycle (source history must be acyclic)")
finish_ordered b (some ordered) = assemble b ordered

-- IrBuilder::finish
unfoldable pub finish : IrBuilder → Result Error Built
finish b = finish_ordered b (topo_order b.atoms)

module _ (sha256 : Bytes → Bytes) where
  -- IrBuilder::add_blob
  abbrev pub add_blob : IrBuilder → Bytes → BlobId × IrBuilder
  add_blob b bytes =
      let inserted = Content.insert sha256 bytes b.content in
      (inserted.0, record b { content = inserted.1 })

  -- The atom of a draft whose operations and copies are in order.
  unfoldable pub atom_of : AtomDraft → List PathOp → List CopyRecord → ChangeAtom
  atom_of draft sorted_ops sorted_copies =
      let blank : ChangeAtom = record {
        id = replicate 32 0;
        parents = draft.parents;
        ops = sorted_ops;
        copies = sorted_copies;
        metadata = draft.metadata;
        source = draft.source;
        status = draft.status;
      } in
      record blank { id = compute_id sha256 blank }

  -- IrBuilder::add_atom
  unfoldable pub add_atom : IrBuilder → AtomDraft → Result Error (AtomId × IrBuilder)
  add_atom b draft =
      let sorted_ops = sort_by less_path draft.ops in
      let sorted_copies = sort_by less_copy draft.copies in
      let atom = atom_of draft sorted_ops sorted_copies in
      if repeats less_path same_path sorted_ops
      then err (invariant "two ops on one path in one atom")
      else if copies_known b.known sorted_copies
      then ok (atom.id, record b { atoms = b.atoms ++ atom ∷ []; known = atom.id ∷ b.known })
      else err (invariant "copy names from_atom which was not already added")
