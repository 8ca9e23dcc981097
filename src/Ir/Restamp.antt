-- ===== src/Ir/Restamp.antt =====
-- restamp.rs: relabelling an `Ir` as if other versions had decoded it. A map from the old ids of atoms to the new
-- ones is a list, the last entry first.
pub mod Status
pub mod Retold
pub mod Atoms
pub mod Refs
pub mod Rebuilt
use brygge.Prelude.{
  List, [], ◌∷◌, map, Option, none, some, Bytes, Result, ok, err, ok_or, if◌then◌else◌,
}
use brygge.Prelude.Utf8.{text_eq}
use brygge.Ir.Error.{Error, invariant}
use brygge.Ir.Content
use brygge.Ir.Content.{BlobId, ContentStore}
use brygge.Ir.Status.Derivation.{Derivation}
use brygge.Ir.Status.EpistemicStatus
use brygge.Ir.Status.EpistemicStatus.{EpistemicStatus}
use brygge.Ir.Model.AtomId.{AtomId}
use brygge.Ir.Model.PathOp
use brygge.Ir.Model.PathOp.{PathOp}
use brygge.Ir.Model.CopyRecord.{CopyRecord}
use brygge.Ir.Model.ChangeAtom.{ChangeAtom}
use brygge.Ir.Model.RefRecord.{RefRecord}
use brygge.Ir.Model.Flag.{Flag}
use brygge.Ir.Model.TransformRecord.{TransformRecord}
use brygge.Ir.Model.ImportProvenance.{ImportProvenance}
use brygge.Ir.Builder.{
  AtomDraft, IrBuilder, Built, new, add_blob, add_atom, add_ref, set_loss, add_flag, add_transform,
  finish,
}

infixl 5 ◌>>=◌
abbrev pub ◌>>=◌ : {A B : Type 0} → Result Error A → (A → Result Error B) → Result Error B
ok a >>= f = f a
err e >>= f = err e

abbrev pub IdMap : Type 0
IdMap = List (AtomId × AtomId)

unfoldable pub renamed : IdMap → AtomId → Option AtomId
renamed [] id = none
renamed ((k, v) ∷ id_map) id =
    let later = renamed id_map id in if text_eq k id then some v else later

unfoldable pub restamp_parents : IdMap → List AtomId → Result Error (List AtomId)
restamp_parents id_map [] = ok []
restamp_parents id_map (p ∷ parents) =
    ok_or (renamed id_map p)
      (invariant "atom names parent, not among this Ir's own atoms before it")
    >>= λ q. restamp_parents id_map parents >>= λ qs. ok (q ∷ qs)

module _ (decoder decoder_version : Bytes) where
  -- `if d.by == decoder { d.decoder_version = … }`
  unfoldable pub restamp_derivation : Derivation → Derivation
  restamp_derivation d =
      if text_eq d.by decoder then record d { decoder_version = decoder_version } else d

  unfoldable pub restamp_status : EpistemicStatus → EpistemicStatus
  restamp_status EpistemicStatus.stated = EpistemicStatus.stated
  restamp_status (EpistemicStatus.derived d) = EpistemicStatus.derived (restamp_derivation d)
  restamp_status (EpistemicStatus.transformed step changed prior) =
      EpistemicStatus.transformed step changed (restamp_status prior)

  unfoldable pub restamp_op : PathOp → PathOp
  restamp_op (PathOp.add path blob mode status) = PathOp.add path blob mode (restamp_status status)
  restamp_op (PathOp.modify path blob mode status) =
      PathOp.modify path blob mode (restamp_status status)
  restamp_op (PathOp.delete path status) = PathOp.delete path (restamp_status status)
  restamp_op (PathOp.replace path blob mode status) =
      PathOp.replace path blob mode (restamp_status status)

  unfoldable pub restamp_copy : IdMap → CopyRecord → Result Error CopyRecord
  restamp_copy id_map copy =
      ok_or (renamed id_map copy.from_atom)
        (invariant "copy names from_atom, not among this Ir's own atoms before it")
      >>= λ new_from_atom.
          ok (record copy { from_atom = new_from_atom; status = restamp_status copy.status })

  unfoldable pub restamp_copies : IdMap → List CopyRecord → Result Error (List CopyRecord)
  restamp_copies id_map [] = ok []
  restamp_copies id_map (copy ∷ copies) =
      restamp_copy id_map copy >>= λ c. restamp_copies id_map copies >>= λ cs. ok (c ∷ cs)

  -- The draft of an atom.
  unfoldable pub restamp_atom : IdMap → ChangeAtom → Result Error AtomDraft
  restamp_atom id_map a = restamp_parents id_map a.parents >>= λ new_parents.
      restamp_copies id_map a.copies >>= λ new_copies. ok (record {
        parents = new_parents;
        ops = map restamp_op a.ops;
        copies = new_copies;
        metadata = a.metadata;
        source = a.source;
        status = restamp_status a.status;
      })

  unfoldable pub restamp_ref : IdMap → RefRecord → Result Error RefRecord
  restamp_ref id_map r =
      ok_or (renamed id_map r.target) (invariant "ref targets atom, not among this Ir's own atoms")
      >>= λ new_target. ok (record r { target = new_target; status = restamp_status r.status })

  unfoldable pub add_refs : IdMap → List RefRecord → IrBuilder → Result Error IrBuilder
  add_refs id_map [] builder = ok builder
  add_refs id_map (r ∷ refs) builder =
      restamp_ref id_map r >>= λ s. add_ref builder s >>= λ next. add_refs id_map refs next

-- The provenance of the result.
abbrev pub restamp_provenance : Bytes → Bytes → ImportProvenance → ImportProvenance
restamp_provenance brygge_version decoder_version p = record p {
  brygge_version = brygge_version;
  decoder_version = decoder_version;
}

unfoldable pub add_flags : List Flag → IrBuilder → IrBuilder
add_flags [] builder = builder
add_flags (flag ∷ flags) builder = add_flags flags (add_flag builder flag)

unfoldable pub add_transforms : List TransformRecord → IrBuilder → IrBuilder
add_transforms [] builder = builder
add_transforms (t ∷ transforms) builder = add_transforms transforms (add_transform builder t).1

module _ (sha256 : Bytes → Bytes) where
  unfoldable pub add_blobs : List BlobId → ContentStore → IrBuilder → Result Error IrBuilder
  add_blobs [] content builder = ok builder
  add_blobs (id ∷ ids) content builder =
      ok_or (Content.get id content) (invariant "blob indexed in this Ir but not readable")
      >>= λ bytes. add_blobs ids content (add_blob sha256 builder bytes).1

module _ (sha256 : Bytes → Bytes) (decoder decoder_version : Bytes) where
  unfoldable pub add_atoms : IdMap → List ChangeAtom → IrBuilder → Result Error (IdMap × IrBuilder)
  add_atoms id_map [] builder = ok (id_map, builder)
  add_atoms id_map (a ∷ atoms) builder = restamp_atom decoder decoder_version id_map a >>= λ draft.
      add_atom sha256 builder draft >>= λ r. add_atoms ((a.id, r.0) ∷ id_map) atoms r.1

module _ (sha256 : Bytes → Bytes) where
  -- The builder that is finished.
  unfoldable pub rebuild : Built → Bytes → Bytes → Result Error IrBuilder
  rebuild t brygge_version decoder_version =
      let decoder = t.ir.provenance.decoder in
      add_blobs sha256 (Content.ids t.content) t.content
        (new (restamp_provenance brygge_version decoder_version t.ir.provenance))
      >>= λ with_blobs. add_atoms sha256 decoder decoder_version [] t.ir.atoms with_blobs >>= λ r.
          add_refs decoder decoder_version r.0 t.ir.refs r.1 >>= λ with_refs.
          ok (
            add_transforms t.ir.transforms (add_flags t.ir.flags (set_loss with_refs t.ir.dropped)))

  -- Ir::restamped
  unfoldable pub restamped : Built → Bytes → Bytes → Result Error Built
  restamped t brygge_version decoder_version =
      rebuild t brygge_version decoder_version >>= λ builder. finish builder
