-- ===== src/Tests/WellFormed.antt =====
-- The values of the sample are well formed, and their encodings fit the machine.
use brygge.Prelude.{◌<◌, ◌≤◌, ◌^◌, ◌≡◌, refl, sym, true, arith}
use brygge.Prelude.{some, length, ltb→lt}
use brygge.Prelude.Utf8.{is_utf8, text_ltb, text_eq, codes}
use brygge.Ir.Canon.Writer.{
  record_bytes, fields_bytes, field_bytes, field, tag, list_value, concat, map_value, entries_bytes,
  entry_bytes, uvarint_value, put_uvarint, svarint_value, zigzag,
}
use brygge.Ir.Canon.Lists.{Fits}
use brygge.Ir.Canon.Reader.{ascends}
use brygge.Ir.Model.Checks.{ascending}
use brygge.Ir.Model.Text
use brygge.Ir.Model.Time
use brygge.Ir.Model.Identity
use brygge.Ir.Model.MetadataClaims
use brygge.Ir.Model.Signature
use brygge.Ir.Model.Extra
use brygge.Ir.Model.SourceKind
use brygge.Ir.Model.SourceIdentity
use brygge.Ir.Model.PathOp
use brygge.Ir.Model.CopyRecord
use brygge.Ir.Model.ChangeAtom
use brygge.Ir.Model.RefKind
use brygge.Ir.Model.Annotation
use brygge.Ir.Model.RefRecord
use brygge.Ir.Model.ImportProvenance
use brygge.Ir.Model.LossClass
use brygge.Ir.Model.DropRecord
use brygge.Ir.Model.FlagKind
use brygge.Ir.Model.Flag
use brygge.Ir.Model.TransformRecord
use brygge.Ir.Model.Metadata
use brygge.Ir.Status.Derivation
use brygge.Ir.Status.DerivationKind
use brygge.Ir.Status.EpistemicStatus
use brygge.Ir.Status.ChangedPart.{as_str, text_item}
use brygge.Ir.Model.Metadata.{less_ref, less_drop, less_flag}
use brygge.Ir.Model.Grammar.{
  is_valid_transform_drop_what, is_valid_transform_name, strip_prefix, split_once, every, is_digit,
}
use brygge.Tests.Sample.{
  constant_hash, latin_text, two_hours_west, someone, claims, git_source, inferred, twice_changed,
  add_file, copied, one_atom, signed_off, main_branch, imported, left_out, flagged, redaction,
  small_ir,
}

pub some_holds : {A : Type 0} (P : A → Type 0) {a : A} → P a → (x : A) → some a ≡ some x → P x
some_holds P {a} h x q = let e : a ≡ x = cc q in rw (sym e) h

delete-IsWf : PathOp.IsWf (PathOp.delete (codes "b") EpistemicStatus.stated)
unfolding is_utf8 PathOp.path PathOp.op_status PathOp.blob_of PathOp.mode_of EpistemicStatus.depth
delete-IsWf = record {
  path = refl;
  blob = λ b q. ground arith;
  mode = λ m q. ground arith;
  status = record { steps = tt; levels = omega arith };
}

pub text-IsWf : Text.IsWf latin_text
unfolding ascends ascending is_utf8 text_ltb text_eq
text-IsWf = record { encoding = λ e q. some_holds (λ e. is_utf8 e ≡ true) refl e q }

pub text-Fits : Fits (Text.encode latin_text)
unfolding record_bytes fields_bytes field_bytes field tag list_value concat map_value entries_bytes
    entry_bytes uvarint_value put_uvarint svarint_value zigzag Text.encode Time.encode
    Identity.encode MetadataClaims.encode Signature.encode Extra.encode SourceKind.encode
    SourceIdentity.encode PathOp.encode CopyRecord.encode ChangeAtom.encode RefKind.encode
    Annotation.encode RefRecord.encode ImportProvenance.encode LossClass.encode DropRecord.encode
    FlagKind.encode Flag.encode TransformRecord.encode Derivation.encode DerivationKind.encode
    EpistemicStatus.encode ChangeAtom.body ChangeAtom.metadata_field ChangeAtom.is_empty
    PathOp.fields_of Time.i64_of_i16 as_str text_item LossClass.variant RefKind.variant
    Metadata.encode_metadata
text-Fits = ltb→lt (length (Text.encode latin_text)) (2 ^ 64) refl

pub time-IsWf : Time.IsWf two_hours_west
unfolding ascends ascending is_utf8 text_ltb text_eq
time-IsWf = record {
  seconds = omega arith;
  offset_minutes = λ x q. some_holds (λ x. x < 2 ^ 16) (omega arith) x q;
}

pub time-Fits : Fits (Time.encode two_hours_west)
unfolding record_bytes fields_bytes field_bytes field tag list_value concat map_value entries_bytes
    entry_bytes uvarint_value put_uvarint svarint_value zigzag Text.encode Time.encode
    Identity.encode MetadataClaims.encode Signature.encode Extra.encode SourceKind.encode
    SourceIdentity.encode PathOp.encode CopyRecord.encode ChangeAtom.encode RefKind.encode
    Annotation.encode RefRecord.encode ImportProvenance.encode LossClass.encode DropRecord.encode
    FlagKind.encode Flag.encode TransformRecord.encode Derivation.encode DerivationKind.encode
    EpistemicStatus.encode ChangeAtom.body ChangeAtom.metadata_field ChangeAtom.is_empty
    PathOp.fields_of Time.i64_of_i16 as_str text_item LossClass.variant RefKind.variant
    Metadata.encode_metadata
time-Fits = ltb→lt (length (Time.encode two_hours_west)) (2 ^ 64) refl

pub identity-IsWf : Identity.IsWf someone
unfolding ascends ascending is_utf8 text_ltb text_eq
identity-IsWf = record { name = text-IsWf; email = λ x q. some_holds Text.IsWf text-IsWf x q }

pub identity-Fits : Fits (Identity.encode someone)
unfolding record_bytes fields_bytes field_bytes field tag list_value concat map_value entries_bytes
    entry_bytes uvarint_value put_uvarint svarint_value zigzag Text.encode Time.encode
    Identity.encode MetadataClaims.encode Signature.encode Extra.encode SourceKind.encode
    SourceIdentity.encode PathOp.encode CopyRecord.encode ChangeAtom.encode RefKind.encode
    Annotation.encode RefRecord.encode ImportProvenance.encode LossClass.encode DropRecord.encode
    FlagKind.encode Flag.encode TransformRecord.encode Derivation.encode DerivationKind.encode
    EpistemicStatus.encode ChangeAtom.body ChangeAtom.metadata_field ChangeAtom.is_empty
    PathOp.fields_of Time.i64_of_i16 as_str text_item LossClass.variant RefKind.variant
    Metadata.encode_metadata
identity-Fits = ltb→lt (length (Identity.encode someone)) (2 ^ 64) refl

pub metadata_claims-IsWf : MetadataClaims.IsWf claims
unfolding ascends ascending is_utf8 text_ltb text_eq
metadata_claims-IsWf = record {
  author = λ x q. some_holds Identity.IsWf identity-IsWf x q;
  author_time = λ x q. some_holds Time.IsWf time-IsWf x q;
  committer = λ x q. some_holds Identity.IsWf identity-IsWf x q;
  commit_time = λ x q. some_holds Time.IsWf time-IsWf x q;
  message = λ x q. some_holds Text.IsWf text-IsWf x q;
}

pub metadata_claims-Fits : Fits (MetadataClaims.encode claims)
unfolding record_bytes fields_bytes field_bytes field tag list_value concat map_value entries_bytes
    entry_bytes uvarint_value put_uvarint svarint_value zigzag Text.encode Time.encode
    Identity.encode MetadataClaims.encode Signature.encode Extra.encode SourceKind.encode
    SourceIdentity.encode PathOp.encode CopyRecord.encode ChangeAtom.encode RefKind.encode
    Annotation.encode RefRecord.encode ImportProvenance.encode LossClass.encode DropRecord.encode
    FlagKind.encode Flag.encode TransformRecord.encode Derivation.encode DerivationKind.encode
    EpistemicStatus.encode ChangeAtom.body ChangeAtom.metadata_field ChangeAtom.is_empty
    PathOp.fields_of Time.i64_of_i16 as_str text_item LossClass.variant RefKind.variant
    Metadata.encode_metadata
metadata_claims-Fits = ltb→lt (length (MetadataClaims.encode claims)) (2 ^ 64) refl

pub source_identity-IsWf : SourceIdentity.IsWf git_source
unfolding ascends ascending is_utf8 text_ltb text_eq
source_identity-IsWf = record {
  kind = tt;
  signatures = (record { label = refl }, tt);
  signatures_length = omega arith;
  extras = (record { label = refl }, tt);
  extras_length = omega arith;
}

pub source_identity-Fits : Fits (SourceIdentity.encode git_source)
unfolding record_bytes fields_bytes field_bytes field tag list_value concat map_value entries_bytes
    entry_bytes uvarint_value put_uvarint svarint_value zigzag Text.encode Time.encode
    Identity.encode MetadataClaims.encode Signature.encode Extra.encode SourceKind.encode
    SourceIdentity.encode PathOp.encode CopyRecord.encode ChangeAtom.encode RefKind.encode
    Annotation.encode RefRecord.encode ImportProvenance.encode LossClass.encode DropRecord.encode
    FlagKind.encode Flag.encode TransformRecord.encode Derivation.encode DerivationKind.encode
    EpistemicStatus.encode ChangeAtom.body ChangeAtom.metadata_field ChangeAtom.is_empty
    PathOp.fields_of Time.i64_of_i16 as_str text_item LossClass.variant RefKind.variant
    Metadata.encode_metadata
source_identity-Fits = ltb→lt (length (SourceIdentity.encode git_source)) (2 ^ 64) refl

pub derivation-IsWf : Derivation.IsWf inferred
unfolding ascends ascending is_utf8 text_ltb text_eq
derivation-IsWf = record {
  kind = tt;
  by = refl;
  decoder_version = refl;
  params = (refl, refl, refl, (refl, refl, refl, tt));
  params_length = omega arith;
  confidence = λ x q. some_holds (λ x. x ≤ 100) (omega arith) x q;
}

pub derivation-Fits : Fits (Derivation.encode inferred)
unfolding record_bytes fields_bytes field_bytes field tag list_value concat map_value entries_bytes
    entry_bytes uvarint_value put_uvarint svarint_value zigzag Text.encode Time.encode
    Identity.encode MetadataClaims.encode Signature.encode Extra.encode SourceKind.encode
    SourceIdentity.encode PathOp.encode CopyRecord.encode ChangeAtom.encode RefKind.encode
    Annotation.encode RefRecord.encode ImportProvenance.encode LossClass.encode DropRecord.encode
    FlagKind.encode Flag.encode TransformRecord.encode Derivation.encode DerivationKind.encode
    EpistemicStatus.encode ChangeAtom.body ChangeAtom.metadata_field ChangeAtom.is_empty
    PathOp.fields_of Time.i64_of_i16 as_str text_item LossClass.variant RefKind.variant
    Metadata.encode_metadata
derivation-Fits = ltb→lt (length (Derivation.encode inferred)) (2 ^ 64) refl

pub epistemic_status-IsWf : EpistemicStatus.IsWf twice_changed
unfolding ascends ascending is_utf8 text_ltb text_eq as_str EpistemicStatus.less_part
    EpistemicStatus.steps_fall EpistemicStatus.depth
epistemic_status-IsWf = record {
  steps = (
    omega arith,
    (λ q. ground arith),
    omega arith,
    refl,
    refl,
    (omega arith, (λ q. ground arith), omega arith, refl, refl, derivation-IsWf),
  );
  levels = omega arith;
}

pub epistemic_status-Fits : Fits (EpistemicStatus.encode twice_changed)
unfolding record_bytes fields_bytes field_bytes field tag list_value concat map_value entries_bytes
    entry_bytes uvarint_value put_uvarint svarint_value zigzag Text.encode Time.encode
    Identity.encode MetadataClaims.encode Signature.encode Extra.encode SourceKind.encode
    SourceIdentity.encode PathOp.encode CopyRecord.encode ChangeAtom.encode RefKind.encode
    Annotation.encode RefRecord.encode ImportProvenance.encode LossClass.encode DropRecord.encode
    FlagKind.encode Flag.encode TransformRecord.encode Derivation.encode DerivationKind.encode
    EpistemicStatus.encode ChangeAtom.body ChangeAtom.metadata_field ChangeAtom.is_empty
    PathOp.fields_of Time.i64_of_i16 as_str text_item LossClass.variant RefKind.variant
    Metadata.encode_metadata
epistemic_status-Fits = ltb→lt (length (EpistemicStatus.encode twice_changed)) (2 ^ 64) refl

pub path_op-IsWf : PathOp.IsWf add_file
unfolding ascends ascending is_utf8 text_ltb text_eq PathOp.path PathOp.op_status PathOp.blob_of
    PathOp.mode_of
path_op-IsWf = record {
  path = refl;
  blob = λ b q. some_holds (λ b. length b ≡ 32) refl b q;
  mode = λ m q. some_holds (λ m. m < 2 ^ 32) (omega arith) m q;
  status = epistemic_status-IsWf;
}

pub path_op-Fits : Fits (PathOp.encode add_file)
unfolding record_bytes fields_bytes field_bytes field tag list_value concat map_value entries_bytes
    entry_bytes uvarint_value put_uvarint svarint_value zigzag Text.encode Time.encode
    Identity.encode MetadataClaims.encode Signature.encode Extra.encode SourceKind.encode
    SourceIdentity.encode PathOp.encode CopyRecord.encode ChangeAtom.encode RefKind.encode
    Annotation.encode RefRecord.encode ImportProvenance.encode LossClass.encode DropRecord.encode
    FlagKind.encode Flag.encode TransformRecord.encode Derivation.encode DerivationKind.encode
    EpistemicStatus.encode ChangeAtom.body ChangeAtom.metadata_field ChangeAtom.is_empty
    PathOp.fields_of Time.i64_of_i16 as_str text_item LossClass.variant RefKind.variant
    Metadata.encode_metadata
path_op-Fits = ltb→lt (length (PathOp.encode add_file)) (2 ^ 64) refl

pub copy_record-IsWf : CopyRecord.IsWf copied
unfolding ascends ascending is_utf8 text_ltb text_eq EpistemicStatus.depth
copy_record-IsWf = record {
  from = refl;
  from_atom = refl;
  to = refl;
  status = record { steps = derivation-IsWf; levels = omega arith };
}

pub copy_record-Fits : Fits (CopyRecord.encode copied)
unfolding record_bytes fields_bytes field_bytes field tag list_value concat map_value entries_bytes
    entry_bytes uvarint_value put_uvarint svarint_value zigzag Text.encode Time.encode
    Identity.encode MetadataClaims.encode Signature.encode Extra.encode SourceKind.encode
    SourceIdentity.encode PathOp.encode CopyRecord.encode ChangeAtom.encode RefKind.encode
    Annotation.encode RefRecord.encode ImportProvenance.encode LossClass.encode DropRecord.encode
    FlagKind.encode Flag.encode TransformRecord.encode Derivation.encode DerivationKind.encode
    EpistemicStatus.encode ChangeAtom.body ChangeAtom.metadata_field ChangeAtom.is_empty
    PathOp.fields_of Time.i64_of_i16 as_str text_item LossClass.variant RefKind.variant
    Metadata.encode_metadata
copy_record-Fits = ltb→lt (length (CopyRecord.encode copied)) (2 ^ 64) refl

pub change_atom-IsWf : ChangeAtom.IsWf constant_hash one_atom
unfolding ascends ascending is_utf8 text_ltb text_eq ChangeAtom.compute_id ChangeAtom.less_path
    ChangeAtom.less_copy PathOp.path EpistemicStatus.depth
change_atom-IsWf = record {
  id = refl;
  id_length = refl;
  parents = (refl, tt);
  parents_length = omega arith;
  ops = (path_op-IsWf, (delete-IsWf, tt));
  ops_length = omega arith;
  ops_ascend = refl;
  copies = (copy_record-IsWf, tt);
  copies_length = omega arith;
  copies_ascend = refl;
  metadata = metadata_claims-IsWf;
  source = source_identity-IsWf;
  status = record { steps = tt; levels = omega arith };
}

pub change_atom-Fits : Fits (ChangeAtom.encode one_atom)
unfolding record_bytes fields_bytes field_bytes field tag list_value concat map_value entries_bytes
    entry_bytes uvarint_value put_uvarint svarint_value zigzag Text.encode Time.encode
    Identity.encode MetadataClaims.encode Signature.encode Extra.encode SourceKind.encode
    SourceIdentity.encode PathOp.encode CopyRecord.encode ChangeAtom.encode RefKind.encode
    Annotation.encode RefRecord.encode ImportProvenance.encode LossClass.encode DropRecord.encode
    FlagKind.encode Flag.encode TransformRecord.encode Derivation.encode DerivationKind.encode
    EpistemicStatus.encode ChangeAtom.body ChangeAtom.metadata_field ChangeAtom.is_empty
    PathOp.fields_of Time.i64_of_i16 as_str text_item LossClass.variant RefKind.variant
    Metadata.encode_metadata
change_atom-Fits = ltb→lt (length (ChangeAtom.encode one_atom)) (2 ^ 64) refl

pub annotation-IsWf : Annotation.IsWf signed_off
unfolding ascends ascending is_utf8 text_ltb text_eq
annotation-IsWf = record {
  tagger = λ x q. some_holds Identity.IsWf identity-IsWf x q;
  time = λ x q. some_holds Time.IsWf time-IsWf x q;
  message = λ x q. some_holds Text.IsWf text-IsWf x q;
}

pub annotation-Fits : Fits (Annotation.encode signed_off)
unfolding record_bytes fields_bytes field_bytes field tag list_value concat map_value entries_bytes
    entry_bytes uvarint_value put_uvarint svarint_value zigzag Text.encode Time.encode
    Identity.encode MetadataClaims.encode Signature.encode Extra.encode SourceKind.encode
    SourceIdentity.encode PathOp.encode CopyRecord.encode ChangeAtom.encode RefKind.encode
    Annotation.encode RefRecord.encode ImportProvenance.encode LossClass.encode DropRecord.encode
    FlagKind.encode Flag.encode TransformRecord.encode Derivation.encode DerivationKind.encode
    EpistemicStatus.encode ChangeAtom.body ChangeAtom.metadata_field ChangeAtom.is_empty
    PathOp.fields_of Time.i64_of_i16 as_str text_item LossClass.variant RefKind.variant
    Metadata.encode_metadata
annotation-Fits = ltb→lt (length (Annotation.encode signed_off)) (2 ^ 64) refl

pub ref_record-IsWf : RefRecord.IsWf main_branch
unfolding ascends ascending is_utf8 text_ltb text_eq EpistemicStatus.depth
ref_record-IsWf = record {
  name = refl;
  kind = tt;
  target = refl;
  status = record { steps = tt; levels = omega arith };
  source = λ x q. some_holds SourceIdentity.IsWf source_identity-IsWf x q;
  annotation = λ x q. some_holds Annotation.IsWf annotation-IsWf x q;
}

pub ref_record-Fits : Fits (RefRecord.encode main_branch)
unfolding record_bytes fields_bytes field_bytes field tag list_value concat map_value entries_bytes
    entry_bytes uvarint_value put_uvarint svarint_value zigzag Text.encode Time.encode
    Identity.encode MetadataClaims.encode Signature.encode Extra.encode SourceKind.encode
    SourceIdentity.encode PathOp.encode CopyRecord.encode ChangeAtom.encode RefKind.encode
    Annotation.encode RefRecord.encode ImportProvenance.encode LossClass.encode DropRecord.encode
    FlagKind.encode Flag.encode TransformRecord.encode Derivation.encode DerivationKind.encode
    EpistemicStatus.encode ChangeAtom.body ChangeAtom.metadata_field ChangeAtom.is_empty
    PathOp.fields_of Time.i64_of_i16 as_str text_item LossClass.variant RefKind.variant
    Metadata.encode_metadata
ref_record-Fits = ltb→lt (length (RefRecord.encode main_branch)) (2 ^ 64) refl

pub import_provenance-IsWf : ImportProvenance.IsWf imported
unfolding ascends ascending is_utf8 text_ltb text_eq
import_provenance-IsWf = record {
  source = source_identity-IsWf;
  brygge_version = refl;
  decoder = refl;
  decoder_version = refl;
  params = (refl, refl, refl, tt);
  params_length = omega arith;
}

pub import_provenance-Fits : Fits (ImportProvenance.encode imported)
unfolding record_bytes fields_bytes field_bytes field tag list_value concat map_value entries_bytes
    entry_bytes uvarint_value put_uvarint svarint_value zigzag Text.encode Time.encode
    Identity.encode MetadataClaims.encode Signature.encode Extra.encode SourceKind.encode
    SourceIdentity.encode PathOp.encode CopyRecord.encode ChangeAtom.encode RefKind.encode
    Annotation.encode RefRecord.encode ImportProvenance.encode LossClass.encode DropRecord.encode
    FlagKind.encode Flag.encode TransformRecord.encode Derivation.encode DerivationKind.encode
    EpistemicStatus.encode ChangeAtom.body ChangeAtom.metadata_field ChangeAtom.is_empty
    PathOp.fields_of Time.i64_of_i16 as_str text_item LossClass.variant RefKind.variant
    Metadata.encode_metadata
import_provenance-Fits = ltb→lt (length (ImportProvenance.encode imported)) (2 ^ 64) refl

pub drop_record-IsWf : DropRecord.IsWf left_out
unfolding ascends ascending is_utf8 text_ltb text_eq DropRecord.is_transform DropRecord.is_some
    is_valid_transform_drop_what strip_prefix split_once
drop_record-IsWf = record {
  class = tt;
  what = refl;
  reason = refl;
  step = λ x q. some_holds (λ x. x < 2 ^ 64) (omega arith) x q;
  has_step = refl;
  grammar = refl;
}

pub drop_record-Fits : Fits (DropRecord.encode left_out)
unfolding record_bytes fields_bytes field_bytes field tag list_value concat map_value entries_bytes
    entry_bytes uvarint_value put_uvarint svarint_value zigzag Text.encode Time.encode
    Identity.encode MetadataClaims.encode Signature.encode Extra.encode SourceKind.encode
    SourceIdentity.encode PathOp.encode CopyRecord.encode ChangeAtom.encode RefKind.encode
    Annotation.encode RefRecord.encode ImportProvenance.encode LossClass.encode DropRecord.encode
    FlagKind.encode Flag.encode TransformRecord.encode Derivation.encode DerivationKind.encode
    EpistemicStatus.encode ChangeAtom.body ChangeAtom.metadata_field ChangeAtom.is_empty
    PathOp.fields_of Time.i64_of_i16 as_str text_item LossClass.variant RefKind.variant
    Metadata.encode_metadata
drop_record-Fits = ltb→lt (length (DropRecord.encode left_out)) (2 ^ 64) refl

pub flag-IsWf : Flag.IsWf flagged
unfolding ascends ascending is_utf8 text_ltb text_eq
flag-IsWf = record {
  kind = tt;
  what = refl;
  count = omega arith;
  reason = refl;
  positive = omega arith;
}

pub flag-Fits : Fits (Flag.encode flagged)
unfolding record_bytes fields_bytes field_bytes field tag list_value concat map_value entries_bytes
    entry_bytes uvarint_value put_uvarint svarint_value zigzag Text.encode Time.encode
    Identity.encode MetadataClaims.encode Signature.encode Extra.encode SourceKind.encode
    SourceIdentity.encode PathOp.encode CopyRecord.encode ChangeAtom.encode RefKind.encode
    Annotation.encode RefRecord.encode ImportProvenance.encode LossClass.encode DropRecord.encode
    FlagKind.encode Flag.encode TransformRecord.encode Derivation.encode DerivationKind.encode
    EpistemicStatus.encode ChangeAtom.body ChangeAtom.metadata_field ChangeAtom.is_empty
    PathOp.fields_of Time.i64_of_i16 as_str text_item LossClass.variant RefKind.variant
    Metadata.encode_metadata
flag-Fits = ltb→lt (length (Flag.encode flagged)) (2 ^ 64) refl

pub transform_record-IsWf : TransformRecord.IsWf redaction
unfolding ascends ascending is_utf8 text_ltb text_eq is_valid_transform_name every is_digit
transform_record-IsWf = record {
  name = refl;
  version = refl;
  params = tt;
  params_length = omega arith;
  consumed = refl;
  grammar = refl;
  has_version = omega arith;
}

pub transform_record-Fits : Fits (TransformRecord.encode redaction)
unfolding record_bytes fields_bytes field_bytes field tag list_value concat map_value entries_bytes
    entry_bytes uvarint_value put_uvarint svarint_value zigzag Text.encode Time.encode
    Identity.encode MetadataClaims.encode Signature.encode Extra.encode SourceKind.encode
    SourceIdentity.encode PathOp.encode CopyRecord.encode ChangeAtom.encode RefKind.encode
    Annotation.encode RefRecord.encode ImportProvenance.encode LossClass.encode DropRecord.encode
    FlagKind.encode Flag.encode TransformRecord.encode Derivation.encode DerivationKind.encode
    EpistemicStatus.encode ChangeAtom.body ChangeAtom.metadata_field ChangeAtom.is_empty
    PathOp.fields_of Time.i64_of_i16 as_str text_item LossClass.variant RefKind.variant
    Metadata.encode_metadata
transform_record-Fits = ltb→lt (length (TransformRecord.encode redaction)) (2 ^ 64) refl

pub metadata-IsWf : Metadata.IsWf constant_hash small_ir
unfolding ascends ascending is_utf8 text_ltb text_eq less_ref less_drop less_flag RefKind.variant
    LossClass.variant FlagKind.variant
metadata-IsWf = record {
  atoms = (change_atom-IsWf, tt);
  atoms_length = omega arith;
  refs = (ref_record-IsWf, tt);
  refs_length = omega arith;
  refs_ascend = refl;
  provenance = import_provenance-IsWf;
  dropped = (drop_record-IsWf, tt);
  dropped_length = omega arith;
  dropped_ascend = refl;
  flags = (flag-IsWf, tt);
  flags_length = omega arith;
  flags_ascend = refl;
  transforms = (transform_record-IsWf, tt);
  transforms_length = omega arith;
}

pub metadata-Fits : Fits (Metadata.encode_metadata small_ir)
unfolding record_bytes fields_bytes field_bytes field tag list_value concat map_value entries_bytes
    entry_bytes uvarint_value put_uvarint svarint_value zigzag Text.encode Time.encode
    Identity.encode MetadataClaims.encode Signature.encode Extra.encode SourceKind.encode
    SourceIdentity.encode PathOp.encode CopyRecord.encode ChangeAtom.encode RefKind.encode
    Annotation.encode RefRecord.encode ImportProvenance.encode LossClass.encode DropRecord.encode
    FlagKind.encode Flag.encode TransformRecord.encode Derivation.encode DerivationKind.encode
    EpistemicStatus.encode ChangeAtom.body ChangeAtom.metadata_field ChangeAtom.is_empty
    PathOp.fields_of Time.i64_of_i16 as_str text_item LossClass.variant RefKind.variant
    Metadata.encode_metadata
metadata-Fits = ltb→lt (length (Metadata.encode_metadata small_ir)) (2 ^ 64) refl
