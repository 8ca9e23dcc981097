-- ===== src/Tests/Sample.antt =====
-- A small artifact: one atom that adds a file, deletes another and copies a third, one branch, one drop,
-- one flag and one transform. In place of SHA-256 stands a function that gives 32 zero bytes for any input.
use brygge.Prelude.{ℕ, zero, suc, [], ◌∷◌, some, Bytes, ◌-◌, ◌^◌}
use brygge.Prelude.Utf8.{codes}
use brygge.Ir.Model.Text.{Text}
use brygge.Ir.Model.Time.{Time}
use brygge.Ir.Model.Identity.{Identity}
use brygge.Ir.Model.MetadataClaims.{MetadataClaims}
use brygge.Ir.Model.SourceKind
use brygge.Ir.Model.SourceIdentity.{SourceIdentity}
use brygge.Ir.Model.PathOp.{PathOp}
use brygge.Ir.Model.CopyRecord.{CopyRecord}
use brygge.Ir.Model.ChangeAtom.{ChangeAtom}
use brygge.Ir.Model.RefKind
use brygge.Ir.Model.Annotation.{Annotation}
use brygge.Ir.Model.RefRecord.{RefRecord}
use brygge.Ir.Model.ImportProvenance.{ImportProvenance}
use brygge.Ir.Model.LossClass
use brygge.Ir.Model.DropRecord.{DropRecord}
use brygge.Ir.Model.FlagKind
use brygge.Ir.Model.Flag.{Flag}
use brygge.Ir.Model.TransformRecord.{TransformRecord}
use brygge.Ir.Model.Metadata.{Ir}
use brygge.Ir.Status.DerivationKind
use brygge.Ir.Status.Derivation.{Derivation}
use brygge.Ir.Status.ChangedPart
use brygge.Ir.Status.EpistemicStatus.{EpistemicStatus}

abbrev pub zeros : ℕ → Bytes
zeros zero = []
zeros (suc n) = 0 ∷ zeros n

abbrev pub constant_hash : Bytes → Bytes
constant_hash b = zeros 32

abbrev pub latin_text : Text
latin_text = record { bytes = 0xe5 ∷ 0x6c ∷ []; encoding = some (codes "latin1") }

abbrev pub two_hours_west : Time
two_hours_west = record { seconds = 2 ^ 64 - 5; offset_minutes = some (2 ^ 16 - 120) }

abbrev pub someone : Identity
someone = record { name = latin_text; email = some latin_text }

abbrev pub claims : MetadataClaims
claims = record {
  author = some someone;
  author_time = some two_hours_west;
  committer = some someone;
  commit_time = some two_hours_west;
  message = some latin_text;
}

abbrev pub git_source : SourceIdentity
git_source = record {
  kind = SourceKind.git;
  repo_id = [];
  atom_id = 7 ∷ 8 ∷ [];
  signatures = record { label = codes "gpgsig"; bytes = 1 ∷ [] } ∷ [];
  extras = record { label = codes "HG:extra"; bytes = [] } ∷ [];
}

abbrev pub inferred : Derivation
inferred = record {
  kind = DerivationKind.inferred_rename;
  by = codes "brygge-decode-git";
  decoder_version = codes "0.3.0";
  params = (codes "rename_algorithm", codes "gix") ∷ (codes "rename_threshold", codes "50") ∷ [];
  confidence = some 100;
}

abbrev pub twice_changed : EpistemicStatus
twice_changed =
    EpistemicStatus.transformed 300 (ChangedPart.blob ∷ ChangedPart.path ∷ [])
      (EpistemicStatus.transformed 2 (ChangedPart.author ∷ []) (EpistemicStatus.derived inferred))

abbrev pub add_file : PathOp
add_file = PathOp.add (codes "a") (zeros 32) 420 twice_changed

abbrev pub copied : CopyRecord
copied = record {
  from = codes "b";
  from_atom = zeros 32;
  to = codes "a";
  status = EpistemicStatus.derived inferred;
}

abbrev pub one_atom : ChangeAtom
one_atom = record {
  id = zeros 32;
  parents = zeros 32 ∷ [];
  ops = add_file ∷ PathOp.delete (codes "b") EpistemicStatus.stated ∷ [];
  copies = copied ∷ [];
  metadata = claims;
  source = git_source;
  status = EpistemicStatus.stated;
}

abbrev pub signed_off : Annotation
signed_off = record { tagger = some someone; time = some two_hours_west; message = some latin_text }

abbrev pub main_branch : RefRecord
main_branch = record {
  name = codes "main";
  kind = RefKind.branch;
  target = zeros 32;
  status = EpistemicStatus.stated;
  source = some git_source;
  annotation = some signed_off;
}

abbrev pub imported : ImportProvenance
imported = record {
  source = git_source;
  brygge_version = codes "0.3.0";
  decoder = codes "git";
  decoder_version = codes "0.3.0";
  params = (codes "renames", codes "50") ∷ [];
}

abbrev pub left_out : DropRecord
left_out = record {
  class = LossClass.transform;
  what = codes "ref tag v1";
  reason = codes "not wanted";
  step = some 1;
}

abbrev pub flagged : Flag
flagged = record {
  kind = FlagKind.below_confidence_floor;
  what = codes "a";
  count = 1;
  reason = codes "below 50";
}

abbrev pub redaction : TransformRecord
redaction = record {
  name = codes "redact-1";
  version = codes "1";
  params = [];
  consumed = zeros 32;
}

abbrev pub small_ir : Ir
small_ir = record {
  atoms = one_atom ∷ [];
  refs = main_branch ∷ [];
  provenance = imported;
  dropped = left_out ∷ [];
  flags = flagged ∷ [];
  transforms = redaction ∷ [];
}
