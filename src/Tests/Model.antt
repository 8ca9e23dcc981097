-- ===== src/Tests/Model.antt =====
-- The round trips of the data model, at the sample.
use brygge.Ir.Canon.Reads.{Reads}
use brygge.Ir.Status.EpistemicStatus
use brygge.Ir.Model.PathOp
use brygge.Ir.Model.ChangeAtom
use brygge.Ir.Model.Metadata
use brygge.Ir.Model.ChangeAtom.RoundTrip as AtomRoundTrip
use brygge.Ir.Model.Metadata.RoundTrip as IrRoundTrip
use brygge.Tests.WellFormed.{
  epistemic_status-IsWf, epistemic_status-Fits, path_op-IsWf, path_op-Fits, change_atom-IsWf,
  change_atom-Fits, metadata-IsWf, metadata-Fits,
}
use brygge.Tests.Sample.{constant_hash, twice_changed, add_file, one_atom, small_ir}

decode-encode_epistemic_status_example :
    Reads EpistemicStatus.decode (EpistemicStatus.encode twice_changed) twice_changed
decode-encode_epistemic_status_example =
    EpistemicStatus.decode-encode_epistemic_status twice_changed epistemic_status-IsWf
      epistemic_status-Fits

decode-encode_path_op_example : Reads PathOp.decode (PathOp.encode add_file) add_file
decode-encode_path_op_example = PathOp.decode-encode_path_op add_file path_op-IsWf path_op-Fits

decode-encode_change_atom_example :
    Reads (ChangeAtom.decode constant_hash) (ChangeAtom.encode one_atom) one_atom
decode-encode_change_atom_example =
    AtomRoundTrip.decode-encode_change_atom constant_hash one_atom change_atom-IsWf change_atom-Fits

decode_metadata-encode_metadata_example :
    Reads (Metadata.decode_metadata constant_hash) (Metadata.encode_metadata small_ir) small_ir
decode_metadata-encode_metadata_example =
    IrRoundTrip.decode_metadata-encode_metadata constant_hash small_ir metadata-IsWf metadata-Fits
