-- ===== src/Ir/Model/Metadata/RoundTrip.antt =====
-- The metadata section is read back whole.
use brygge.Prelude.{◌≡◌, sym, ap, ◌∙◌, ◌++◌, true, arith, leb}
use brygge.Prelude.{[], ◌∷◌, map, none, some, Bytes, length}
use brygge.Ir.Canon.Writer.{field, in_turn, unless_empty, list_value}
use brygge.Ir.Canon.Reader.{ensure, record_fields}
use brygge.Ir.Canon.Reads.{at, Reads, Reads-then, Reads-last, Reads-pure, Reads-ensure}
use brygge.Ir.Canon.Lists.{Fits}
use brygge.Ir.Canon.Records.{Handles, done, Handles-field, Handles-list, record_fields-record_bytes}
use brygge.Ir.Model.Checks.{ascending, Reads-records}
use brygge.Ir.Model.ChangeAtom
use brygge.Ir.Model.ChangeAtom.{ChangeAtom}
use brygge.Ir.Model.RefRecord
use brygge.Ir.Model.RefRecord.{RefRecord}
use brygge.Ir.Model.ImportProvenance
use brygge.Ir.Model.ImportProvenance.{ImportProvenance}
use brygge.Ir.Model.DropRecord
use brygge.Ir.Model.DropRecord.{DropRecord}
use brygge.Ir.Model.Flag
use brygge.Ir.Model.Flag.{Flag}
use brygge.Ir.Model.TransformRecord
use brygge.Ir.Model.TransformRecord.{TransformRecord}
use brygge.Ir.Model.ChangeAtom.RoundTrip
use brygge.Ir.Model.Metadata
use brygge.Ir.Model.Metadata.{
  Ir, Vars, start, encode_metadata, less_ref, less_drop, less_flag, handle, decode_metadata,
}
use brygge.Prelude.{le→leb}

module _ (sha256 : Bytes → Bytes) where
  metadata_handled :
      (t : Ir)
      → Metadata.IsWf sha256 t
      → Handles
          (handle sha256)
          0
          start
          (in_turn (
            unless_empty (λ x. field 1 true (list_value (map ChangeAtom.encode x))) t.atoms
            ∷ unless_empty (λ x. field 2 true (list_value (map RefRecord.encode x))) t.refs
            ∷ field 3 true (ImportProvenance.encode t.provenance)
            ∷ unless_empty (λ x. field 4 true (list_value (map DropRecord.encode x))) t.dropped
            ∷ unless_empty (λ x. field 5 true (list_value (map Flag.encode x))) t.flags
            ∷ unless_empty
                (λ x. field 6 true (list_value (map TransformRecord.encode x)))
                t.transforms
            ∷ []))
          (record {
            atoms = t.atoms;
            refs = t.refs;
            provenance = some t.provenance;
            dropped = t.dropped;
            flags = t.flags;
            transforms = t.transforms;
          })
  unfolding handle
  metadata_handled t wf =
      Handles-list (handle sha256) 0 1 t.atoms (λ x. list_value (map ChangeAtom.encode x))
        (λ x. record {
          atoms = x;
          refs = [];
          provenance = none;
          dropped = [];
          flags = [];
          transforms = [];
        })
        (omega arith) (omega arith)
        (λ ne f.
          Reads-records (ChangeAtom.decode sha256) ChangeAtom.encode (ChangeAtom.IsWf sha256) _ _
            t.atoms (RoundTrip.decode-encode_change_atom sha256) wf.atoms wf.atoms_length ne f
            (Reads-pure _))
        (Handles-list (handle sha256) 2 2 t.refs (λ x. list_value (map RefRecord.encode x))
          (λ x. record {
            atoms = t.atoms;
            refs = x;
            provenance = none;
            dropped = [];
            flags = [];
            transforms = [];
          })
          (omega arith) (omega arith)
          (λ ne f.
            Reads-records RefRecord.decode RefRecord.encode RefRecord.IsWf _ _ t.refs
              RefRecord.decode-encode_ref_record wf.refs wf.refs_length ne f (Reads-pure _))
          (Handles-field (handle sha256) 3 3 (ImportProvenance.encode t.provenance) (omega arith)
            (omega arith)
            (λ f.
              Reads-last ImportProvenance.decode _
                (ImportProvenance.decode-encode_import_provenance t.provenance wf.provenance f)
                (Reads-pure _))
            (Handles-list (handle sha256) 4 4 t.dropped (λ x. list_value (map DropRecord.encode x))
              (λ x. record {
                atoms = t.atoms;
                refs = t.refs;
                provenance = some t.provenance;
                dropped = x;
                flags = [];
                transforms = [];
              })
              (omega arith) (omega arith)
              (λ ne f.
                Reads-records DropRecord.decode DropRecord.encode DropRecord.IsWf _ _ t.dropped
                  DropRecord.decode-encode_drop_record wf.dropped wf.dropped_length ne f
                  (Reads-pure _))
              (Handles-list (handle sha256) 5 5 t.flags (λ x. list_value (map Flag.encode x))
                (λ x. record {
                  atoms = t.atoms;
                  refs = t.refs;
                  provenance = some t.provenance;
                  dropped = t.dropped;
                  flags = x;
                  transforms = [];
                })
                (omega arith) (omega arith)
                (λ ne f.
                  Reads-records Flag.decode Flag.encode Flag.IsWf _ _ t.flags
                    Flag.decode-encode_flag wf.flags wf.flags_length ne f (Reads-pure _))
                (Handles-list (handle sha256) 6 6 t.transforms
                  (λ x. list_value (map TransformRecord.encode x))
                  (λ x. record {
                    atoms = t.atoms;
                    refs = t.refs;
                    provenance = some t.provenance;
                    dropped = t.dropped;
                    flags = t.flags;
                    transforms = x;
                  })
                  (omega arith) (omega arith)
                  (λ ne f.
                    Reads-records TransformRecord.decode TransformRecord.encode TransformRecord.IsWf
                      _ _ t.transforms TransformRecord.decode-encode_transform_record wf.transforms
                      (omega (arith, wf.transforms_length)) ne f
                      (Reads-then (ensure (leb (length t.transforms) 64) _) _
                        (Reads-ensure _ _ (le→leb (length t.transforms) 64 wf.transforms_length))
                        (Reads-pure _)))
                  (done 7 _))))))

  -- Whatever the hash function is, every well-formed `Ir` is read back from what `encode_metadata` writes for
  -- it, at the front of any input, if that is shorter than 2 ^ 64 bytes; no byte more is taken and no field is
  -- skipped.
  pub decode_metadata-encode_metadata :
      (t : Ir)
      → Metadata.IsWf sha256 t
      → Fits (encode_metadata t)
      → Reads (decode_metadata sha256) (encode_metadata t) t
  unfolding decode_metadata encode_metadata
  decode_metadata-encode_metadata t wf fits =
      Reads-last (record_fields "Ir" (handle sha256) start) _
        (record_fields-record_bytes "Ir" (handle sha256) (metadata_handled t wf) fits)
        (Reads-then (ensure (ascending less_ref t.refs) _) _ (Reads-ensure _ _ wf.refs_ascend) (
          Reads-then (ensure (ascending less_drop t.dropped) _) _
            (Reads-ensure _ _ wf.dropped_ascend)
            (Reads-then (ensure (ascending less_flag t.flags) _) _
              (Reads-ensure _ _ wf.flags_ascend) (Reads-pure t))))

  -- Whatever the hash function is, where the encodings of two well-formed values, each shorter than 2 ^ 64 bytes
  -- and followed by anything, are the same bytes, the two values are the same and so is what follows them.
  pub encode_metadata_prefix_free :
      (t u : Ir) (rest other : Bytes)
      → Metadata.IsWf sha256 t
      → Metadata.IsWf sha256 u
      → Fits (encode_metadata t)
      → Fits (encode_metadata u)
      → encode_metadata t ++ rest ≡ encode_metadata u ++ other
      → (t ≡ u) × (rest ≡ other)
  encode_metadata_prefix_free t u rest other wt wu ft fu same =
      let a = (decode_metadata-encode_metadata t wt ft).run rest 0 0 in
      let b = (decode_metadata-encode_metadata u wu fu).run other 0 0 in
      let c = sym a ∙ ap (λ x. decode_metadata sha256 (at x 0 0)) same ∙ b in (cc c, cc c)
