-- ===== src/Ir/Model/ChangeAtom/RoundTrip.antt =====
-- An atom is read back from its record, and its id is checked against its contents.
use brygge.Prelude.{inl, inr, Bool-cases, ◌≡◌, true, not, arith}
use brygge.Prelude.{[], ◌∷◌, ◌++◌, map, none, some, Bytes, length}
use brygge.Prelude.Utf8.{text_eq_refl, text_eq}
use brygge.Ir.Canon.Writer.{Fields, field, in_turn, list_value}
use brygge.Ir.Canon.Reader.{ensure, raw32, record_fields}
use brygge.Ir.Canon.Reads.{Reads, Reads-then, Reads-last, Reads-pure, Reads-ensure, Reads-raw32}
use brygge.Ir.Canon.Lists.{Fits}
use brygge.Ir.Canon.Records.{
  Handles, done, Handles-field, Handles-list, Handles-weaken, record_fields-record_bytes,
}
use brygge.Ir.Model.Checks.{ascending, Reads-records}
use brygge.Ir.Model.AtomId
use brygge.Ir.Model.AtomId.{AtomId}
use brygge.Ir.Model.PathOp
use brygge.Ir.Model.PathOp.{PathOp}
use brygge.Ir.Model.CopyRecord
use brygge.Ir.Model.CopyRecord.{CopyRecord}
use brygge.Ir.Model.MetadataClaims
use brygge.Ir.Model.MetadataClaims.{MetadataClaims}
use brygge.Ir.Model.SourceIdentity
use brygge.Ir.Model.SourceIdentity.{SourceIdentity}
use brygge.Ir.Status.EpistemicStatus
use brygge.Ir.Status.EpistemicStatus.{EpistemicStatus}
use brygge.Ir.Model.ChangeAtom
use brygge.Ir.Model.ChangeAtom.{
  ChangeAtom, is_empty, no_claims, metadata_field, body, encode, handle, start, less_path,
  less_copy, compute_id, decode, Vars,
}

is_empty→no_claims : (m : MetadataClaims) → is_empty m ≡ true → m ≡ no_claims
unfolding is_empty
is_empty→no_claims m h = ground arith

-- The metadata field, which is left out when every claim is absent.
metadata_handled :
    {u : Vars} {fs : Fields} (m : MetadataClaims) (s : MetadataClaims → Vars)
    → ((x : MetadataClaims)
        → not (is_empty x) ≡ true
        → Fits (MetadataClaims.encode x)
        → MetadataClaims.IsWf x
        → Reads
            (handle (s no_claims) 5 (length (MetadataClaims.encode x)))
            (MetadataClaims.encode x)
            (true, s x))
    → MetadataClaims.IsWf m
    → Handles handle 6 (s m) fs u
    → Handles handle 5 (s no_claims) (metadata_field m ++ fs) u
unfolding metadata_field
metadata_handled m s each wf hs = elim (Bool-cases (is_empty m)) [
  | inl e ↦ rw (e) (Handles-weaken handle 5 (omega arith) (rw (is_empty→no_claims m e) at hs))
  | inr ne ↦ rw (ne) (
      Handles-field handle 5 5 (MetadataClaims.encode m) (omega arith) (omega arith)
        (λ f. each m (ground (arith, ne)) f wf) hs)
]

module _ (sha256 : Bytes → Bytes) where
  atom_handled :
      (t : ChangeAtom)
      → ChangeAtom.IsWf sha256 t
      → Handles handle 0 start (in_turn (field 1 true t.id ∷ body t)) (record {
        id = some t.id;
        parents = t.parents;
        ops = t.ops;
        copies = t.copies;
        metadata = t.metadata;
        source = some t.source;
        status = some t.status;
      })
  unfolding body handle
  atom_handled t wf =
      Handles-field handle 0 1 t.id (omega arith) (omega arith)
        (λ _. Reads-last raw32 _ (Reads-raw32 t.id wf.id_length) (Reads-pure _))
        (Handles-list handle 2 2 t.parents (λ x. list_value (map AtomId.encode x))
          (λ x. record {
            id = some t.id;
            parents = x;
            ops = [];
            copies = [];
            metadata = no_claims;
            source = none;
            status = none;
          })
          (omega arith) (omega arith)
          (λ ne f.
            Reads-records AtomId.decode AtomId.encode AtomId.IsWf _ _ t.parents
              AtomId.decode-encode_atom_id wf.parents wf.parents_length ne f (Reads-pure _))
          (Handles-list handle 3 3 t.ops (λ x. list_value (map PathOp.encode x))
            (λ x. record {
              id = some t.id;
              parents = t.parents;
              ops = x;
              copies = [];
              metadata = no_claims;
              source = none;
              status = none;
            })
            (omega arith) (omega arith)
            (λ ne f.
              Reads-records PathOp.decode PathOp.encode PathOp.IsWf _ _ t.ops
                PathOp.decode-encode_path_op wf.ops wf.ops_length ne f (Reads-pure _))
            (Handles-list handle 4 4 t.copies (λ x. list_value (map CopyRecord.encode x))
              (λ x. record {
                id = some t.id;
                parents = t.parents;
                ops = t.ops;
                copies = x;
                metadata = no_claims;
                source = none;
                status = none;
              })
              (omega arith) (omega arith)
              (λ ne f.
                Reads-records CopyRecord.decode CopyRecord.encode CopyRecord.IsWf _ _ t.copies
                  CopyRecord.decode-encode_copy_record wf.copies wf.copies_length ne f
                  (Reads-pure _))
              (metadata_handled t.metadata
                (λ x. record {
                  id = some t.id;
                  parents = t.parents;
                  ops = t.ops;
                  copies = t.copies;
                  metadata = x;
                  source = none;
                  status = none;
                })
                (λ x ne f w.
                  Reads-last MetadataClaims.decode _
                    (MetadataClaims.decode-encode_metadata_claims x w f)
                    (Reads-then (ensure (not (is_empty x)) _) _ (Reads-ensure _ _ ne)
                      (Reads-pure _)))
                wf.metadata
                (Handles-field handle 6 6 (SourceIdentity.encode t.source) (omega arith)
                  (omega arith)
                  (λ f.
                    Reads-last SourceIdentity.decode _
                      (SourceIdentity.decode-encode_source_identity t.source wf.source f)
                      (Reads-pure _))
                  (Handles-field handle 7 7 (EpistemicStatus.encode t.status) (omega arith)
                    (omega arith)
                    (λ f.
                      Reads-last EpistemicStatus.decode _
                        (EpistemicStatus.decode-encode_epistemic_status t.status wf.status f)
                        (Reads-pure _))
                    (done 8 _)))))))

  -- Whatever the hash function is, every well-formed atom, its id being the hash of the rest, is read back from
  -- what `encode` writes for it, if that is shorter than 2 ^ 64 bytes; no byte more is taken.
  pub decode-encode_change_atom :
      (t : ChangeAtom)
      → ChangeAtom.IsWf sha256 t
      → Fits (encode t)
      → Reads (decode sha256) (encode t) t
  unfolding decode encode
  decode-encode_change_atom t wf fits =
      Reads-last (record_fields "ChangeAtom" handle start) _
        (record_fields-record_bytes "ChangeAtom" handle (atom_handled t wf) fits)
        (Reads-then (ensure (ascending less_path t.ops) _) _ (Reads-ensure _ _ wf.ops_ascend) (
          Reads-then (ensure (ascending less_copy t.copies) _) _ (Reads-ensure _ _ wf.copies_ascend)
            (Reads-then (ensure (text_eq (compute_id sha256 t) t.id) _) _
              (Reads-ensure _ _ (rw (← wf.id) (text_eq_refl t.id))) (Reads-pure t))))
