-- ===== src/Ir/Model/SourceIdentity.antt =====
-- model.rs: `SourceIdentity`, the identifiers, signatures and extras of the source.
use brygge.Prelude.{◌<◌, ◌^◌, true, arith, ◌==◌, if◌then◌else◌}
use brygge.Prelude.{List, [], ◌∷◌, map, Option, none, some, Bytes, length, All}
use brygge.Ir.Error.{non_canonical}
use brygge.Ir.Canon.Writer.{field, in_turn, unless_empty, record_bytes, list_value}
use brygge.Ir.Canon.Reader.{
  Read, Handler, ◌>>=◌, ◌>>◌, pure, required, recognized, declined, bytes_exact, list,
  record_fields,
}
use brygge.Ir.Canon.Reads.{Reads, Reads-last, Reads-pure, Reads-bytes_exact}
use brygge.Ir.Canon.Lists.{Fits}
use brygge.Ir.Canon.Records.{done, Handles-field, Handles-list, record_fields-record_bytes}
use brygge.Ir.Model.Checks.{non_empty_list, Reads-records}
use brygge.Ir.Model.SourceKind
use brygge.Ir.Model.SourceKind.{SourceKind}
use brygge.Ir.Model.Signature
use brygge.Ir.Model.Signature.{Signature}
use brygge.Ir.Model.Extra
use brygge.Ir.Model.Extra.{Extra}

pub record SourceIdentity : Type 0 where
  pub kind : SourceKind
  pub repo_id : Bytes
  pub atom_id : Bytes
  pub signatures : List Signature
  pub extras : List Extra

unfoldable pub encode : SourceIdentity → Bytes
encode t = record_bytes (
    in_turn (
      field 1 true (SourceKind.encode t.kind)
      ∷ field 2 true (t.repo_id)
      ∷ field 3 true (t.atom_id)
      ∷ unless_empty (λ x. field 4 true (list_value (map Signature.encode x))) t.signatures
      ∷ unless_empty (λ x. field 5 true (list_value (map Extra.encode x))) t.extras
      ∷ []))

record Vars : Type 0 where
  kind : Option SourceKind
  repo_id : Option Bytes
  atom_id : Option Bytes
  signatures : List Signature
  extras : List Extra

handle : Handler Vars
handle s id len =
    if id == 1
    then (do x ← SourceKind.decode; recognized (record s { kind = some x }))
    else if id == 2
    then (do x ← bytes_exact len; recognized (record s { repo_id = some x }))
    else if id == 3
    then (do x ← bytes_exact len; recognized (record s { atom_id = some x }))
    else if id == 4
    then (do
      x ← list Signature.decode
      non_empty_list "SourceIdentity.signatures encoded but empty" x
      recognized (record s { signatures = x }))
    else if id == 5
    then (do
      x ← list Extra.decode
      non_empty_list "SourceIdentity.extras encoded but empty" x
      recognized (record s { extras = x }))
    else declined s

abbrev start : Vars
start = record { kind = none; repo_id = none; atom_id = none; signatures = []; extras = [] }

unfoldable pub decode : Read SourceIdentity
unfolding handle
decode = do
  s ← record_fields "SourceIdentity" handle start
  kind ← required s.kind (non_canonical "SourceIdentity missing field 1 (kind)")
  repo_id ← required s.repo_id (non_canonical "SourceIdentity missing field 2 (repo_id)")
  atom_id ← required s.atom_id (non_canonical "SourceIdentity missing field 3 (atom_id)")
  pure (record {
    kind = kind;
    repo_id = repo_id;
    atom_id = atom_id;
    signatures = s.signatures;
    extras = s.extras;
  })

-- The kind, the signatures and the extras are well formed, and a list has fewer than 2 ^ 64 items.
pub record IsWf (t : SourceIdentity) : Type 0 where
  pub kind : SourceKind.IsWf t.kind
  pub signatures : All Signature.IsWf t.signatures
  pub signatures_length : length t.signatures < 2 ^ 64
  pub extras : All Extra.IsWf t.extras
  pub extras_length : length t.extras < 2 ^ 64

-- Every well-formed source identity is read back from what `encode` writes for it, if that is shorter than 2 ^ 64 bytes; no
-- byte more is taken.
pub decode-encode_source_identity :
    (t : SourceIdentity) → IsWf t → Fits (encode t) → Reads decode (encode t) t
unfolding decode encode
decode-encode_source_identity t wf fits =
    Reads-last (record_fields "SourceIdentity" handle start) _
      (record_fields-record_bytes "SourceIdentity" handle
        (Handles-field handle 0 1 (SourceKind.encode t.kind) (omega arith) (omega arith)
          (λ fits.
            Reads-last SourceKind.decode _
              (SourceKind.decode-encode_source_kind t.kind wf.kind fits) (Reads-pure _))
          (Handles-field handle 2 2 (t.repo_id) (omega arith) (omega arith)
            (λ _. Reads-last (bytes_exact _) _ (Reads-bytes_exact t.repo_id) (Reads-pure _))
            (Handles-field handle 3 3 (t.atom_id) (omega arith) (omega arith)
              (λ _. Reads-last (bytes_exact _) _ (Reads-bytes_exact t.atom_id) (Reads-pure _))
              (Handles-list handle 4 4 t.signatures (λ x. list_value (map Signature.encode x))
                (λ x. record {
                  kind = some t.kind;
                  repo_id = some t.repo_id;
                  atom_id = some t.atom_id;
                  signatures = x;
                  extras = [];
                })
                (omega arith) (omega arith)
                (λ ne fits.
                  Reads-records Signature.decode Signature.encode Signature.IsWf _ _ t.signatures
                    Signature.decode-encode_signature wf.signatures wf.signatures_length ne fits
                    (Reads-pure _))
                (Handles-list handle 5 5 t.extras (λ x. list_value (map Extra.encode x))
                  (λ x. record {
                    kind = some t.kind;
                    repo_id = some t.repo_id;
                    atom_id = some t.atom_id;
                    signatures = t.signatures;
                    extras = x;
                  })
                  (omega arith) (omega arith)
                  (λ ne fits.
                    Reads-records Extra.decode Extra.encode Extra.IsWf _ _ t.extras
                      Extra.decode-encode_extra wf.extras wf.extras_length ne fits (Reads-pure _))
                  (done 6 _))))))
        fits)
      (Reads-pure t)
