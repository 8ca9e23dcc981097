-- ===== src/Ir/Model/ImportProvenance.antt =====
-- model.rs: `ImportProvenance`, what an import was made from and by what.
use brygge.Prelude.{◌<◌, ◌^◌, ◌≡◌, true, arith, ◌==◌, if◌then◌else◌}
use brygge.Prelude.{List, [], ◌∷◌, Option, none, some, Bytes, length}
use brygge.Prelude.Utf8.{is_utf8}
use brygge.Ir.Error.{non_canonical}
use brygge.Ir.Canon.Writer.{field, in_turn, unless_empty, record_bytes, map_value}
use brygge.Ir.Canon.Reader.{
  Read, Handler, ◌>>=◌, ◌>>◌, pure, required, recognized, declined, text, read_map, record_fields,
}
use brygge.Ir.Canon.Reads.{Reads, Reads-last, Reads-pure, Reads-text}
use brygge.Ir.Canon.Lists.{Fits, Entries, read_map-map_value}
use brygge.Ir.Canon.Records.{done, Handles-field, Handles-list, record_fields-record_bytes}
use brygge.Ir.Model.Checks.{non_empty_list, Reads-non_empty}
use brygge.Ir.Model.SourceIdentity
use brygge.Ir.Model.SourceIdentity.{SourceIdentity}

pub record ImportProvenance : Type 0 where
  pub source : SourceIdentity
  pub brygge_version : Bytes
  pub decoder : Bytes
  pub decoder_version : Bytes
  pub params : List (Bytes × Bytes)

unfoldable pub encode : ImportProvenance → Bytes
encode t = record_bytes (
    in_turn (
      field 1 true (SourceIdentity.encode t.source)
      ∷ field 2 true (t.brygge_version)
      ∷ field 3 true (t.decoder)
      ∷ field 4 true (t.decoder_version)
      ∷ unless_empty (λ x. field 5 true (map_value x)) t.params
      ∷ []))

record Vars : Type 0 where
  source : Option SourceIdentity
  brygge_version : Option Bytes
  decoder : Option Bytes
  decoder_version : Option Bytes
  params : List (Bytes × Bytes)

handle : Handler Vars
handle s id len =
    if id == 1
    then (do x ← SourceIdentity.decode; recognized (record s { source = some x }))
    else if id == 2
    then (do x ← text len; recognized (record s { brygge_version = some x }))
    else if id == 3
    then (do x ← text len; recognized (record s { decoder = some x }))
    else if id == 4
    then (do x ← text len; recognized (record s { decoder_version = some x }))
    else if id == 5
    then (do
      x ← read_map
      non_empty_list "ImportProvenance.params encoded but empty" x
      recognized (record s { params = x }))
    else declined s

abbrev start : Vars
start = record {
  source = none;
  brygge_version = none;
  decoder = none;
  decoder_version = none;
  params = [];
}

unfoldable pub decode : Read ImportProvenance
unfolding handle
decode = do
  s ← record_fields "ImportProvenance" handle start
  source ← required s.source (non_canonical "ImportProvenance missing field 1 (source)")
  brygge_version ←
      required s.brygge_version (non_canonical "ImportProvenance missing field 2 (brygge_version)")
  decoder ← required s.decoder (non_canonical "ImportProvenance missing field 3 (decoder)")
  decoder_version ←
      required s.decoder_version
        (non_canonical "ImportProvenance missing field 4 (decoder_version)")
  pure (record {
    source = source;
    brygge_version = brygge_version;
    decoder = decoder;
    decoder_version = decoder_version;
    params = s.params;
  })

-- The texts are well formed and the parameters are in the order of their keys.
pub record IsWf (t : ImportProvenance) : Type 0 where
  pub source : SourceIdentity.IsWf t.source
  pub brygge_version : is_utf8 t.brygge_version ≡ true
  pub decoder : is_utf8 t.decoder ≡ true
  pub decoder_version : is_utf8 t.decoder_version ≡ true
  pub params : Entries none t.params
  pub params_length : length t.params < 2 ^ 64

-- Every well-formed provenance is read back from what `encode` writes for it, if that is shorter than 2 ^ 64 bytes; no
-- byte more is taken.
pub decode-encode_import_provenance :
    (t : ImportProvenance) → IsWf t → Fits (encode t) → Reads decode (encode t) t
unfolding decode encode
decode-encode_import_provenance t wf fits =
    Reads-last (record_fields "ImportProvenance" handle start) _
      (record_fields-record_bytes "ImportProvenance" handle
        (Handles-field handle 0 1 (SourceIdentity.encode t.source) (omega arith) (omega arith)
          (λ fits.
            Reads-last SourceIdentity.decode _
              (SourceIdentity.decode-encode_source_identity t.source wf.source fits) (Reads-pure _))
          (Handles-field handle 2 2 (t.brygge_version) (omega arith) (omega arith)
            (λ _.
              Reads-last (text _) _ (Reads-text t.brygge_version wf.brygge_version) (Reads-pure _))
            (Handles-field handle 3 3 (t.decoder) (omega arith) (omega arith)
              (λ _. Reads-last (text _) _ (Reads-text t.decoder wf.decoder) (Reads-pure _))
              (Handles-field handle 4 4 (t.decoder_version) (omega arith) (omega arith)
                (λ _.
                  Reads-last (text _) _ (Reads-text t.decoder_version wf.decoder_version)
                    (Reads-pure _))
                (Handles-list handle 5 5 t.params map_value
                  (λ x. record {
                    source = some t.source;
                    brygge_version = some t.brygge_version;
                    decoder = some t.decoder;
                    decoder_version = some t.decoder_version;
                    params = x;
                  })
                  (omega arith) (omega arith)
                  (λ ne fits.
                    Reads-last read_map _
                      (read_map-map_value t.params wf.params_length wf.params fits)
                      (Reads-last (non_empty_list _ t.params) _ (Reads-non_empty _ t.params ne)
                        (Reads-pure _)))
                  (done 6 _))))))
        fits)
      (Reads-pure t)
