-- ===== src/Ir/Model/TransformRecord.antt =====
-- model.rs: `TransformRecord`, one run of a transform over an artifact.
use brygge.Prelude.{◌<◌, ◌^◌, ◌≡◌, true, arith, ◌==◌, ltb, if◌then◌else◌}
use brygge.Prelude.{List, [], ◌∷◌, Option, none, some, Bytes, length}
use brygge.Prelude.Utf8.{is_utf8}
use brygge.Ir.Error.{Error, non_canonical}
use brygge.Ir.Canon.Writer.{field, in_turn, unless_empty, record_bytes, map_value}
use brygge.Ir.Canon.Reader.{
  Read, Handler, ◌>>=◌, ◌>>◌, pure, ensure, required, recognized, declined, text, raw32, read_map,
  record_fields,
}
use brygge.Ir.Canon.Reads.{
  Reads, Reads-then, Reads-last, Reads-pure, Reads-ensure, Reads-text, Reads-raw32,
}
use brygge.Ir.Canon.Lists.{Fits, Entries, read_map-map_value}
use brygge.Ir.Canon.Records.{done, Handles-field, Handles-list, record_fields-record_bytes}
use brygge.Ir.Model.Checks.{non_empty_list, Reads-non_empty}
use brygge.Ir.Model.Grammar.{is_valid_transform_name}
use brygge.Prelude.{lt→ltb}

pub record TransformRecord : Type 0 where
  pub name : Bytes
  pub version : Bytes
  pub params : List (Bytes × Bytes)
  pub consumed : Bytes

unfoldable pub encode : TransformRecord → Bytes
encode t = record_bytes (
    in_turn (
      field 1 true (t.name)
      ∷ field 2 true (t.version)
      ∷ unless_empty (λ x. field 3 true (map_value x)) t.params
      ∷ field 4 true (t.consumed)
      ∷ []))

record Vars : Type 0 where
  name : Option Bytes
  version : Option Bytes
  params : List (Bytes × Bytes)
  consumed : Option Bytes

handle : Handler Vars
handle s id len =
    if id == 1
    then (do x ← text len; recognized (record s { name = some x }))
    else if id == 2
    then (do x ← text len; recognized (record s { version = some x }))
    else if id == 3
    then (do
      x ← read_map
      non_empty_list "TransformRecord.params encoded but empty" x
      recognized (record s { params = x }))
    else if id == 4
    then (do x ← raw32; recognized (record s { consumed = some x }))
    else declined s

abbrev start : Vars
start = record { name = none; version = none; params = []; consumed = none }

unfoldable pub decode : Read TransformRecord
unfolding handle
decode = do
  s ← record_fields "TransformRecord" handle start
  name ← required s.name (non_canonical "TransformRecord missing field 1 (name)")
  ensure (is_valid_transform_name name)
      (Error.decode "TransformRecord.name does not match the plugin grammar")
  version ← required s.version (non_canonical "TransformRecord missing field 2 (version)")
  ensure (ltb 0 (length version)) (non_canonical "TransformRecord.version is empty")
  consumed ← required s.consumed (non_canonical "TransformRecord missing field 4 (consumed)")
  pure (record { name = name; version = version; params = s.params; consumed = consumed })

-- The name has the plugin grammar, the version is not empty, the texts and the parameters are well formed,
-- and the digest has 32 bytes.
pub record IsWf (t : TransformRecord) : Type 0 where
  pub name : is_utf8 t.name ≡ true
  pub version : is_utf8 t.version ≡ true
  pub params : Entries none t.params
  pub params_length : length t.params < 2 ^ 64
  pub consumed : length t.consumed ≡ 32
  pub grammar : is_valid_transform_name t.name ≡ true
  pub has_version : 0 < length t.version

-- Every well-formed transform record is read back from what `encode` writes for it, if that is shorter than 2 ^ 64 bytes; no
-- byte more is taken.
pub decode-encode_transform_record :
    (t : TransformRecord) → IsWf t → Fits (encode t) → Reads decode (encode t) t
unfolding decode encode
decode-encode_transform_record t wf fits =
    Reads-last (record_fields "TransformRecord" handle start) _
      (record_fields-record_bytes "TransformRecord" handle
        (Handles-field handle 0 1 (t.name) (omega arith) (omega arith)
          (λ _. Reads-last (text _) _ (Reads-text t.name wf.name) (Reads-pure _))
          (Handles-field handle 2 2 (t.version) (omega arith) (omega arith)
            (λ _. Reads-last (text _) _ (Reads-text t.version wf.version) (Reads-pure _))
            (Handles-list handle 3 3 t.params map_value
              (λ x. record {
                name = some t.name;
                version = some t.version;
                params = x;
                consumed = none;
              })
              (omega arith) (omega arith)
              (λ ne fits.
                Reads-last read_map _ (read_map-map_value t.params wf.params_length wf.params fits)
                  (Reads-last (non_empty_list _ t.params) _ (Reads-non_empty _ t.params ne)
                    (Reads-pure _)))
              (Handles-field handle 4 4 (t.consumed) (omega arith) (omega arith)
                (λ _. Reads-last raw32 _ (Reads-raw32 t.consumed wf.consumed) (Reads-pure _))
                (done 5 _)))))
        fits)
      (Reads-then (ensure (is_valid_transform_name t.name) _) _ (Reads-ensure _ _ wf.grammar) (
        Reads-then (ensure (ltb 0 (length t.version)) _) _
          (Reads-ensure _ _ (lt→ltb 0 (length t.version) wf.has_version)) (Reads-pure t)))
