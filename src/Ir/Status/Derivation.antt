-- ===== src/Ir/Status/Derivation.antt =====
-- status.rs: `Derivation`, the record of an inference.
use brygge.Prelude.{ℕ, ◌<◌, ◌≤◌, ◌^◌, ◌≡◌, true, arith, ◌==◌, ltb, leb, if◌then◌else◌}
use brygge.Prelude.{List, [], ◌∷◌, Option, none, some, Bytes, length}
use brygge.Prelude.Utf8.{is_utf8}
use brygge.Ir.Error.{non_canonical}
use brygge.Ir.Canon.Writer.{
  field, in_turn, optional, unless_empty, record_bytes, map_value, uvarint_value,
}
use brygge.Ir.Canon.Reader.{
  Read, Handler, ◌>>=◌, ◌>>◌, pure, ensure, required, recognized, declined, text, uvarint, read_map,
  record_fields,
}
use brygge.Ir.Canon.Varint.{uvarint-uvarint_value}
use brygge.Ir.Canon.Reads.{Reads, Reads-then, Reads-last, Reads-pure, Reads-ensure, Reads-text}
use brygge.Ir.Canon.Lists.{Fits, Entries, read_map-map_value}
use brygge.Ir.Canon.Records.{
  done, Handles-field, Handles-optional, Handles-list, record_fields-record_bytes,
}
use brygge.Ir.Model.Checks.{non_empty_list, Reads-non_empty}
use brygge.Ir.Status.DerivationKind
use brygge.Ir.Status.DerivationKind.{DerivationKind}
use brygge.Prelude.{le→leb}

pub record Derivation : Type 0 where
  pub kind : DerivationKind
  pub by : Bytes
  pub decoder_version : Bytes
  pub params : List (Bytes × Bytes)
  pub confidence : Option ℕ

-- The value of field 5: a u8, and at most 100.
unfoldable pub read_confidence : Read ℕ
read_confidence = do
  c ← uvarint
  ensure (ltb c (2 ^ 8)) (non_canonical "confidence exceeds 100")
  ensure (leb c 100) (non_canonical "confidence exceeds 100")
  pure c

read_confidence_lem : (c : ℕ) → c ≤ 100 → Reads read_confidence (uvarint_value c) c
unfolding read_confidence
read_confidence_lem c h = Reads-last uvarint _ (uvarint-uvarint_value c (omega arith)) (
    Reads-then (ensure (ltb c (2 ^ 8)) _) _ (Reads-ensure _ _ (ground arith))
      (Reads-then (ensure (leb c 100) _) _ (Reads-ensure _ _ (le→leb c 100 h)) (Reads-pure c)))

unfoldable pub encode : Derivation → Bytes
encode t = record_bytes (
    in_turn (
      field 1 true (DerivationKind.encode t.kind)
      ∷ field 2 true (t.by)
      ∷ field 3 true (t.decoder_version)
      ∷ unless_empty (λ x. field 4 true (map_value x)) t.params
      ∷ optional (λ x. field 5 true (uvarint_value x)) t.confidence
      ∷ []))

record Vars : Type 0 where
  kind : Option DerivationKind
  by : Option Bytes
  decoder_version : Option Bytes
  params : List (Bytes × Bytes)
  confidence : Option ℕ

handle : Handler Vars
handle s id len =
    if id == 1
    then (do x ← DerivationKind.decode; recognized (record s { kind = some x }))
    else if id == 2
    then (do x ← text len; recognized (record s { by = some x }))
    else if id == 3
    then (do x ← text len; recognized (record s { decoder_version = some x }))
    else if id == 4
    then (do
      x ← read_map
      non_empty_list "Derivation.params encoded but empty" x
      recognized (record s { params = x }))
    else if id == 5
    then (do x ← read_confidence; recognized (record s { confidence = some x }))
    else declined s

abbrev start : Vars
start = record { kind = none; by = none; decoder_version = none; params = []; confidence = none }

unfoldable pub decode : Read Derivation
unfolding handle
decode = do
  s ← record_fields "Derivation" handle start
  kind ← required s.kind (non_canonical "Derivation missing field 1 (kind)")
  by ← required s.by (non_canonical "Derivation missing field 2 (by)")
  decoder_version ←
      required s.decoder_version (non_canonical "Derivation missing field 3 (decoder_version)")
  pure (record {
    kind = kind;
    by = by;
    decoder_version = decoder_version;
    params = s.params;
    confidence = s.confidence;
  })

-- The texts are well formed, the parameters are in the order of their keys, and the confidence is a percentage.
pub record IsWf (t : Derivation) : Type 0 where
  pub kind : DerivationKind.IsWf t.kind
  pub by : is_utf8 t.by ≡ true
  pub decoder_version : is_utf8 t.decoder_version ≡ true
  pub params : Entries none t.params
  pub params_length : length t.params < 2 ^ 64
  pub confidence : (x : ℕ) → t.confidence ≡ some x → x ≤ 100

-- Every well-formed derivation is read back from what `encode` writes for it, if that is shorter than 2 ^ 64
-- bytes; no byte more is taken.
pub decode-encode_derivation :
    (t : Derivation) → IsWf t → Fits (encode t) → Reads decode (encode t) t
unfolding decode encode
decode-encode_derivation t wf fits =
    Reads-last (record_fields "Derivation" handle start) _
      (record_fields-record_bytes "Derivation" handle
        (Handles-field handle 0 1 (DerivationKind.encode t.kind) (omega arith) (omega arith)
          (λ fits.
            Reads-last DerivationKind.decode _
              (DerivationKind.decode-encode_derivation_kind t.kind wf.kind fits) (Reads-pure _))
          (Handles-field handle 2 2 (t.by) (omega arith) (omega arith)
            (λ _. Reads-last (text _) _ (Reads-text t.by wf.by) (Reads-pure _))
            (Handles-field handle 3 3 (t.decoder_version) (omega arith) (omega arith)
              (λ _.
                Reads-last (text _) _ (Reads-text t.decoder_version wf.decoder_version)
                  (Reads-pure _))
              (Handles-list handle 4 4 t.params map_value
                (λ x. record {
                  kind = some t.kind;
                  by = some t.by;
                  decoder_version = some t.decoder_version;
                  params = x;
                  confidence = none;
                })
                (omega arith) (omega arith)
                (λ ne fits.
                  Reads-last read_map _
                    (read_map-map_value t.params wf.params_length wf.params fits)
                    (Reads-last (non_empty_list _ t.params) _ (Reads-non_empty _ t.params ne)
                      (Reads-pure _)))
                (Handles-optional handle 5 5 t.confidence (λ x. uvarint_value x)
                  (λ x. record {
                    kind = some t.kind;
                    by = some t.by;
                    decoder_version = some t.decoder_version;
                    params = t.params;
                    confidence = x;
                  })
                  (omega arith) (omega arith)
                  (λ x q _.
                    Reads-last read_confidence _ (read_confidence_lem x (wf.confidence x q))
                      (Reads-pure _))
                  (done 6 _))))))
        fits)
      (Reads-pure t)
