-- ===== src/Ir/Model/Extra.antt =====
-- model.rs: `Extra`, a labelled run of opaque bytes that the source carried.
use brygge.Prelude.{◌≡◌, true, arith, ◌==◌, if◌then◌else◌}
use brygge.Prelude.{[], ◌∷◌, Option, none, some, Bytes}
use brygge.Prelude.Utf8.{is_utf8}
use brygge.Ir.Error.{non_canonical}
use brygge.Ir.Canon.Writer.{field, in_turn, record_bytes}
use brygge.Ir.Canon.Reader.{
  Read, Handler, ◌>>=◌, pure, required, recognized, declined, text, bytes_exact, record_fields,
}
use brygge.Ir.Canon.Reads.{Reads, Reads-last, Reads-pure, Reads-text, Reads-bytes_exact}
use brygge.Ir.Canon.Lists.{Fits}
use brygge.Ir.Canon.Records.{done, Handles-field, record_fields-record_bytes}

pub record Extra : Type 0 where
  pub label : Bytes
  pub bytes : Bytes

unfoldable pub encode : Extra → Bytes
encode t = record_bytes (in_turn (field 1 true (t.label) ∷ field 2 true (t.bytes) ∷ []))

record Vars : Type 0 where
  label : Option Bytes
  bytes : Option Bytes

handle : Handler Vars
handle s id len =
    if id == 1
    then (do x ← text len; recognized (record s { label = some x }))
    else if id == 2
    then (do x ← bytes_exact len; recognized (record s { bytes = some x }))
    else declined s

abbrev start : Vars
start = record { label = none; bytes = none }

unfoldable pub decode : Read Extra
unfolding handle
decode = do
  s ← record_fields "Extra" handle start
  label ← required s.label (non_canonical "Extra missing field 1 (label)")
  bytes ← required s.bytes (non_canonical "Extra missing field 2 (bytes)")
  pure (record { label = label; bytes = bytes })

-- The label is a text.
pub record IsWf (t : Extra) : Type 0 where
  pub label : is_utf8 t.label ≡ true

-- What `encode` writes for a well-formed value, `decode` reads back, and it takes no byte more.
pub decode-encode_extra : (t : Extra) → IsWf t → Fits (encode t) → Reads decode (encode t) t
unfolding decode encode
decode-encode_extra t wf fits =
    Reads-last (record_fields "Extra" handle start) _
      (record_fields-record_bytes "Extra" handle
        (Handles-field handle 0 1 (t.label) (omega arith) (omega arith)
          (λ _. Reads-last (text _) _ (Reads-text t.label wf.label) (Reads-pure _))
          (Handles-field handle 2 2 (t.bytes) (omega arith) (omega arith)
            (λ _. Reads-last (bytes_exact _) _ (Reads-bytes_exact t.bytes) (Reads-pure _))
            (done 3 _)))
        fits)
      (Reads-pure t)
