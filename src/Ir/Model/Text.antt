-- ===== src/Ir/Model/Text.antt =====
-- model.rs: `Text`, text as the source's bytes with the encoding that the source declared.
use brygge.Prelude.{◌≡◌, true, arith, ◌==◌, if◌then◌else◌, [], ◌∷◌, Option, none, some, Bytes}
use brygge.Prelude.Utf8.{is_utf8}
use brygge.Ir.Error.{non_canonical}
use brygge.Ir.Canon.Writer.{field, in_turn, optional, record_bytes}
use brygge.Ir.Canon.Reader.{
  Read, Handler, ◌>>=◌, pure, required, recognized, declined, text, bytes_exact, record_fields,
}
use brygge.Ir.Canon.Reads.{Reads, Reads-last, Reads-pure, Reads-text, Reads-bytes_exact}
use brygge.Ir.Canon.Lists.{Fits}
use brygge.Ir.Canon.Records.{done, Handles-field, Handles-optional, record_fields-record_bytes}

pub record Text : Type 0 where
  pub bytes : Bytes
  pub encoding : Option Bytes

unfoldable pub encode : Text → Bytes
encode t =
    record_bytes
      (in_turn (field 1 true t.bytes ∷ optional (λ enc. field 2 true enc) t.encoding ∷ []))

record Vars : Type 0 where
  bytes : Option Bytes
  encoding : Option Bytes

handle : Handler Vars
handle s id len =
    if id == 1
    then (do b ← bytes_exact len; recognized (record s { bytes = some b }))
    else if id == 2
    then (do e ← text len; recognized (record s { encoding = some e }))
    else declined s

unfoldable pub decode : Read Text
unfolding handle
decode = do
  s ← record_fields "Text" handle (record { bytes = none; encoding = none })
  b ← required s.bytes (non_canonical "Text missing field 1 (bytes)")
  pure (record { bytes = b; encoding = s.encoding })

-- The declared encoding is a text.
pub record IsWf (t : Text) : Type 0 where
  pub encoding : (e : Bytes) → t.encoding ≡ some e → is_utf8 e ≡ true

-- Every well-formed text is read back from what `encode` writes for it, if that is shorter than 2 ^ 64 bytes; no
-- byte more is taken.
pub decode-encode_text : (t : Text) → IsWf t → Fits (encode t) → Reads decode (encode t) t
unfolding decode encode
decode-encode_text t wf fits =
    Reads-last (record_fields "Text" handle _) _
      (record_fields-record_bytes "Text" handle
        (Handles-field handle 0 1 t.bytes (omega arith) (omega arith)
          (λ _. Reads-last (bytes_exact _) _ (Reads-bytes_exact t.bytes) (Reads-pure _))
          (Handles-optional handle 2 2 t.encoding (λ e. e)
            (λ e. record { bytes = some t.bytes; encoding = e }) (omega arith) (omega arith)
            (λ e q _. Reads-last (text _) _ (Reads-text e (wf.encoding e q)) (Reads-pure _))
            (done 3 _)))
        fits)
      (Reads-pure t)
