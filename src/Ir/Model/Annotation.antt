-- ===== src/Ir/Model/Annotation.antt =====
-- model.rs: `Annotation`, the annotation that a ref carries.
use brygge.Prelude.{◌≡◌, true, arith, ◌==◌, if◌then◌else◌}
use brygge.Prelude.{[], ◌∷◌, Option, none, some, Bytes}
use brygge.Ir.Canon.Writer.{field, in_turn, optional, record_bytes}
use brygge.Ir.Canon.Reader.{Read, Handler, ◌>>=◌, pure, recognized, declined, record_fields}
use brygge.Ir.Canon.Reads.{Reads, Reads-last, Reads-pure}
use brygge.Ir.Canon.Lists.{Fits}
use brygge.Ir.Canon.Records.{done, Handles-optional, record_fields-record_bytes}
use brygge.Ir.Model.Identity
use brygge.Ir.Model.Identity.{Identity}
use brygge.Ir.Model.Time
use brygge.Ir.Model.Time.{Time}
use brygge.Ir.Model.Text
use brygge.Ir.Model.Text.{Text}

pub record Annotation : Type 0 where
  pub tagger : Option Identity
  pub time : Option Time
  pub message : Option Text

unfoldable pub encode : Annotation → Bytes
encode t = record_bytes (
    in_turn (
      optional (λ x. field 1 true (Identity.encode x)) t.tagger
      ∷ optional (λ x. field 2 true (Time.encode x)) t.time
      ∷ optional (λ x. field 3 true (Text.encode x)) t.message
      ∷ []))

record Vars : Type 0 where
  tagger : Option Identity
  time : Option Time
  message : Option Text

handle : Handler Vars
handle s id len =
    if id == 1
    then (do x ← Identity.decode; recognized (record s { tagger = some x }))
    else if id == 2
    then (do x ← Time.decode; recognized (record s { time = some x }))
    else if id == 3
    then (do x ← Text.decode; recognized (record s { message = some x }))
    else declined s

abbrev start : Vars
start = record { tagger = none; time = none; message = none }

unfoldable pub decode : Read Annotation
unfolding handle
decode = do
  s ← record_fields "Annotation" handle start
  pure (record { tagger = s.tagger; time = s.time; message = s.message })

-- Every part that is there is well formed.
pub record IsWf (t : Annotation) : Type 0 where
  pub tagger : (x : Identity) → t.tagger ≡ some x → Identity.IsWf x
  pub time : (x : Time) → t.time ≡ some x → Time.IsWf x
  pub message : (x : Text) → t.message ≡ some x → Text.IsWf x

-- Every well-formed annotation is read back from what `encode` writes for it, if that is shorter than 2 ^ 64 bytes; no
-- byte more is taken.
pub decode-encode_annotation :
    (t : Annotation) → IsWf t → Fits (encode t) → Reads decode (encode t) t
unfolding decode encode
decode-encode_annotation t wf fits =
    Reads-last (record_fields "Annotation" handle start) _
      (record_fields-record_bytes "Annotation" handle
        (Handles-optional handle 0 1 t.tagger (λ x. Identity.encode x)
          (λ x. record { tagger = x; time = none; message = none }) (omega arith) (omega arith)
          (λ x q fits.
            Reads-last Identity.decode _ (Identity.decode-encode_identity x (wf.tagger x q) fits)
              (Reads-pure _))
          (Handles-optional handle 2 2 t.time (λ x. Time.encode x)
            (λ x. record { tagger = t.tagger; time = x; message = none }) (omega arith)
            (omega arith)
            (λ x q fits.
              Reads-last Time.decode _ (Time.decode-encode_time x (wf.time x q) fits)
                (Reads-pure _))
            (Handles-optional handle 3 3 t.message (λ x. Text.encode x)
              (λ x. record { tagger = t.tagger; time = t.time; message = x }) (omega arith)
              (omega arith)
              (λ x q fits.
                Reads-last Text.decode _ (Text.decode-encode_text x (wf.message x q) fits)
                  (Reads-pure _))
              (done 4 _))))
        fits)
      (Reads-pure t)
