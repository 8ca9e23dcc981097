-- ===== src/Ir/Model/Identity.antt =====
-- model.rs: `Identity`, the name and the email that the source claims.
use brygge.Prelude.{◌≡◌, true, arith, ◌==◌, if◌then◌else◌}
use brygge.Prelude.{[], ◌∷◌, Option, none, some, Bytes}
use brygge.Ir.Error.{non_canonical}
use brygge.Ir.Canon.Writer.{field, in_turn, optional, record_bytes}
use brygge.Ir.Canon.Reader.{
  Read, Handler, ◌>>=◌, pure, required, recognized, declined, record_fields,
}
use brygge.Ir.Canon.Reads.{Reads, Reads-last, Reads-pure}
use brygge.Ir.Canon.Lists.{Fits}
use brygge.Ir.Canon.Records.{done, Handles-field, Handles-optional, record_fields-record_bytes}
use brygge.Ir.Model.Text
use brygge.Ir.Model.Text.{Text}

pub record Identity : Type 0 where
  pub name : Text
  pub email : Option Text

unfoldable pub encode : Identity → Bytes
encode t = record_bytes (
    in_turn (
      field 1 true (Text.encode t.name)
      ∷ optional (λ x. field 2 true (Text.encode x)) t.email
      ∷ []))

record Vars : Type 0 where
  name : Option Text
  email : Option Text

handle : Handler Vars
handle s id len =
    if id == 1
    then (do x ← Text.decode; recognized (record s { name = some x }))
    else if id == 2
    then (do x ← Text.decode; recognized (record s { email = some x }))
    else declined s

abbrev start : Vars
start = record { name = none; email = none }

unfoldable pub decode : Read Identity
unfolding handle
decode = do
  s ← record_fields "Identity" handle start
  name ← required s.name (non_canonical "Identity missing field 1 (name)")
  pure (record { name = name; email = s.email })

-- The texts are well formed.
pub record IsWf (t : Identity) : Type 0 where
  pub name : Text.IsWf t.name
  pub email : (x : Text) → t.email ≡ some x → Text.IsWf x

-- Every well-formed identity is read back from what `encode` writes for it, if that is shorter than 2 ^ 64 bytes; no
-- byte more is taken.
pub decode-encode_identity : (t : Identity) → IsWf t → Fits (encode t) → Reads decode (encode t) t
unfolding decode encode
decode-encode_identity t wf fits =
    Reads-last (record_fields "Identity" handle start) _
      (record_fields-record_bytes "Identity" handle
        (Handles-field handle 0 1 (Text.encode t.name) (omega arith) (omega arith)
          (λ fits.
            Reads-last Text.decode _ (Text.decode-encode_text t.name wf.name fits) (Reads-pure _))
          (Handles-optional handle 2 2 t.email (λ x. Text.encode x)
            (λ x. record { name = some t.name; email = x }) (omega arith) (omega arith)
            (λ x q fits.
              Reads-last Text.decode _ (Text.decode-encode_text x (wf.email x q) fits)
                (Reads-pure _))
            (done 3 _)))
        fits)
      (Reads-pure t)
