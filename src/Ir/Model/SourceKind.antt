-- ===== src/Ir/Model/SourceKind.antt =====
-- model.rs: `SourceKind`, the source system.
use brygge.Prelude.{
  ℕ, ◌≡◌, true, arith, ◌==◌, leb, if◌then◌else◌, [], ◌++◌, none, Bytes, length-append,
}
use brygge.Prelude.Utf8.{is_utf8}
use brygge.Ir.Error.{Error, non_canonical}
use brygge.Ir.Canon.Writer.{Fields, field, record_bytes, uvarint_value}
use brygge.Ir.Canon.Reader.{Read, ◌>>=◌, ◌>>◌, pure, fail, required, uvarint, record_fields}
use brygge.Ir.Canon.Reads.{Reads, Reads-bind, Reads-pure}
use brygge.Ir.Canon.Varint.{uvarint-uvarint_value}
use brygge.Ir.Canon.Lists.{Fits}
use brygge.Ir.Model.Variants.{decline, label_handle, Reads-empty, Reads-plain, Reads-label}

pub data SourceKind : Type 0 where
  git hg svn cvs : SourceKind
  other : Bytes → SourceKind

unfoldable pub variant : SourceKind → ℕ
variant git = 0
variant hg = 1
variant svn = 2
variant cvs = 3
variant (other label) = 4

label_fields : SourceKind → Fields
label_fields (other label) = field 1 true label
label_fields k = []

unfoldable pub encode : SourceKind → Bytes
unfolding variant label_fields
encode k = uvarint_value (variant k) ++ record_bytes (label_fields k)

-- The variant of a number up to 3.
plain : ℕ → SourceKind
plain v = if v == 0 then git else if v == 1 then hg else if v == 2 then svn else cvs

unfoldable pub decode : Read SourceKind
unfolding plain
decode = do
  v ← uvarint
  if leb v 3
      then (do record_fields "SourceKind" decline tt; pure (plain v))
      else if v == 4
      then (do
        s ← record_fields "SourceKind::Other" label_handle none
        label ← required s (non_canonical "SourceKind::Other missing field 1 (label)")
        pure (other label))
      else fail (Error.decode "unknown SourceKind variant")

-- A label is a text.
abbrev pub IsWf : SourceKind → Type 0
IsWf (other label) = is_utf8 label ≡ true
IsWf k = Unit

-- Every kind is read back from what `encode` writes for it.
pub decode-encode_source_kind :
    (k : SourceKind) → IsWf k → Fits (encode k) → Reads decode (encode k) k
unfolding decode encode
decode-encode_source_kind git wf fits =
    Reads-plain 0 _ (omega arith) (Reads-empty "SourceKind" (λ _. pure git) (Reads-pure git))
decode-encode_source_kind hg wf fits =
    Reads-plain 1 _ (omega arith) (Reads-empty "SourceKind" (λ _. pure hg) (Reads-pure hg))
decode-encode_source_kind svn wf fits =
    Reads-plain 2 _ (omega arith) (Reads-empty "SourceKind" (λ _. pure svn) (Reads-pure svn))
decode-encode_source_kind cvs wf fits =
    Reads-plain 3 _ (omega arith) (Reads-empty "SourceKind" (λ _. pure cvs) (Reads-pure cvs))
decode-encode_source_kind (other label) wf fits =
    Reads-bind uvarint _ (uvarint-uvarint_value 4 (omega arith)) (
      Reads-label "SourceKind::Other" _ (λ x. pure (other x)) label wf
        (omega (arith, length-append (uvarint_value 4) (record_bytes (field 1 true label))))
        (Reads-pure (other label)))
