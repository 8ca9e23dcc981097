-- ===== src/Ir/Model/RefKind.antt =====
-- model.rs: `RefKind`, the kind of a ref pointer.
use brygge.Prelude.{
  ℕ, ◌≡◌, true, arith, ◌==◌, leb, if◌then◌else◌, [], ◌++◌, none, Bytes, length-append,
}
use brygge.Prelude.Utf8.{is_utf8}
use brygge.Ir.Error.{Error, non_canonical}
use brygge.Ir.Canon.Writer.{Fields, field, record_bytes, uvarint_value}
use brygge.Ir.Canon.Reader.{Read, ◌>>=◌, ◌>>◌, pure, fail, required, uvarint, record_fields}
use brygge.Ir.Canon.Reads.{Reads, Reads-bind, Reads-pure}
use brygge.Ir.Canon.Varint.{uvarint-uvarint_value}
use brygge.Ir.Canon.Lists.{Fits}
use brygge.Ir.Model.Variants.{decline, label_handle, Reads-empty, Reads-plain, Reads-label}

pub data RefKind : Type 0 where
  branch tag bookmark named_branch : RefKind
  other : Bytes → RefKind

unfoldable pub variant : RefKind → ℕ
variant branch = 0
variant tag = 1
variant bookmark = 2
variant named_branch = 3
variant (other label) = 4

label_fields : RefKind → Fields
label_fields (other label) = field 1 true label
label_fields k = []

unfoldable pub encode : RefKind → Bytes
unfolding variant label_fields
encode k = uvarint_value (variant k) ++ record_bytes (label_fields k)

-- The variant of a number up to 3.
plain : ℕ → RefKind
plain v =
    if v == 0 then branch else if v == 1 then tag else if v == 2 then bookmark else named_branch

unfoldable pub decode : Read RefKind
unfolding plain
decode = do
  v ← uvarint
  if leb v 3
      then (do record_fields "RefKind" decline tt; pure (plain v))
      else if v == 4
      then (do
        s ← record_fields "RefKind::Other" label_handle none
        label ← required s (non_canonical "RefKind::Other missing field 1 (label)")
        pure (other label))
      else fail (Error.decode "unknown RefKind variant")

-- A label is a text.
abbrev pub IsWf : RefKind → Type 0
IsWf (other label) = is_utf8 label ≡ true
IsWf k = Unit

-- Every kind is read back from what `encode` writes for it.
pub decode-encode_ref_kind : (k : RefKind) → IsWf k → Fits (encode k) → Reads decode (encode k) k
unfolding decode encode
decode-encode_ref_kind branch wf fits =
    Reads-plain 0 _ (omega arith) (Reads-empty "RefKind" (λ _. pure branch) (Reads-pure branch))
decode-encode_ref_kind tag wf fits =
    Reads-plain 1 _ (omega arith) (Reads-empty "RefKind" (λ _. pure tag) (Reads-pure tag))
decode-encode_ref_kind bookmark wf fits =
    Reads-plain 2 _ (omega arith) (Reads-empty "RefKind" (λ _. pure bookmark) (Reads-pure bookmark))
decode-encode_ref_kind named_branch wf fits =
    Reads-plain 3 _ (omega arith)
      (Reads-empty "RefKind" (λ _. pure named_branch) (Reads-pure named_branch))
decode-encode_ref_kind (other label) wf fits =
    Reads-bind uvarint _ (uvarint-uvarint_value 4 (omega arith)) (
      Reads-label "RefKind::Other" _ (λ x. pure (other x)) label wf
        (omega (arith, length-append (uvarint_value 4) (record_bytes (field 1 true label))))
        (Reads-pure (other label)))
