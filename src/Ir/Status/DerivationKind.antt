-- ===== src/Ir/Status/DerivationKind.antt =====
-- status.rs: `DerivationKind`, the taxonomy of derivations.
use brygge.Prelude.{
  ℕ, ◌≡◌, true, arith, ◌==◌, leb, if◌then◌else◌, [], ◌++◌, none, Bytes, length-append,
}
use brygge.Prelude.Utf8.{is_utf8}
use brygge.Ir.Error.{Error, non_canonical}
use brygge.Ir.Canon.Writer.{Fields, field, record_bytes, uvarint_value}
use brygge.Ir.Canon.Reader.{Read, ◌>>=◌, ◌>>◌, pure, fail, required, uvarint, record_fields}
use brygge.Ir.Canon.Reads.{Reads, Reads-bind, Reads-pure}
use brygge.Ir.Canon.Varint.{uvarint-uvarint_value}
use brygge.Ir.Canon.Lists.{Fits}
use brygge.Ir.Model.Variants.{decline, label_handle, Reads-empty, Reads-plain, Reads-label}

pub data DerivationKind : Type 0 where
  inferred_rename reconstructed_changeset reconstructed_branch inferred_merge normalized_metadata :
      DerivationKind
  other : Bytes → DerivationKind

unfoldable pub variant : DerivationKind → ℕ
variant inferred_rename = 0
variant reconstructed_changeset = 1
variant reconstructed_branch = 2
variant inferred_merge = 3
variant normalized_metadata = 4
variant (other note) = 5

label_fields : DerivationKind → Fields
label_fields (other note) = field 1 true note
label_fields k = []

unfoldable pub encode : DerivationKind → Bytes
unfolding variant label_fields
encode k = uvarint_value (variant k) ++ record_bytes (label_fields k)

-- The variant of a number up to 4.
plain : ℕ → DerivationKind
plain v =
    if v == 0
    then inferred_rename
    else if v == 1
    then reconstructed_changeset
    else if v == 2
    then reconstructed_branch
    else if v == 3
    then inferred_merge
    else normalized_metadata

unfoldable pub decode : Read DerivationKind
unfolding plain
decode = do
  v ← uvarint
  if leb v 4
      then (do record_fields "DerivationKind" decline tt; pure (plain v))
      else if v == 5
      then (do
        s ← record_fields "DerivationKind::Other" label_handle none
        note ← required s (non_canonical "DerivationKind::Other missing field 1 (note)")
        pure (other note))
      else fail (Error.decode "unknown DerivationKind variant")

-- A label is a text.
abbrev pub IsWf : DerivationKind → Type 0
IsWf (other note) = is_utf8 note ≡ true
IsWf k = Unit

-- Every kind is read back from what `encode` writes for it.
pub decode-encode_derivation_kind :
    (k : DerivationKind) → IsWf k → Fits (encode k) → Reads decode (encode k) k
unfolding decode encode
decode-encode_derivation_kind inferred_rename wf fits =
    Reads-plain 0 _ (omega arith)
      (Reads-empty "DerivationKind" (λ _. pure inferred_rename) (Reads-pure inferred_rename))
decode-encode_derivation_kind reconstructed_changeset wf fits = Reads-plain 1 _ (omega arith) (
    Reads-empty "DerivationKind" (λ _. pure reconstructed_changeset)
      (Reads-pure reconstructed_changeset))
decode-encode_derivation_kind reconstructed_branch wf fits = Reads-plain 2 _ (omega arith) (
    Reads-empty "DerivationKind" (λ _. pure reconstructed_branch) (Reads-pure reconstructed_branch))
decode-encode_derivation_kind inferred_merge wf fits =
    Reads-plain 3 _ (omega arith)
      (Reads-empty "DerivationKind" (λ _. pure inferred_merge) (Reads-pure inferred_merge))
decode-encode_derivation_kind normalized_metadata wf fits =
    Reads-plain 4 _ (omega arith) (
      Reads-empty "DerivationKind" (λ _. pure normalized_metadata) (Reads-pure normalized_metadata))
decode-encode_derivation_kind (other note) wf fits =
    Reads-bind uvarint _ (uvarint-uvarint_value 5 (omega arith)) (
      Reads-label "DerivationKind::Other" _ (λ x. pure (other x)) note wf
        (omega (arith, length-append (uvarint_value 5) (record_bytes (field 1 true note))))
        (Reads-pure (other note)))
