-- ===== src/Ir/Model/LossClass.antt =====
-- model.rs: `LossClass`, the class of a dropped datum.
use brygge.Prelude.{ℕ, arith, ◌==◌, if◌then◌else◌, [], ◌++◌, Bytes}
use brygge.Ir.Error.{Error}
use brygge.Ir.Canon.Writer.{record_bytes, uvarint_value}
use brygge.Ir.Canon.Reader.{Read, ◌>>=◌, ◌>>◌, pure, fail, uvarint, record_fields}
use brygge.Ir.Canon.Reads.{Reads, Reads-pure}
use brygge.Ir.Canon.Lists.{Fits}
use brygge.Ir.Model.Variants.{decline, Reads-empty, Reads-plain}

pub data LossClass : Type 0 where
  representation advisory_unreliable other transform : LossClass

unfoldable pub variant : LossClass → ℕ
variant representation = 0
variant advisory_unreliable = 1
variant other = 2
variant transform = 3

unfoldable pub encode : LossClass → Bytes
unfolding variant
encode k = uvarint_value (variant k) ++ record_bytes []

of_variant : ℕ → Read LossClass
of_variant v =
    if v == 0
    then pure representation
    else if v == 1
    then pure advisory_unreliable
    else if v == 2
    then pure other
    else if v == 3
    then pure transform
    else fail (Error.decode "unknown LossClass variant")

unfoldable pub decode : Read LossClass
unfolding of_variant
decode = do v ← uvarint; record_fields "LossClass" decline tt; of_variant v

abbrev pub IsWf : LossClass → Type 0
IsWf k = Unit

-- Every value is read back from what `encode` writes for it.
pub decode-encode_loss_class :
    (k : LossClass) → IsWf k → Fits (encode k) → Reads decode (encode k) k
unfolding decode encode
decode-encode_loss_class representation wf fits =
    Reads-plain 0 _ (omega arith)
      (Reads-empty "LossClass" (λ _. of_variant 0) (Reads-pure representation))
decode-encode_loss_class advisory_unreliable wf fits =
    Reads-plain 1 _ (omega arith)
      (Reads-empty "LossClass" (λ _. of_variant 1) (Reads-pure advisory_unreliable))
decode-encode_loss_class other wf fits =
    Reads-plain 2 _ (omega arith) (Reads-empty "LossClass" (λ _. of_variant 2) (Reads-pure other))
decode-encode_loss_class transform wf fits =
    Reads-plain 3 _ (omega arith)
      (Reads-empty "LossClass" (λ _. of_variant 3) (Reads-pure transform))
