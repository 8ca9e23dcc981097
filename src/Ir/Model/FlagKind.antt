-- ===== src/Ir/Model/FlagKind.antt =====
-- model.rs: `FlagKind`, the kind of a flagged condition.
use brygge.Prelude.{ℕ, arith, ◌==◌, if◌then◌else◌, [], ◌++◌, Bytes}
use brygge.Ir.Error.{Error}
use brygge.Ir.Canon.Writer.{record_bytes, uvarint_value}
use brygge.Ir.Canon.Reader.{Read, ◌>>=◌, ◌>>◌, pure, fail, uvarint, record_fields}
use brygge.Ir.Canon.Reads.{Reads, Reads-pure}
use brygge.Ir.Canon.Lists.{Fits}
use brygge.Ir.Model.Variants.{decline, Reads-empty, Reads-plain}

pub data FlagKind : Type 0 where
  convention_violation below_confidence_floor : FlagKind

unfoldable pub variant : FlagKind → ℕ
variant convention_violation = 0
variant below_confidence_floor = 1

unfoldable pub encode : FlagKind → Bytes
unfolding variant
encode k = uvarint_value (variant k) ++ record_bytes []

of_variant : ℕ → Read FlagKind
of_variant v =
    if v == 0
    then pure convention_violation
    else if v == 1
    then pure below_confidence_floor
    else fail (Error.decode "unknown FlagKind variant")

unfoldable pub decode : Read FlagKind
unfolding of_variant
decode = do v ← uvarint; record_fields "FlagKind" decline tt; of_variant v

abbrev pub IsWf : FlagKind → Type 0
IsWf k = Unit

-- Every value is read back from what `encode` writes for it.
pub decode-encode_flag_kind : (k : FlagKind) → IsWf k → Fits (encode k) → Reads decode (encode k) k
unfolding decode encode
decode-encode_flag_kind convention_violation wf fits =
    Reads-plain 0 _ (omega arith)
      (Reads-empty "FlagKind" (λ _. of_variant 0) (Reads-pure convention_violation))
decode-encode_flag_kind below_confidence_floor wf fits =
    Reads-plain 1 _ (omega arith)
      (Reads-empty "FlagKind" (λ _. of_variant 1) (Reads-pure below_confidence_floor))
