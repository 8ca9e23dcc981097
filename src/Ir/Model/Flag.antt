-- ===== src/Ir/Model/Flag.antt =====
-- model.rs: `Flag`, a condition that needs attention.
use brygge.Prelude.{ℕ, ◌<◌, ◌≤◌, ◌^◌, ◌≡◌, true, arith, ◌==◌, leb, if◌then◌else◌}
use brygge.Prelude.{[], ◌∷◌, Option, none, some, Bytes}
use brygge.Prelude.Utf8.{is_utf8}
use brygge.Ir.Error.{non_canonical}
use brygge.Ir.Canon.Writer.{field, in_turn, record_bytes, uvarint_value}
use brygge.Ir.Canon.Reader.{
  Read, Handler, ◌>>=◌, ◌>>◌, pure, ensure, required, recognized, declined, text, uvarint,
  record_fields,
}
use brygge.Ir.Canon.Varint.{uvarint-uvarint_value}
use brygge.Ir.Canon.Reads.{Reads, Reads-then, Reads-last, Reads-pure, Reads-ensure, Reads-text}
use brygge.Ir.Canon.Lists.{Fits}
use brygge.Ir.Canon.Records.{done, Handles-field, record_fields-record_bytes}
use brygge.Ir.Model.FlagKind
use brygge.Ir.Model.FlagKind.{FlagKind}
use brygge.Prelude.{le→leb}

pub record Flag : Type 0 where
  pub kind : FlagKind
  pub what : Bytes
  pub count : ℕ
  pub reason : Bytes

unfoldable pub encode : Flag → Bytes
encode t = record_bytes (
    in_turn (
      field 1 true (FlagKind.encode t.kind)
      ∷ field 2 true (t.what)
      ∷ field 3 true (uvarint_value t.count)
      ∷ field 4 true (t.reason)
      ∷ []))

record Vars : Type 0 where
  kind : Option FlagKind
  what : Option Bytes
  count : Option ℕ
  reason : Option Bytes

handle : Handler Vars
handle s id len =
    if id == 1
    then (do x ← FlagKind.decode; recognized (record s { kind = some x }))
    else if id == 2
    then (do x ← text len; recognized (record s { what = some x }))
    else if id == 3
    then (do x ← uvarint; recognized (record s { count = some x }))
    else if id == 4
    then (do x ← text len; recognized (record s { reason = some x }))
    else declined s

abbrev start : Vars
start = record { kind = none; what = none; count = none; reason = none }

unfoldable pub decode : Read Flag
unfolding handle
decode = do
  s ← record_fields "Flag" handle start
  count ← required s.count (non_canonical "Flag missing field 3 (count)")
  ensure (leb 1 count) (non_canonical "Flag.count must be at least 1")
  kind ← required s.kind (non_canonical "Flag missing field 1 (kind)")
  what ← required s.what (non_canonical "Flag missing field 2 (what)")
  reason ← required s.reason (non_canonical "Flag missing field 4 (reason)")
  pure (record { kind = kind; what = what; count = count; reason = reason })

-- The texts are well formed, and the count is at least 1.
pub record IsWf (t : Flag) : Type 0 where
  pub kind : FlagKind.IsWf t.kind
  pub what : is_utf8 t.what ≡ true
  pub count : t.count < 2 ^ 64
  pub reason : is_utf8 t.reason ≡ true
  pub positive : 1 ≤ t.count

-- Every well-formed flag is read back from what `encode` writes for it, if that is shorter than 2 ^ 64 bytes; no
-- byte more is taken.
pub decode-encode_flag : (t : Flag) → IsWf t → Fits (encode t) → Reads decode (encode t) t
unfolding decode encode
decode-encode_flag t wf fits =
    Reads-last (record_fields "Flag" handle start) _
      (record_fields-record_bytes "Flag" handle
        (Handles-field handle 0 1 (FlagKind.encode t.kind) (omega arith) (omega arith)
          (λ fits.
            Reads-last FlagKind.decode _ (FlagKind.decode-encode_flag_kind t.kind wf.kind fits)
              (Reads-pure _))
          (Handles-field handle 2 2 (t.what) (omega arith) (omega arith)
            (λ _. Reads-last (text _) _ (Reads-text t.what wf.what) (Reads-pure _))
            (Handles-field handle 3 3 (uvarint_value t.count) (omega arith) (omega arith)
              (λ _. Reads-last uvarint _ (uvarint-uvarint_value t.count wf.count) (Reads-pure _))
              (Handles-field handle 4 4 (t.reason) (omega arith) (omega arith)
                (λ _. Reads-last (text _) _ (Reads-text t.reason wf.reason) (Reads-pure _))
                (done 5 _)))))
        fits)
      (Reads-then (ensure (leb 1 t.count) _) _ (Reads-ensure _ _ (le→leb 1 t.count wf.positive))
        (Reads-pure t))
