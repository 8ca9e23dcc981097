-- ===== src/Ir/Model/DropRecord.antt =====
-- model.rs: `DropRecord`, one recorded drop.
use brygge.Prelude.{ℕ, ◌<◌, ◌^◌, ◌≡◌, Bool, true, false, not, ◌||◌, arith, ◌==◌, if◌then◌else◌}
use brygge.Prelude.{[], ◌∷◌, Option, none, some, Bytes}
use brygge.Prelude.Utf8.{is_utf8}
use brygge.Ir.Error.{Error, non_canonical}
use brygge.Ir.Canon.Writer.{field, in_turn, optional, record_bytes, uvarint_value}
use brygge.Ir.Canon.Reader.{
  Read, Handler, ◌>>=◌, ◌>>◌, pure, ensure, required, recognized, declined, text, uvarint,
  record_fields,
}
use brygge.Ir.Canon.Varint.{uvarint-uvarint_value}
use brygge.Ir.Canon.Reads.{Reads, Reads-then, Reads-last, Reads-pure, Reads-ensure, Reads-text}
use brygge.Ir.Canon.Lists.{Fits}
use brygge.Ir.Canon.Records.{done, Handles-field, Handles-optional, record_fields-record_bytes}
use brygge.Ir.Model.LossClass
use brygge.Ir.Model.LossClass.{LossClass}
use brygge.Ir.Model.LossClass.{representation, advisory_unreliable, transform}
use brygge.Ir.Model.Grammar.{is_valid_transform_drop_what}

pub record DropRecord : Type 0 where
  pub class : LossClass
  pub what : Bytes
  pub reason : Bytes
  pub step : Option ℕ

unfoldable pub is_transform : LossClass → Bool
is_transform transform = true
is_transform c = false

unfoldable pub is_some : Option ℕ → Bool
is_some (some n) = true
is_some none = false

unfoldable pub encode : DropRecord → Bytes
encode t = record_bytes (
    in_turn (
      field 1 true (LossClass.encode t.class)
      ∷ field 2 true (t.what)
      ∷ field 3 true (t.reason)
      ∷ optional (λ x. field 4 true (uvarint_value x)) t.step
      ∷ []))

record Vars : Type 0 where
  class : Option LossClass
  what : Option Bytes
  reason : Option Bytes
  step : Option ℕ

handle : Handler Vars
handle s id len =
    if id == 1
    then (do x ← LossClass.decode; recognized (record s { class = some x }))
    else if id == 2
    then (do x ← text len; recognized (record s { what = some x }))
    else if id == 3
    then (do x ← text len; recognized (record s { reason = some x }))
    else if id == 4
    then (do x ← uvarint; recognized (record s { step = some x }))
    else declined s

abbrev start : Vars
start = record { class = none; what = none; reason = none; step = none }

unfoldable pub decode : Read DropRecord
unfolding handle
decode = do
  s ← record_fields "DropRecord" handle start
  class ← required s.class (non_canonical "DropRecord missing field 1 (class)")
  ensure (not (is_transform class) || is_some s.step)
      (non_canonical "DropRecord.class is Transform but field 4 (step) is missing")
  ensure (is_transform class || not (is_some s.step))
      (non_canonical "DropRecord field 4 (step) is present but class is not Transform")
  what ← required s.what (non_canonical "DropRecord missing field 2 (what)")
  ensure (not (is_transform class) || is_valid_transform_drop_what what)
      (Error.decode "DropRecord.what does not match the Transform-drop grammar")
  reason ← required s.reason (non_canonical "DropRecord missing field 3 (reason)")
  pure (record { class = class; what = what; reason = reason; step = s.step })

-- The texts are well formed, exactly a transform's drop names a step, and what it names has the grammar.
pub record IsWf (t : DropRecord) : Type 0 where
  pub class : LossClass.IsWf t.class
  pub what : is_utf8 t.what ≡ true
  pub reason : is_utf8 t.reason ≡ true
  pub step : (x : ℕ) → t.step ≡ some x → x < 2 ^ 64
  pub has_step : is_transform t.class ≡ is_some t.step
  pub grammar : (not (is_transform t.class) || is_valid_transform_drop_what t.what) ≡ true

-- Every well-formed drop is read back from what `encode` writes for it, if that is shorter than 2 ^ 64 bytes; no
-- byte more is taken.
pub decode-encode_drop_record :
    (t : DropRecord) → IsWf t → Fits (encode t) → Reads decode (encode t) t
unfolding decode encode
decode-encode_drop_record t wf fits =
    Reads-last (record_fields "DropRecord" handle start) _
      (record_fields-record_bytes "DropRecord" handle
        (Handles-field handle 0 1 (LossClass.encode t.class) (omega arith) (omega arith)
          (λ fits.
            Reads-last LossClass.decode _ (LossClass.decode-encode_loss_class t.class wf.class fits)
              (Reads-pure _))
          (Handles-field handle 2 2 (t.what) (omega arith) (omega arith)
            (λ _. Reads-last (text _) _ (Reads-text t.what wf.what) (Reads-pure _))
            (Handles-field handle 3 3 (t.reason) (omega arith) (omega arith)
              (λ _. Reads-last (text _) _ (Reads-text t.reason wf.reason) (Reads-pure _))
              (Handles-optional handle 4 4 t.step (λ x. uvarint_value x)
                (λ x. record {
                  class = some t.class;
                  what = some t.what;
                  reason = some t.reason;
                  step = x;
                })
                (omega arith) (omega arith)
                (λ x q _.
                  Reads-last uvarint _ (uvarint-uvarint_value x (wf.step x q)) (Reads-pure _))
                (done 5 _)))))
        fits)
      (Reads-then (ensure (not (is_transform t.class) || is_some t.step) _) _
        (Reads-ensure _ _ (ground (arith, wf.has_step)))
        (Reads-then (ensure (is_transform t.class || not (is_some t.step)) _) _
          (Reads-ensure _ _ (ground (arith, wf.has_step)))
          (Reads-then (ensure (not (is_transform t.class) || is_valid_transform_drop_what t.what) _)
            _ (Reads-ensure _ _ wf.grammar) (Reads-pure t))))
