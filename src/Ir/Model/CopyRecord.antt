-- ===== src/Ir/Model/CopyRecord.antt =====
-- model.rs: `CopyRecord`, a marked copy of a path of an earlier atom.
use brygge.Prelude.{◌≡◌, true, arith, ◌==◌, if◌then◌else◌}
use brygge.Prelude.{[], ◌∷◌, Option, none, some, Bytes, length}
use brygge.Prelude.Utf8.{is_utf8}
use brygge.Ir.Error.{non_canonical}
use brygge.Ir.Canon.Writer.{field, in_turn, record_bytes}
use brygge.Ir.Canon.Reader.{
  Read, Handler, ◌>>=◌, pure, required, recognized, declined, text, raw32, record_fields,
}
use brygge.Ir.Canon.Reads.{Reads, Reads-last, Reads-pure, Reads-text, Reads-raw32}
use brygge.Ir.Canon.Lists.{Fits}
use brygge.Ir.Canon.Records.{done, Handles-field, record_fields-record_bytes}
use brygge.Ir.Status.EpistemicStatus
use brygge.Ir.Status.EpistemicStatus.{EpistemicStatus}

pub record CopyRecord : Type 0 where
  pub from : Bytes
  pub from_atom : Bytes
  pub to : Bytes
  pub status : EpistemicStatus

unfoldable pub encode : CopyRecord → Bytes
encode t = record_bytes (
    in_turn (
      field 1 true (t.from)
      ∷ field 2 true (t.from_atom)
      ∷ field 3 true (t.to)
      ∷ field 4 true (EpistemicStatus.encode t.status)
      ∷ []))

record Vars : Type 0 where
  from : Option Bytes
  from_atom : Option Bytes
  to : Option Bytes
  status : Option EpistemicStatus

handle : Handler Vars
handle s id len =
    if id == 1
    then (do x ← text len; recognized (record s { from = some x }))
    else if id == 2
    then (do x ← raw32; recognized (record s { from_atom = some x }))
    else if id == 3
    then (do x ← text len; recognized (record s { to = some x }))
    else if id == 4
    then (do x ← EpistemicStatus.decode; recognized (record s { status = some x }))
    else declined s

abbrev start : Vars
start = record { from = none; from_atom = none; to = none; status = none }

unfoldable pub decode : Read CopyRecord
unfolding handle
decode = do
  s ← record_fields "CopyRecord" handle start
  from ← required s.from (non_canonical "CopyRecord missing field 1 (from)")
  from_atom ← required s.from_atom (non_canonical "CopyRecord missing field 2 (from_atom)")
  to ← required s.to (non_canonical "CopyRecord missing field 3 (to)")
  status ← required s.status (non_canonical "CopyRecord missing field 4 (status)")
  pure (record { from = from; from_atom = from_atom; to = to; status = status })

-- The paths are texts, the id has 32 bytes, and the status is well formed.
pub record IsWf (t : CopyRecord) : Type 0 where
  pub from : is_utf8 t.from ≡ true
  pub from_atom : length t.from_atom ≡ 32
  pub to : is_utf8 t.to ≡ true
  pub status : EpistemicStatus.IsWf t.status

-- Every well-formed copy record is read back from what `encode` writes for it, if that is shorter than 2 ^ 64 bytes; no
-- byte more is taken.
pub decode-encode_copy_record :
    (t : CopyRecord) → IsWf t → Fits (encode t) → Reads decode (encode t) t
unfolding decode encode
decode-encode_copy_record t wf fits =
    Reads-last (record_fields "CopyRecord" handle start) _
      (record_fields-record_bytes "CopyRecord" handle
        (Handles-field handle 0 1 (t.from) (omega arith) (omega arith)
          (λ _. Reads-last (text _) _ (Reads-text t.from wf.from) (Reads-pure _))
          (Handles-field handle 2 2 (t.from_atom) (omega arith) (omega arith)
            (λ _. Reads-last raw32 _ (Reads-raw32 t.from_atom wf.from_atom) (Reads-pure _))
            (Handles-field handle 3 3 (t.to) (omega arith) (omega arith)
              (λ _. Reads-last (text _) _ (Reads-text t.to wf.to) (Reads-pure _))
              (Handles-field handle 4 4 (EpistemicStatus.encode t.status) (omega arith)
                (omega arith)
                (λ fits.
                  Reads-last EpistemicStatus.decode _
                    (EpistemicStatus.decode-encode_epistemic_status t.status wf.status fits)
                    (Reads-pure _))
                (done 5 _)))))
        fits)
      (Reads-pure t)
