-- ===== src/Ir/Model/RefRecord.antt =====
-- model.rs: `RefRecord`, a named pointer to an atom.
use brygge.Prelude.{◌≡◌, true, arith, ◌==◌, if◌then◌else◌}
use brygge.Prelude.{[], ◌∷◌, Option, none, some, Bytes, length}
use brygge.Prelude.Utf8.{is_utf8}
use brygge.Ir.Error.{non_canonical}
use brygge.Ir.Canon.Writer.{field, in_turn, optional, record_bytes}
use brygge.Ir.Canon.Reader.{
  Read, Handler, ◌>>=◌, pure, required, recognized, declined, text, raw32, record_fields,
}
use brygge.Ir.Canon.Reads.{Reads, Reads-last, Reads-pure, Reads-text, Reads-raw32}
use brygge.Ir.Canon.Lists.{Fits}
use brygge.Ir.Canon.Records.{done, Handles-field, Handles-optional, record_fields-record_bytes}
use brygge.Ir.Status.EpistemicStatus
use brygge.Ir.Status.EpistemicStatus.{EpistemicStatus}
use brygge.Ir.Model.RefKind
use brygge.Ir.Model.RefKind.{RefKind}
use brygge.Ir.Model.SourceIdentity
use brygge.Ir.Model.SourceIdentity.{SourceIdentity}
use brygge.Ir.Model.Annotation
use brygge.Ir.Model.Annotation.{Annotation}

pub record RefRecord : Type 0 where
  pub name : Bytes
  pub kind : RefKind
  pub target : Bytes
  pub status : EpistemicStatus
  pub source : Option SourceIdentity
  pub annotation : Option Annotation

unfoldable pub encode : RefRecord → Bytes
encode t = record_bytes (
    in_turn (
      field 1 true (t.name)
      ∷ field 2 true (RefKind.encode t.kind)
      ∷ field 3 true (t.target)
      ∷ field 4 true (EpistemicStatus.encode t.status)
      ∷ optional (λ x. field 5 true (SourceIdentity.encode x)) t.source
      ∷ optional (λ x. field 6 true (Annotation.encode x)) t.annotation
      ∷ []))

record Vars : Type 0 where
  name : Option Bytes
  kind : Option RefKind
  target : Option Bytes
  status : Option EpistemicStatus
  source : Option SourceIdentity
  annotation : Option Annotation

handle : Handler Vars
handle s id len =
    if id == 1
    then (do x ← text len; recognized (record s { name = some x }))
    else if id == 2
    then (do x ← RefKind.decode; recognized (record s { kind = some x }))
    else if id == 3
    then (do x ← raw32; recognized (record s { target = some x }))
    else if id == 4
    then (do x ← EpistemicStatus.decode; recognized (record s { status = some x }))
    else if id == 5
    then (do x ← SourceIdentity.decode; recognized (record s { source = some x }))
    else if id == 6
    then (do x ← Annotation.decode; recognized (record s { annotation = some x }))
    else declined s

abbrev start : Vars
start = record {
  name = none;
  kind = none;
  target = none;
  status = none;
  source = none;
  annotation = none;
}

unfoldable pub decode : Read RefRecord
unfolding handle
decode = do
  s ← record_fields "RefRecord" handle start
  name ← required s.name (non_canonical "RefRecord missing field 1 (name)")
  kind ← required s.kind (non_canonical "RefRecord missing field 2 (kind)")
  target ← required s.target (non_canonical "RefRecord missing field 3 (target)")
  status ← required s.status (non_canonical "RefRecord missing field 4 (status)")
  pure (record {
    name = name;
    kind = kind;
    target = target;
    status = status;
    source = s.source;
    annotation = s.annotation;
  })

-- The name is a text, the target has 32 bytes, and the other parts are well formed.
pub record IsWf (t : RefRecord) : Type 0 where
  pub name : is_utf8 t.name ≡ true
  pub kind : RefKind.IsWf t.kind
  pub target : length t.target ≡ 32
  pub status : EpistemicStatus.IsWf t.status
  pub source : (x : SourceIdentity) → t.source ≡ some x → SourceIdentity.IsWf x
  pub annotation : (x : Annotation) → t.annotation ≡ some x → Annotation.IsWf x

-- Every well-formed ref is read back from what `encode` writes for it, if that is shorter than 2 ^ 64 bytes; no
-- byte more is taken.
pub decode-encode_ref_record :
    (t : RefRecord) → IsWf t → Fits (encode t) → Reads decode (encode t) t
unfolding decode encode
decode-encode_ref_record t wf fits =
    Reads-last (record_fields "RefRecord" handle start) _
      (record_fields-record_bytes "RefRecord" handle
        (Handles-field handle 0 1 (t.name) (omega arith) (omega arith)
          (λ _. Reads-last (text _) _ (Reads-text t.name wf.name) (Reads-pure _))
          (Handles-field handle 2 2 (RefKind.encode t.kind) (omega arith) (omega arith)
            (λ fits.
              Reads-last RefKind.decode _ (RefKind.decode-encode_ref_kind t.kind wf.kind fits)
                (Reads-pure _))
            (Handles-field handle 3 3 (t.target) (omega arith) (omega arith)
              (λ _. Reads-last raw32 _ (Reads-raw32 t.target wf.target) (Reads-pure _))
              (Handles-field handle 4 4 (EpistemicStatus.encode t.status) (omega arith)
                (omega arith)
                (λ fits.
                  Reads-last EpistemicStatus.decode _
                    (EpistemicStatus.decode-encode_epistemic_status t.status wf.status fits)
                    (Reads-pure _))
                (Handles-optional handle 5 5 t.source (λ x. SourceIdentity.encode x)
                  (λ x. record {
                    name = some t.name;
                    kind = some t.kind;
                    target = some t.target;
                    status = some t.status;
                    source = x;
                    annotation = none;
                  })
                  (omega arith) (omega arith)
                  (λ x q fits.
                    Reads-last SourceIdentity.decode _
                      (SourceIdentity.decode-encode_source_identity x (wf.source x q) fits)
                      (Reads-pure _))
                  (Handles-optional handle 6 6 t.annotation (λ x. Annotation.encode x)
                    (λ x. record {
                      name = some t.name;
                      kind = some t.kind;
                      target = some t.target;
                      status = some t.status;
                      source = t.source;
                      annotation = x;
                    })
                    (omega arith) (omega arith)
                    (λ x q fits.
                      Reads-last Annotation.decode _
                        (Annotation.decode-encode_annotation x (wf.annotation x q) fits)
                        (Reads-pure _))
                    (done 7 _)))))))
        fits)
      (Reads-pure t)
