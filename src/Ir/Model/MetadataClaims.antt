-- ===== src/Ir/Model/MetadataClaims.antt =====
-- model.rs: `MetadataClaims`, what the source claims of authorship, time and message.
use brygge.Prelude.{◌≡◌, true, arith, ◌==◌, if◌then◌else◌}
use brygge.Prelude.{[], ◌∷◌, Option, none, some, Bytes}
use brygge.Ir.Canon.Writer.{field, in_turn, optional, record_bytes}
use brygge.Ir.Canon.Reader.{Read, Handler, ◌>>=◌, pure, recognized, declined, record_fields}
use brygge.Ir.Canon.Reads.{Reads, Reads-last, Reads-pure}
use brygge.Ir.Canon.Lists.{Fits}
use brygge.Ir.Canon.Records.{done, Handles-optional, record_fields-record_bytes}
use brygge.Ir.Model.Identity
use brygge.Ir.Model.Identity.{Identity}
use brygge.Ir.Model.Time
use brygge.Ir.Model.Time.{Time}
use brygge.Ir.Model.Text
use brygge.Ir.Model.Text.{Text}

pub record MetadataClaims : Type 0 where
  pub author : Option Identity
  pub author_time : Option Time
  pub committer : Option Identity
  pub commit_time : Option Time
  pub message : Option Text

unfoldable pub encode : MetadataClaims → Bytes
encode t = record_bytes (
    in_turn (
      optional (λ x. field 1 true (Identity.encode x)) t.author
      ∷ optional (λ x. field 2 true (Time.encode x)) t.author_time
      ∷ optional (λ x. field 3 true (Identity.encode x)) t.committer
      ∷ optional (λ x. field 4 true (Time.encode x)) t.commit_time
      ∷ optional (λ x. field 5 true (Text.encode x)) t.message
      ∷ []))

record Vars : Type 0 where
  author : Option Identity
  author_time : Option Time
  committer : Option Identity
  commit_time : Option Time
  message : Option Text

handle : Handler Vars
handle s id len =
    if id == 1
    then (do x ← Identity.decode; recognized (record s { author = some x }))
    else if id == 2
    then (do x ← Time.decode; recognized (record s { author_time = some x }))
    else if id == 3
    then (do x ← Identity.decode; recognized (record s { committer = some x }))
    else if id == 4
    then (do x ← Time.decode; recognized (record s { commit_time = some x }))
    else if id == 5
    then (do x ← Text.decode; recognized (record s { message = some x }))
    else declined s

abbrev start : Vars
start = record {
  author = none;
  author_time = none;
  committer = none;
  commit_time = none;
  message = none;
}

unfoldable pub decode : Read MetadataClaims
unfolding handle
decode = do
  s ← record_fields "MetadataClaims" handle start
  pure (record {
    author = s.author;
    author_time = s.author_time;
    committer = s.committer;
    commit_time = s.commit_time;
    message = s.message;
  })

-- Every claim that is there is well formed.
pub record IsWf (t : MetadataClaims) : Type 0 where
  pub author : (x : Identity) → t.author ≡ some x → Identity.IsWf x
  pub author_time : (x : Time) → t.author_time ≡ some x → Time.IsWf x
  pub committer : (x : Identity) → t.committer ≡ some x → Identity.IsWf x
  pub commit_time : (x : Time) → t.commit_time ≡ some x → Time.IsWf x
  pub message : (x : Text) → t.message ≡ some x → Text.IsWf x

-- Every well-formed set of metadata claims is read back from what `encode` writes for it, if that is shorter than 2 ^ 64 bytes; no
-- byte more is taken.
pub decode-encode_metadata_claims :
    (t : MetadataClaims) → IsWf t → Fits (encode t) → Reads decode (encode t) t
unfolding decode encode
decode-encode_metadata_claims t wf fits =
    Reads-last (record_fields "MetadataClaims" handle start) _
      (record_fields-record_bytes "MetadataClaims" handle
        (Handles-optional handle 0 1 t.author (λ x. Identity.encode x)
          (λ x. record {
            author = x;
            author_time = none;
            committer = none;
            commit_time = none;
            message = none;
          })
          (omega arith) (omega arith)
          (λ x q fits.
            Reads-last Identity.decode _ (Identity.decode-encode_identity x (wf.author x q) fits)
              (Reads-pure _))
          (Handles-optional handle 2 2 t.author_time (λ x. Time.encode x)
            (λ x. record {
              author = t.author;
              author_time = x;
              committer = none;
              commit_time = none;
              message = none;
            })
            (omega arith) (omega arith)
            (λ x q fits.
              Reads-last Time.decode _ (Time.decode-encode_time x (wf.author_time x q) fits)
                (Reads-pure _))
            (Handles-optional handle 3 3 t.committer (λ x. Identity.encode x)
              (λ x. record {
                author = t.author;
                author_time = t.author_time;
                committer = x;
                commit_time = none;
                message = none;
              })
              (omega arith) (omega arith)
              (λ x q fits.
                Reads-last Identity.decode _
                  (Identity.decode-encode_identity x (wf.committer x q) fits) (Reads-pure _))
              (Handles-optional handle 4 4 t.commit_time (λ x. Time.encode x)
                (λ x. record {
                  author = t.author;
                  author_time = t.author_time;
                  committer = t.committer;
                  commit_time = x;
                  message = none;
                })
                (omega arith) (omega arith)
                (λ x q fits.
                  Reads-last Time.decode _ (Time.decode-encode_time x (wf.commit_time x q) fits)
                    (Reads-pure _))
                (Handles-optional handle 5 5 t.message (λ x. Text.encode x)
                  (λ x. record {
                    author = t.author;
                    author_time = t.author_time;
                    committer = t.committer;
                    commit_time = t.commit_time;
                    message = x;
                  })
                  (omega arith) (omega arith)
                  (λ x q fits.
                    Reads-last Text.decode _ (Text.decode-encode_text x (wf.message x q) fits)
                      (Reads-pure _))
                  (done 6 _))))))
        fits)
      (Reads-pure t)
