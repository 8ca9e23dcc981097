-- ===== src/Ir/Status/ChangedPart.antt =====
-- model.rs: `ChangedPart`, the closed vocabulary of what a transform changed, and its spelling.
use brygge.Prelude.{
  ◌≡◌, refl, Bool, true, false, ◌++◌, Option, none, some, Bytes, length, ◌<◌, ◌^◌, arith,
}
use brygge.Prelude.{if◌then◌else◌}
use brygge.Prelude.Utf8.{is_utf8, text_eq, codes}
use brygge.Ir.Error.{Error}
use brygge.Ir.Canon.Writer.{uvarint_value}
use brygge.Ir.Canon.Reader.{Read, ◌>>=◌, required, text, uvarint_len}
use brygge.Ir.Canon.Reads.{Reads, Reads-last, Reads-pure, Reads-text}
use brygge.Ir.Canon.Lists.{Reads-uvarint_len}

pub data ChangedPart : Type 0 where
  author author_time committer commit_time message ops copies parents : ChangedPart
  blob mode path annotation kind name target : ChangedPart

unfoldable pub as_str : ChangedPart → Bytes
as_str author = codes "author"
as_str author_time = codes "author-time"
as_str committer = codes "committer"
as_str commit_time = codes "commit-time"
as_str message = codes "message"
as_str ops = codes "ops"
as_str copies = codes "copies"
as_str parents = codes "parents"
as_str blob = codes "blob"
as_str mode = codes "mode"
as_str path = codes "path"
as_str annotation = codes "annotation"
as_str kind = codes "kind"
as_str name = codes "name"
as_str target = codes "target"

unfoldable pub parse : Bytes → Option ChangedPart
parse s =
    if text_eq s (codes "author")
    then some author
    else if text_eq s (codes "author-time")
    then some author_time
    else if text_eq s (codes "committer")
    then some committer
    else if text_eq s (codes "commit-time")
    then some commit_time
    else if text_eq s (codes "message")
    then some message
    else if text_eq s (codes "ops")
    then some ops
    else if text_eq s (codes "copies")
    then some copies
    else if text_eq s (codes "parents")
    then some parents
    else if text_eq s (codes "blob")
    then some blob
    else if text_eq s (codes "mode")
    then some mode
    else if text_eq s (codes "path")
    then some path
    else if text_eq s (codes "annotation")
    then some annotation
    else if text_eq s (codes "kind")
    then some kind
    else if text_eq s (codes "name")
    then some name
    else if text_eq s (codes "target")
    then some target
    else none

unfoldable pub valid_on_atom : ChangedPart → Bool
valid_on_atom author = true
valid_on_atom author_time = true
valid_on_atom committer = true
valid_on_atom commit_time = true
valid_on_atom message = true
valid_on_atom ops = true
valid_on_atom copies = true
valid_on_atom parents = true
valid_on_atom _ = false

unfoldable pub valid_on_op : ChangedPart → Bool
valid_on_op blob = true
valid_on_op mode = true
valid_on_op path = true
valid_on_op _ = false

unfoldable pub valid_on_ref : ChangedPart → Bool
valid_on_ref annotation = true
valid_on_ref kind = true
valid_on_ref name = true
valid_on_ref target = true
valid_on_ref _ = false

parse-as_str : (c : ChangedPart) → parse (as_str c) ≡ some c
unfolding parse as_str text_eq
parse-as_str author = refl
parse-as_str _ = refl

as_str-is_utf8 : (c : ChangedPart) → is_utf8 (as_str c) ≡ true
unfolding as_str is_utf8
as_str-is_utf8 author = refl
as_str-is_utf8 _ = refl

as_str-short : (c : ChangedPart) → length (as_str c) < 2 ^ 64
unfolding as_str
as_str-short author = omega arith
as_str-short _ = omega arith

-- status.rs: `text_item`, one item of a list of texts.
unfoldable pub text_item : Bytes → Bytes
text_item s = uvarint_value (length s) ++ s

-- The item reader of the list, as the decoder of a status calls it.
unfoldable pub read_part : Read ChangedPart
read_part = do
  len ← uvarint_len
  s ← text len
  required (parse s) (Error.decode "unknown changed part")

-- The spelling of every part, written with its length, is read back as that part.
pub read_part-text_item : (c : ChangedPart) → Reads read_part (text_item (as_str c)) c
unfolding read_part text_item
read_part-text_item c = Reads-uvarint_len _ (as_str-short c) (omega arith) (
    Reads-last (text _) _ (Reads-text (as_str c) (as_str-is_utf8 c))
      (rw (parse-as_str c) (Reads-pure c)))
