-- ===== src/Ir/Model/ChangeAtom.antt =====
-- model.rs: `ChangeAtom`, one atom of history, whose id is the hash of the rest of its record. SHA-256 is
-- not part of the repository, and enters as the parameter `sha256`.
pub mod RoundTrip
use brygge.Prelude.{
  ℕ, ◌+◌, ◌<◌, ◌≤◌, ◌^◌, ◌≡◌, ◌≢◌, refl, Bool, true, false, not, ◌&&◌, ◌||◌, arith, ◌==◌, ltb, leb,
  if◌then◌else◌,
}
use brygge.Prelude.{List, [], ◌∷◌, ◌++◌, map, Option, none, some, Bytes, length, All}
use brygge.Prelude.Utf8.{is_utf8, text_ltb, text_eq, codes}
use brygge.Ir.Error.{Error, non_canonical}
use brygge.Ir.Canon.Writer.{
  Fields, field, in_turn, optional, unless_empty, record_bytes, list_value, map_value,
  uvarint_value, svarint_value,
}
use brygge.Ir.Canon.Reader.{
  Read, Handler, ◌>>=◌, ◌>>◌, pure, fail, ensure, required, recognized, declined, text, bytes_exact,
  raw32, uvarint, list, read_map, record_fields,
}
use brygge.Ir.Canon.Zigzag.{svarint, svarint-svarint_value}
use brygge.Ir.Canon.Varint.{uvarint-uvarint_value}
use brygge.Ir.Canon.Reads.{
  Reads, Reads-bind, Reads-then, Reads-last, Reads-pure, Reads-ensure, Reads-text,
  Reads-bytes_exact, Reads-raw32,
}
use brygge.Ir.Canon.Lists.{Fits, Entries, read_map-map_value}
use brygge.Ir.Canon.Records.{
  Handles, done, Handles-field, Handles-optional, Handles-list, record_fields-record_bytes,
}
use brygge.Ir.Model.Checks.{non_empty_list, ascending, Reads-records, Reads-non_empty}
use brygge.Ir.Model.AtomId
use brygge.Ir.Model.AtomId.{AtomId}
use brygge.Ir.Model.PathOp
use brygge.Ir.Model.PathOp.{PathOp}
use brygge.Ir.Model.CopyRecord
use brygge.Ir.Model.CopyRecord.{CopyRecord}
use brygge.Ir.Model.MetadataClaims
use brygge.Ir.Model.MetadataClaims.{MetadataClaims}
use brygge.Ir.Model.SourceIdentity
use brygge.Ir.Model.SourceIdentity.{SourceIdentity}
use brygge.Ir.Status.EpistemicStatus
use brygge.Ir.Status.EpistemicStatus.{EpistemicStatus}

pub record ChangeAtom : Type 0 where
  pub id : AtomId
  pub parents : List AtomId
  pub ops : List PathOp
  pub copies : List CopyRecord
  pub metadata : MetadataClaims
  pub source : SourceIdentity
  pub status : EpistemicStatus

abbrev is_none : {A : Type 0} → Option A → Bool
is_none none = true
is_none (some a) = false

-- MetadataClaims::is_empty and its default
unfoldable pub is_empty : MetadataClaims → Bool
is_empty m =
    is_none m.author
    && is_none m.author_time
    && is_none m.committer
    && is_none m.commit_time
    && is_none m.message

abbrev pub no_claims : MetadataClaims
no_claims = record {
  author = none;
  author_time = none;
  committer = none;
  commit_time = none;
  message = none;
}

-- `if !self.metadata.is_empty()`
unfoldable pub metadata_field : MetadataClaims → Fields
metadata_field m = if is_empty m then [] else field 5 true (MetadataClaims.encode m)

-- ChangeAtom::encode_body: fields 2 to 7, as a list of calls
unfoldable pub body : ChangeAtom → List Fields
body t =
    unless_empty (λ x. field 2 true (list_value (map AtomId.encode x))) t.parents
    ∷ unless_empty (λ x. field 3 true (list_value (map PathOp.encode x))) t.ops
    ∷ unless_empty (λ x. field 4 true (list_value (map CopyRecord.encode x))) t.copies
    ∷ metadata_field t.metadata
    ∷ field 6 true (SourceIdentity.encode t.source)
    ∷ field 7 true (EpistemicStatus.encode t.status)
    ∷ []

unfoldable pub encode : ChangeAtom → Bytes
encode t = record_bytes (in_turn (field 1 true t.id ∷ body t))

-- ChangeAtom::is_move: a copy from the first parent whose source path the atom deletes.
unfoldable deletes : Bytes → PathOp → Bool
deletes p (PathOp.delete q _) = text_eq q p
deletes p op = false

unfoldable any_op : (PathOp → Bool) → List PathOp → Bool
any_op p [] = false
any_op p (op ∷ ops) = p op || any_op p ops

unfoldable first_is : AtomId → List AtomId → Bool
first_is id [] = false
first_is id (x ∷ xs) = text_eq x id

unfoldable pub is_move : ChangeAtom → CopyRecord → Bool
unfolding first_is any_op deletes
is_move t copy = first_is copy.from_atom t.parents && any_op (deletes copy.from) t.ops

pub record Vars : Type 0 where
  id : Option AtomId
  parents : List AtomId
  ops : List PathOp
  copies : List CopyRecord
  metadata : MetadataClaims
  source : Option SourceIdentity
  status : Option EpistemicStatus

abbrev start : Vars
start = record {
  id = none;
  parents = [];
  ops = [];
  copies = [];
  metadata = no_claims;
  source = none;
  status = none;
}

unfoldable pub handle : Handler Vars
handle s id len =
    if id == 1
    then (do x ← raw32; recognized (record s { id = some x }))
    else if id == 2
    then (do
      x ← list AtomId.decode
      non_empty_list "ChangeAtom.parents encoded but empty" x
      recognized (record s { parents = x }))
    else if id == 3
    then (do
      x ← list PathOp.decode
      non_empty_list "ChangeAtom.ops encoded but empty" x
      recognized (record s { ops = x }))
    else if id == 4
    then (do
      x ← list CopyRecord.decode
      non_empty_list "ChangeAtom.copies encoded but empty" x
      recognized (record s { copies = x }))
    else if id == 5
    then (do
      x ← MetadataClaims.decode
      ensure (not (is_empty x)) (non_canonical "ChangeAtom.metadata encoded but every claim absent")
      recognized (record s { metadata = x }))
    else if id == 6
    then (do x ← SourceIdentity.decode; recognized (record s { source = some x }))
    else if id == 7
    then (do x ← EpistemicStatus.decode; recognized (record s { status = some x }))
    else declined s

unfoldable pub less_path : PathOp → PathOp → Bool
less_path a b = text_ltb (PathOp.path a) (PathOp.path b)

-- `(to, from, from_atom)`, in the order of tuples
unfoldable pub less_copy : CopyRecord → CopyRecord → Bool
less_copy a b =
    text_ltb a.to b.to
    || (text_eq a.to b.to
        && (text_ltb a.from b.from || (text_eq a.from b.from && text_ltb a.from_atom b.from_atom)))

module _ (sha256 : Bytes → Bytes) where
  unfoldable pub compute_id : ChangeAtom → AtomId
  compute_id t = sha256 (record_bytes (in_turn (body t)))

  unfoldable pub decode : Read ChangeAtom
  decode = do
    s ← record_fields "ChangeAtom" handle start
    id ← required s.id (non_canonical "ChangeAtom missing field 1 (id)")
    ensure (ascending less_path s.ops)
        (non_canonical "ChangeAtom.ops are not strictly ascending by path")
    ensure (ascending less_copy s.copies)
        (non_canonical "ChangeAtom.copies are not strictly ascending by (to, from, from_atom)")
    source ← required s.source (non_canonical "ChangeAtom missing field 6 (source)")
    status ← required s.status (non_canonical "ChangeAtom missing field 7 (status)")
    let atom : ChangeAtom = record {
      id = id;
      parents = s.parents;
      ops = s.ops;
      copies = s.copies;
      metadata = s.metadata;
      source = source;
      status = status;
    }
    ensure (text_eq (compute_id atom) id) (Error.decode "atom id does not match its contents")
    pure atom

  -- The parts are well formed, the operations and the copies are in canonical order, and the id is the hash
  -- of the rest, of 32 bytes.
  pub record IsWf (t : ChangeAtom) : Type 0 where
    pub id : t.id ≡ compute_id t
    pub id_length : length t.id ≡ 32
    pub parents : All AtomId.IsWf t.parents
    pub parents_length : length t.parents < 2 ^ 64
    pub ops : All PathOp.IsWf t.ops
    pub ops_length : length t.ops < 2 ^ 64
    pub ops_ascend : ascending less_path t.ops ≡ true
    pub copies : All CopyRecord.IsWf t.copies
    pub copies_length : length t.copies < 2 ^ 64
    pub copies_ascend : ascending less_copy t.copies ≡ true
    pub metadata : MetadataClaims.IsWf t.metadata
    pub source : SourceIdentity.IsWf t.source
    pub status : EpistemicStatus.IsWf t.status
