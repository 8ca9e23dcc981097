-- ===== src/Ir/Model/Metadata.antt =====
-- model.rs: `Ir`, without its content store: the metadata section of an artifact.
pub mod RoundTrip
use brygge.Prelude.{
  ℕ, ◌+◌, ◌<◌, ◌≤◌, ◌^◌, ◌≡◌, ◌≢◌, refl, Bool, true, false, not, ◌&&◌, ◌||◌, arith, ◌==◌, ltb, leb,
  if◌then◌else◌,
}
use brygge.Prelude.{List, [], ◌∷◌, ◌++◌, map, Option, none, some, Bytes, length, All}
use brygge.Prelude.Utf8.{is_utf8, text_ltb, text_eq, codes}
use brygge.Ir.Error.{Error, non_canonical}
use brygge.Ir.Canon.Writer.{
  field, in_turn, optional, unless_empty, record_bytes, list_value, map_value, uvarint_value,
  svarint_value,
}
use brygge.Ir.Canon.Reader.{
  Read, Handler, ◌>>=◌, ◌>>◌, pure, fail, ensure, required, recognized, declined, text, bytes_exact,
  raw32, uvarint, list, read_map, record_fields,
}
use brygge.Ir.Canon.Zigzag.{svarint, svarint-svarint_value}
use brygge.Ir.Canon.Varint.{uvarint-uvarint_value}
use brygge.Ir.Canon.Reads.{
  Reads, Reads-bind, Reads-then, Reads-last, Reads-pure, Reads-ensure, Reads-text,
  Reads-bytes_exact, Reads-raw32,
}
use brygge.Ir.Canon.Lists.{Fits, Entries, read_map-map_value}
use brygge.Ir.Canon.Records.{
  Handles, done, Handles-field, Handles-optional, Handles-list, record_fields-record_bytes,
}
use brygge.Ir.Model.Checks.{non_empty_list, ascending, Reads-records, Reads-non_empty}
use brygge.Ir.Model.ChangeAtom
use brygge.Ir.Model.ChangeAtom.{ChangeAtom}
use brygge.Ir.Model.RefRecord
use brygge.Ir.Model.RefRecord.{RefRecord}
use brygge.Ir.Model.ImportProvenance
use brygge.Ir.Model.ImportProvenance.{ImportProvenance}
use brygge.Ir.Model.DropRecord
use brygge.Ir.Model.DropRecord.{DropRecord}
use brygge.Ir.Model.Flag
use brygge.Ir.Model.Flag.{Flag}
use brygge.Ir.Model.TransformRecord
use brygge.Ir.Model.TransformRecord.{TransformRecord}
use brygge.Ir.Model.RefKind
use brygge.Ir.Model.LossClass
use brygge.Ir.Model.FlagKind

-- `dropped` is the one field of `LossBoundary`.
pub record Ir : Type 0 where
  pub atoms : List ChangeAtom
  pub refs : List RefRecord
  pub provenance : ImportProvenance
  pub dropped : List DropRecord
  pub flags : List Flag
  pub transforms : List TransformRecord

unfoldable pub encode_metadata : Ir → Bytes
encode_metadata t = record_bytes (
    in_turn (
      unless_empty (λ x. field 1 true (list_value (map ChangeAtom.encode x))) t.atoms
      ∷ unless_empty (λ x. field 2 true (list_value (map RefRecord.encode x))) t.refs
      ∷ field 3 true (ImportProvenance.encode t.provenance)
      ∷ unless_empty (λ x. field 4 true (list_value (map DropRecord.encode x))) t.dropped
      ∷ unless_empty (λ x. field 5 true (list_value (map Flag.encode x))) t.flags
      ∷ unless_empty (λ x. field 6 true (list_value (map TransformRecord.encode x))) t.transforms
      ∷ []))

pub record Vars : Type 0 where
  atoms : List ChangeAtom
  refs : List RefRecord
  provenance : Option ImportProvenance
  dropped : List DropRecord
  flags : List Flag
  transforms : List TransformRecord

abbrev start : Vars
start = record {
  atoms = [];
  refs = [];
  provenance = none;
  dropped = [];
  flags = [];
  transforms = [];
}

-- `(name, kind variant)`
unfoldable pub less_ref : RefRecord → RefRecord → Bool
less_ref a b =
    text_ltb a.name b.name
    || (text_eq a.name b.name && ltb (RefKind.variant a.kind) (RefKind.variant b.kind))

-- `Option<u64>`: none comes first.
unfoldable pub option_ltb : Option ℕ → Option ℕ → Bool
option_ltb none none = false
option_ltb none (some b) = true
option_ltb (some a) none = false
option_ltb (some a) (some b) = ltb a b

unfoldable pub option_eq : Option ℕ → Option ℕ → Bool
option_eq none none = true
option_eq (some a) (some b) = a == b
option_eq _ _ = false

-- `(class variant, step, what)`
unfoldable pub less_drop : DropRecord → DropRecord → Bool
unfolding option_ltb option_eq
less_drop a b =
    let ca = LossClass.variant a.class in
    let cb = LossClass.variant b.class in
    ltb ca cb
    || (ca == cb
        && (option_ltb a.step b.step || (option_eq a.step b.step && text_ltb a.what b.what)))

-- `(kind variant, what)`
unfoldable pub less_flag : Flag → Flag → Bool
less_flag a b =
    let ka = FlagKind.variant a.kind in
    let kb = FlagKind.variant b.kind in ltb ka kb || (ka == kb && text_ltb a.what b.what)

module _ (sha256 : Bytes → Bytes) where
  unfoldable pub handle : Handler Vars
  handle s id len =
      if id == 1
      then (do
        x ← list (ChangeAtom.decode sha256)
        non_empty_list "Ir.atoms encoded but empty" x
        recognized (record s { atoms = x }))
      else if id == 2
      then (do
        x ← list RefRecord.decode
        non_empty_list "Ir.refs encoded but empty" x
        recognized (record s { refs = x }))
      else if id == 3
      then (do x ← ImportProvenance.decode; recognized (record s { provenance = some x }))
      else if id == 4
      then (do
        x ← list DropRecord.decode
        non_empty_list "Ir.dropped encoded but empty" x
        recognized (record s { dropped = x }))
      else if id == 5
      then (do
        x ← list Flag.decode
        non_empty_list "Ir.flags encoded but empty" x
        recognized (record s { flags = x }))
      else if id == 6
      then (do
        x ← list TransformRecord.decode
        non_empty_list "Ir.transforms encoded but empty" x
        ensure (leb (length x) 64) (non_canonical "Ir.transforms holds more than 64 records")
        recognized (record s { transforms = x }))
      else declined s

  unfoldable pub decode_metadata : Read Ir
  decode_metadata = do
    s ← record_fields "Ir" handle start
    ensure (ascending less_ref s.refs)
        (non_canonical "Ir.refs are not strictly ascending by (name, kind variant)")
    ensure (ascending less_drop s.dropped)
        (non_canonical "Ir.dropped is not strictly ascending by (class variant, step, what)")
    ensure (ascending less_flag s.flags)
        (non_canonical "Ir.flags are not strictly ascending by (kind variant, what)")
    provenance ← required s.provenance (non_canonical "Ir missing field 3 (provenance)")
    pure (record {
      atoms = s.atoms;
      refs = s.refs;
      provenance = provenance;
      dropped = s.dropped;
      flags = s.flags;
      transforms = s.transforms;
    })

  -- Every part is well formed, the refs, drops and flags are in canonical order, and there are at most 64
  -- transforms.
  pub record IsWf (t : Ir) : Type 0 where
    pub atoms : All (ChangeAtom.IsWf sha256) t.atoms
    pub atoms_length : length t.atoms < 2 ^ 64
    pub refs : All RefRecord.IsWf t.refs
    pub refs_length : length t.refs < 2 ^ 64
    pub refs_ascend : ascending less_ref t.refs ≡ true
    pub provenance : ImportProvenance.IsWf t.provenance
    pub dropped : All DropRecord.IsWf t.dropped
    pub dropped_length : length t.dropped < 2 ^ 64
    pub dropped_ascend : ascending less_drop t.dropped ≡ true
    pub flags : All Flag.IsWf t.flags
    pub flags_length : length t.flags < 2 ^ 64
    pub flags_ascend : ascending less_flag t.flags ≡ true
    pub transforms : All TransformRecord.IsWf t.transforms
    pub transforms_length : length t.transforms ≤ 64
