-- ===== src/Ir/Builder/Finished.antt =====
-- builder.rs, `add_atom` and `finish`: what is built passes the checks that the reader makes of its order.
use brygge.Prelude.{
  ◌≤◌, ◌≡◌, refl, ap, ◌∙◌, arith, Bool, true, false, List, [], ◌∷◌, ◌++◌, Option, none, some,
}
use brygge.Prelude.{Bytes, length, ltb, Bool-cases, inl, inr, if◌then◌else◌, Result, ok, err}
use brygge.Prelude.Utf8.{text_eq, text_eq→eq}
use mathlib.Core.List.{Permᴰ}
use brygge.Ir.Error.{Error}
use brygge.Ir.Content
use brygge.Ir.Content.{BlobId, ContentStore}
use brygge.Ir.Model.Checks.{ascending}
use brygge.Ir.Model.AtomId.{AtomId}
use brygge.Ir.Model.ChangeAtom.{ChangeAtom, less_path, less_copy, compute_id, body}
use brygge.Ir.Model.CopyRecord.{CopyRecord}
use mathlib.Core.Path.{subst}
use brygge.Ir.Model.Metadata.{less_ref, less_drop, less_flag}
use brygge.Ir.Builder.{
  AtomDraft, IrBuilder, Built, knows, same_path, same_ref, same_drop, same_flag, copies_known,
  referenced, assemble, finish, finish_ordered, atom_of, add_atom,
}
use brygge.Ir.Builder.Order.{topo_order}
use brygge.Ir.Builder.Sorting.{sort_by, sort_onto, insert, Sorted, repeats}
use brygge.Ir.Builder.Sorted.{sort_by-Sorted, sort_by-Perm, repeats-ascending}
use brygge.Ir.Builder.Keys.{Order, by_path, by_ref, by_drop, by_flag, by_copy}

pub guard-ok :
    {A : Type 0} (c : Bool) (e : Error) (m : Result Error A) (a : A)
    → (if c then err e else m) ≡ ok a
    → (c ≡ false) × (m ≡ ok a)
guard-ok true e m a h = absurd (cc h)
guard-ok false e m a h = (refl, h)

pub else-ok :
    {A : Type 0} (c : Bool) (e : Error) (m : Result Error A) (a : A)
    → (if c then m else err e) ≡ ok a
    → (c ≡ true) × (m ≡ ok a)
else-ok true e m a h = (refl, h)
else-ok false e m a h = absurd (cc h)

pub ok_injective : {A : Type 0} {x y : A} → ◌≡◌ {A = Result Error A} (ok x) (ok y) → x ≡ y
ok_injective e = cc e

-- Sorted by an order, with no neighbours the same.
sorted_ascending :
    {A : Type 0} {less same : A → A → Bool} (o : Order less same) (xs : List A)
    → repeats less same (sort_by less xs) ≡ false
    → ascending less (sort_by less xs) ≡ true
sorted_ascending {less = less} {same = same} o xs h =
    repeats-ascending less same (sort_by less xs) o.tri (sort_by-Sorted less o.anti xs) h

retain_kept :
    (keep : BlobId → Bool) (blobs : ContentStore) (id : BlobId)
    → Content.contains id (Content.retain keep blobs) ≡ true
    → keep id ≡ true
unfolding Content.contains Content.retain
retain_kept keep [] id h = absurd (cc h)
retain_kept keep ((k, v) ∷ blobs) id h = elim (Bool-cases (keep k)) [
  | inr gone ↦ retain_kept keep blobs id (rw gone at h)
  | inl kept ↦ elim (Bool-cases (text_eq id k)) [
    | inl same ↦ ap keep (text_eq→eq id k same) ∙ kept
    | inr differ ↦ retain_kept keep blobs id (rw (kept, differ) at h)
  ]
]

-- What the reader asks of the order and the length of the lists, and that nothing was lost or made up.
pub record Canonical (b : IrBuilder) (t : Built) : Type 0 where
  pub refs_ascend : ascending less_ref t.ir.refs ≡ true
  pub drops_ascend : ascending less_drop t.ir.dropped ≡ true
  pub flags_ascend : ascending less_flag t.ir.flags ≡ true
  pub transforms_fit : length t.ir.transforms ≤ 64
  pub refs_same : Permᴰ b.refs t.ir.refs
  pub drops_same : Permᴰ b.dropped t.ir.dropped
  pub flags_same : Permᴰ b.flags t.ir.flags
  pub transforms_same : b.transforms ≡ t.ir.transforms
  pub provenance_same : b.provenance ≡ t.ir.provenance
  pub no_orphan :
      (id : BlobId) → Content.contains id t.content ≡ true → knows (referenced t.ir.atoms) id ≡ true

assemble-Canonical :
    (b : IrBuilder) (ordered : List ChangeAtom) (t : Built)
    → assemble b ordered ≡ ok t
    → Canonical b t
unfolding assemble
assemble-Canonical b ordered t h =
    let g1 = guard-ok (repeats less_ref same_ref (sort_by less_ref b.refs)) _ _ t h in
    let g2 = guard-ok (ltb 64 (length b.transforms)) _ _ t g1.1 in
    let g3 = guard-ok (repeats less_drop same_drop (sort_by less_drop b.dropped)) _ _ t g2.1 in
    let g4 = guard-ok (repeats less_flag same_flag (sort_by less_flag b.flags)) _ _ t g3.1 in
    let short : length b.transforms ≤ 64 = ground (arith, g2.0) in
    subst (Canonical b) (ok_injective g4.1) (record {
      refs_ascend = sorted_ascending by_ref b.refs g1.0;
      drops_ascend = sorted_ascending by_drop b.dropped g3.0;
      flags_ascend = sorted_ascending by_flag b.flags g4.0;
      transforms_fit = short;
      refs_same = sort_by-Perm less_ref b.refs;
      drops_same = sort_by-Perm less_drop b.dropped;
      flags_same = sort_by-Perm less_flag b.flags;
      transforms_same = refl;
      provenance_same = refl;
      no_orphan = retain_kept (knows (referenced ordered)) b.content;
    })

finish_ordered-Canonical :
    (b : IrBuilder) (o : Option (List ChangeAtom)) (t : Built)
    → finish_ordered b o ≡ ok t
    → Canonical b t
unfolding finish_ordered
finish_ordered-Canonical b none t h = absurd (cc h)
finish_ordered-Canonical b (some ordered) t h = assemble-Canonical b ordered t h

-- A build that finishes has its refs, drops and flags in the strict order and its transform records in the number
-- that the reader of the metadata demands; they are the ones that were added, the provenance is the builder's, and no
-- blob is left in the content store that no operation names.
pub finish-Canonical : (b : IrBuilder) (t : Built) → finish b ≡ ok t → Canonical b t
unfolding finish
finish-Canonical b t h = finish_ordered-Canonical b (topo_order b.atoms) t h

-- What `add_atom` appends.
pub record Added (sha256 : Bytes → Bytes) (b : IrBuilder) (draft : AtomDraft)
    (r : AtomId × IrBuilder) : Type 0 where
  pub atom : ChangeAtom
  pub appended : r.1.atoms ≡ b.atoms ++ atom ∷ []
  pub id_known : r.1.known ≡ r.0 ∷ b.known
  pub named : r.0 ≡ atom.id
  pub refs_kept : r.1.refs ≡ b.refs
  pub content_kept : r.1.content ≡ b.content
  pub flags_kept : r.1.flags ≡ b.flags
  pub transforms_kept : r.1.transforms ≡ b.transforms
  pub provenance_kept : r.1.provenance ≡ b.provenance
  pub parents_same : atom.parents ≡ draft.parents
  pub metadata_same : atom.metadata ≡ draft.metadata
  pub source_same : atom.source ≡ draft.source
  pub status_same : atom.status ≡ draft.status
  pub id_matches : atom.id ≡ compute_id sha256 atom
  pub ops_ascend : ascending less_path atom.ops ≡ true
  pub ops_same : Permᴰ draft.ops atom.ops
  pub copies_sorted : Sorted less_copy atom.copies
  pub copies_same : Permᴰ draft.copies atom.copies
  pub copies_from : copies_known b.known atom.copies ≡ true

-- An atom that is added has the id that the reader computes for it, its operations in the strict order of their
-- paths that the reader demands, and its copies in order and each from an atom that was added before; its operations
-- and copies are the ones of the draft, as are its parents in their order, its metadata, source and status. Apart from
-- the atom and its id, the builder is as before in its content, refs, flags, transforms and provenance.
pub add_atom-Added :
    (sha256 : Bytes → Bytes) (b : IrBuilder) (draft : AtomDraft) (r : AtomId × IrBuilder)
    → add_atom sha256 b draft ≡ ok r
    → Added sha256 b draft r
unfolding add_atom atom_of compute_id body
add_atom-Added sha256 b draft r h =
    let sorted_ops = sort_by less_path draft.ops in
    let sorted_copies = sort_by less_copy draft.copies in
    let g1 = guard-ok (repeats less_path same_path sorted_ops) _ _ r h in
    let g2 = else-ok (copies_known b.known sorted_copies) _ _ r g1.1 in
    subst (Added sha256 b draft) (ok_injective g2.1) (record {
      atom = atom_of sha256 draft sorted_ops sorted_copies;
      appended = refl;
      id_known = refl;
      named = refl;
      refs_kept = refl;
      content_kept = refl;
      flags_kept = refl;
      transforms_kept = refl;
      provenance_kept = refl;
      parents_same = refl;
      metadata_same = refl;
      source_same = refl;
      status_same = refl;
      id_matches = refl;
      ops_ascend = sorted_ascending by_path draft.ops g1.0;
      ops_same = sort_by-Perm less_path draft.ops;
      copies_sorted = sort_by-Sorted less_copy by_copy.anti draft.copies;
      copies_same = sort_by-Perm less_copy draft.copies;
      copies_from = g2.0;
    })

less_copy-same : (c : CopyRecord) → less_copy c c ≡ false
less_copy-same c = elim (Bool-cases (less_copy c c)) [
  | inr no_less ↦ no_less
  | inl less ↦ by_copy.anti c c less
]

-- `add_atom` accepts a draft with the same copy twice, where its source atom is known; the copies of the atom that
-- it builds are not strictly ascending, as the reader of a ChangeAtom demands.
pub add_atom_repeated_copy :
    (sha256 : Bytes → Bytes) (b : IrBuilder) (draft : AtomDraft) (c : CopyRecord)
    → draft.ops ≡ []
    → draft.copies ≡ c ∷ c ∷ []
    → knows b.known c.from_atom ≡ true
    → (r : AtomId × IrBuilder) × (add_atom sha256 b draft ≡ ok r)
      × (atom : ChangeAtom) × (r.1.atoms ≡ b.atoms ++ atom ∷ [])
      × (ascending less_copy atom.copies ≡ false)
unfolding add_atom sort_by sort_onto insert repeats copies_known atom_of ascending
add_atom_repeated_copy sha256 b draft c no_ops twice known =
    let atom = atom_of sha256 draft [] (c ∷ c ∷ []) in
    (
      (atom.id, record b { atoms = b.atoms ++ atom ∷ []; known = atom.id ∷ b.known }),
      rw (no_ops, twice, less_copy-same c, known) refl,
      atom,
      refl,
      rw (less_copy-same c) refl,
    )
