-- ===== src/Ir/Restamp/Atoms.antt =====
-- restamp.rs: the blobs and the atoms that are added to the builder.
use brygge.Prelude.{
  ◌≡◌, refl, sym, ap, ◌∙◌, true, List, [], ◌∷◌, ◌++◌, append-nil, append_assoc, All, Bytes, some,
  ok, ok_or, Bool-cases, inl, inr,
}
use brygge.Prelude.Utf8.{text_eq, text_ltb, text_eq_refl}
use mathlib.Core.Path.{subst}
use brygge.Ir.Content
use brygge.Ir.Content.{BlobId, ContentStore, or_insert}
use brygge.Ir.Model.ChangeAtom.{ChangeAtom}
use brygge.Ir.Model.AtomId.{AtomId}
use brygge.Ir.Model.ImportProvenance.{ImportProvenance}
use brygge.Ir.Builder.{AtomDraft, IrBuilder, add_blob, add_atom}
use brygge.Ir.Builder.Finished.{Added, add_atom-Added, ok_injective}
use brygge.Ir.Builder.Steps.{Reachable, blob, atom}
use brygge.Ir.Restamp.{IdMap, restamp_atom, add_blobs, add_atoms}
use brygge.Ir.Restamp.Retold.{
  Retold, no_atoms, atom_of, bind-ok, ok_or-some, restamp_atom-AtomAfter,
}

-- How a builder has grown by atoms.
pub record Grown (new : List ChangeAtom) (b next : IrBuilder) : Type 0 where
  pub atoms : next.atoms ≡ b.atoms ++ new
  pub content : next.content ≡ b.content
  pub refs : next.refs ≡ b.refs
  pub flags : next.flags ≡ b.flags
  pub transforms : next.transforms ≡ b.transforms
  pub provenance : next.provenance ≡ b.provenance

Added-Grown :
    (sha256 : Bytes → Bytes) (b : IrBuilder) (draft : AtomDraft) (r : AtomId × IrBuilder)
    (added : Added sha256 b draft r)
    → Grown (added.atom ∷ []) b r.1
Added-Grown sha256 b draft r added = record {
  atoms = added.appended;
  content = added.content_kept;
  refs = added.refs_kept;
  flags = added.flags_kept;
  transforms = added.transforms_kept;
  provenance = added.provenance_kept;
}

Grown-append :
    (a : ChangeAtom) (new : List ChangeAtom) (b mid next : IrBuilder)
    → Grown (a ∷ []) b mid
    → Grown new mid next
    → Grown (a ∷ new) b next
Grown-append a new b mid next one rest = record {
  atoms = rest.atoms ∙ ap (λ s. s ++ new) one.atoms ∙ append_assoc b.atoms (a ∷ []) new;
  content = rest.content ∙ one.content;
  refs = rest.refs ∙ one.refs;
  flags = rest.flags ∙ one.flags;
  transforms = rest.transforms ∙ one.transforms;
  provenance = rest.provenance ∙ one.provenance;
}

contains-or_insert :
    (id : BlobId) (bytes : Bytes) (blobs : ContentStore)
    → Content.contains id (or_insert id bytes blobs) ≡ true
unfolding Content.contains or_insert
contains-or_insert id bytes [] = rw (text_eq_refl id) refl
contains-or_insert id bytes ((k, v) ∷ blobs) = elim (Bool-cases (text_eq id k)) [
  | inl same ↦ rw (same, same) refl
  | inr differ ↦ elim (Bool-cases (text_ltb id k)) [
    | inl less ↦ rw (differ, less, text_eq_refl id) refl
    | inr more ↦ rw (differ, more, differ) (contains-or_insert id bytes blobs)
  ]
]

or_insert-contains :
    (x id : BlobId) (bytes : Bytes) (blobs : ContentStore)
    → Content.contains x blobs ≡ true
    → Content.contains x (or_insert id bytes blobs) ≡ true
unfolding Content.contains or_insert
or_insert-contains x id bytes [] h = absurd (cc h)
or_insert-contains x id bytes ((k, v) ∷ blobs) h = elim (Bool-cases (text_eq id k)) [
  | inl same ↦ rw same h
  | inr differ ↦ elim (Bool-cases (text_ltb id k)) [
    | inl less ↦ elim (Bool-cases (text_eq x id)) [
      | inl new ↦ rw (differ, less, new) refl
      | inr old ↦ rw (differ, less, old) h
    ]
    | inr more ↦ elim (Bool-cases (text_eq x k)) [
      | inl there ↦ rw (differ, more, there) refl
      | inr on ↦ rw (differ, more, on) (or_insert-contains x id bytes blobs (rw on at h))
    ]
  ]
]

-- The blob that one content store has under an id is in another, under its hash.
pub Stored : (Bytes → Bytes) → ContentStore → ContentStore → BlobId → Type 0
Stored sha256 old new id =
    (bytes : Bytes) × (Content.get id old ≡ some bytes)
    × (Content.contains (sha256 bytes) new ≡ true)

-- What adding blobs leaves of a builder.
pub record Filled (sha256 : Bytes → Bytes) (ids : List BlobId) (content : ContentStore)
    (b next : IrBuilder) : Type 0 where
  pub same : next ≡ record b { content = next.content }
  pub kept :
      (id : BlobId) → Content.contains id b.content ≡ true → Content.contains id next.content ≡ true
  pub stored : All (Stored sha256 content next.content) ids

pub add_blobs_lem :
    (sha256 : Bytes → Bytes) (from : ImportProvenance) (ids : List BlobId) (content : ContentStore)
    (b next : IrBuilder)
    → Reachable sha256 from b
    → add_blobs sha256 ids content b ≡ ok next
    → Reachable sha256 from next × Filled sha256 ids content b next
unfolding add_blobs Content.insert Stored
add_blobs_lem sha256 from [] content b next reached h = (
  subst (Reachable sha256 from) (ok_injective h) reached,
  subst (Filled sha256 [] content b) (ok_injective h)
      (record { same = refl; kept = λ id there. there; stored = tt }),
)
add_blobs_lem sha256 from (id ∷ ids) content b next reached h =
    let got = bind-ok (ok_or (Content.get id content) _) _ next h in
    let bytes = got.0 in
    let mid = (add_blob sha256 b bytes).1 in
    let rest = add_blobs_lem sha256 from ids content mid next (blob b bytes reached) got.2 in
    (
      rest.0,
      record {
        same = rest.1.same;
        kept = λ x there. rest.1.kept x (or_insert-contains x (sha256 bytes) bytes b.content there);
        stored = (
          (
            bytes,
            ok_or-some (Content.get id content) _ bytes got.1,
            rest.1.kept (sha256 bytes) (contains-or_insert (sha256 bytes) bytes b.content),
          ),
          rest.1.stored,
        );
      },
    )

-- The atoms that were added, and how they stand to the old ones.
pub record Rewritten (decoder version : Bytes) (id_map : IdMap) (atoms : List ChangeAtom)
    (b : IrBuilder) (r : IdMap × IrBuilder) : Type 0 where
  pub new : List ChangeAtom
  pub grown : Grown new b r.1
  pub retold : Retold decoder version id_map atoms new r.0

pub add_atoms_lem :
    (sha256 : Bytes → Bytes) (from : ImportProvenance) (decoder version : Bytes) (id_map : IdMap)
    (atoms : List ChangeAtom) (b : IrBuilder) (r : IdMap × IrBuilder)
    → Reachable sha256 from b
    → add_atoms sha256 decoder version id_map atoms b ≡ ok r
    → Reachable sha256 from r.1 × Rewritten decoder version id_map atoms b r
unfolding add_atoms
add_atoms_lem sha256 from decoder version id_map [] b r reached h =
    subst (λ r. Reachable sha256 from r.1 × Rewritten decoder version id_map [] b r)
      (ok_injective h)
      (
        reached,
        record {
          new = [];
          grown = record {
            atoms = sym (append-nil b.atoms);
            content = refl;
            refs = refl;
            flags = refl;
            transforms = refl;
            provenance = refl;
          };
          retold = no_atoms id_map;
        },
      )
add_atoms_lem sha256 from decoder version id_map (a ∷ atoms) b r reached h =
    let d = bind-ok (restamp_atom decoder version id_map a) _ r h in
    let n = bind-ok (add_atom sha256 b d.0) _ r d.2 in
    let added = add_atom-Added sha256 b d.0 n.0 n.1 in
    let rest =
      add_atoms_lem sha256 from decoder version ((a.id, n.0.0) ∷ id_map) atoms n.0.1 r
        (atom b d.0 n.0 reached n.1) n.2 in
    (
      rest.0,
      record {
        new = added.atom ∷ rest.1.new;
        grown =
            Grown-append added.atom rest.1.new b n.0.1 r.1 (Added-Grown sha256 b d.0 n.0 added)
              rest.1.grown;
        retold =
            atom_of id_map r.0 a added.atom atoms rest.1.new
              (restamp_atom-AtomAfter decoder version sha256 id_map a d.0 b n.0 d.1 added)
              (subst (λ id. Retold decoder version ((a.id, id) ∷ id_map) atoms rest.1.new r.0)
                added.named rest.1.retold);
      },
    )
