-- ===== src/Ir/Builder/Steps.antt =====
-- builder.rs: the states that a build goes through.
use brygge.Prelude.{◌≡◌, refl, sym, true, List, [], ◌∷◌, ◌++◌, map, All, Bytes}
use brygge.Prelude.{Bool-cases, inl, inr, ok, and_true}
use brygge.Prelude.Utf8.{text_eq}
use mathlib.Core.List.{map-append}
use mathlib.Core.Path.{subst}
use brygge.Ir.Model.AtomId.{AtomId}
use brygge.Ir.Model.CopyRecord.{CopyRecord}
use brygge.Ir.Model.RefRecord.{RefRecord}
use brygge.Ir.Model.DropRecord.{DropRecord}
use brygge.Ir.Model.Flag.{Flag}
use brygge.Ir.Model.TransformRecord.{TransformRecord}
use brygge.Ir.Model.ImportProvenance.{ImportProvenance}
use brygge.Ir.Builder.{
  AtomDraft, IrBuilder, new, knows, copies_known, add_blob, add_atom, add_ref, set_loss, add_flag,
  add_transform,
}
use brygge.Ir.Builder.Finished.{Added, add_atom-Added, else-ok, ok_injective}

module _ (sha256 : Bytes → Bytes) where
  -- The calls that a build makes before `finish`.
  pub data Reachable (from : ImportProvenance) : IrBuilder → Type 0 where
    fresh : Reachable from (new from)
    blob :
        (b : IrBuilder) (bytes : Bytes)
        → Reachable from b
        → Reachable from (add_blob sha256 b bytes).1
    atom :
        (b : IrBuilder) (draft : AtomDraft) (r : AtomId × IrBuilder)
        → Reachable from b
        → add_atom sha256 b draft ≡ ok r
        → Reachable from r.1
    ref :
        (b : IrBuilder) (record_ : RefRecord) (b' : IrBuilder)
        → Reachable from b
        → add_ref b record_ ≡ ok b'
        → Reachable from b'
    loss :
        (b : IrBuilder) (dropped : List DropRecord)
        → Reachable from b
        → Reachable from (set_loss b dropped)
    flag : (b : IrBuilder) (f : Flag) → Reachable from b → Reachable from (add_flag b f)
    transform :
        (b : IrBuilder) (t : TransformRecord)
        → Reachable from b
        → Reachable from (add_transform b t).1

-- Nothing in the builder names an atom that is not there.
pub record Closed (b : IrBuilder) : Type 0 where
  pub known_atoms : (id : AtomId) → knows b.known id ≡ knows (map (λ a. a.id) b.atoms) id
  pub targets : All (λ r. knows b.known r.target ≡ true) b.refs
  pub sources : All (λ a. copies_known b.known a.copies ≡ true) b.atoms

knows-cons :
    (known : List AtomId) (k id : AtomId) → knows known id ≡ true → knows (k ∷ known) id ≡ true
unfolding knows
knows-cons known k id h = elim (Bool-cases (text_eq k id)) [
  | inl same ↦ rw same refl
  | inr differ ↦ rw differ h
]

knows-snoc : (ids : List AtomId) (k id : AtomId) → knows (ids ++ k ∷ []) id ≡ knows (k ∷ ids) id
unfolding knows
knows-snoc [] k id = refl
knows-snoc (i ∷ ids) k id = elim (Bool-cases (text_eq i id)) [
  | inl same ↦ elim (Bool-cases (text_eq k id)) [
    | inl also ↦ rw (same, also) refl
    | inr differ ↦ rw (same, differ) refl
  ]
  | inr other ↦ rw (other, knows-snoc ids k id) refl
]

copies_known-cons :
    (known : List AtomId) (k : AtomId) (copies : List CopyRecord)
    → copies_known known copies ≡ true
    → copies_known (k ∷ known) copies ≡ true
unfolding copies_known
copies_known-cons known k [] h = refl
copies_known-cons known k (c ∷ copies) h =
    let both = and_true (knows known c.from_atom) (copies_known known copies) h in
    rw (knows-cons known k c.from_atom both.0) (copies_known-cons known k copies both.1)

All-snoc :
    {A : Type 0} (P : A → Type 0) (xs : List A) (x : A) → All P xs → P x → All P (xs ++ x ∷ [])
All-snoc P [] x h p = (p, tt)
All-snoc P (y ∷ xs) x (h, hs) p = (h, All-snoc P xs x hs p)

All-map :
    {A : Type 0} {P Q : A → Type 0} (xs : List A) → ((x : A) → P x → Q x) → All P xs → All Q xs
All-map [] f h = tt
All-map (x ∷ xs) f (h, hs) = (f x h, All-map xs f hs)

Added-Closed :
    (sha256 : Bytes → Bytes) (b : IrBuilder) (draft : AtomDraft) (r : AtomId × IrBuilder)
    → Added sha256 b draft r
    → Closed b
    → Closed r.1
unfolding knows
Added-Closed sha256 b draft r a c = record {
  known_atoms = λ id.
      rw (a.id_known, a.appended, map-append (λ x. x.id) b.atoms (a.atom ∷ []), a.named)
        (rw (knows-snoc (map (λ x. x.id) b.atoms) a.atom.id id, c.known_atoms id) refl);
  targets =
      subst (λ t. All (λ x. knows t x.target ≡ true) r.1.refs) (sym a.id_known)
        (subst (All (λ x. knows (r.0 ∷ b.known) x.target ≡ true)) (sym a.refs_kept)
          (All-map b.refs (λ x h. knows-cons b.known r.0 x.target h) c.targets));
  sources =
      subst (λ t. All (λ x. copies_known t x.copies ≡ true) r.1.atoms) (sym a.id_known)
        (subst (All (λ x. copies_known (r.0 ∷ b.known) x.copies ≡ true)) (sym a.appended) (
          All-snoc _ b.atoms a.atom
            (All-map b.atoms (λ x h. copies_known-cons b.known r.0 x.copies h) c.sources)
            (copies_known-cons b.known r.0 a.atom.copies a.copies_from)));
}

add_ref-Closed :
    (b : IrBuilder) (r : RefRecord) (b' : IrBuilder) → add_ref b r ≡ ok b' → Closed b → Closed b'
unfolding add_ref
add_ref-Closed b r b' h c =
    let g = else-ok (knows b.known r.target) _ _ b' h in
    subst Closed (ok_injective g.1) (record {
      known_atoms = c.known_atoms;
      targets = All-snoc _ b.refs r c.targets g.0;
      sources = c.sources;
    })

-- In every state of a build that its calls lead to, the ids that are known are those of the atoms that were added,
-- and every ref and every copy names one of them.
pub Reachable-Closed :
    (sha256 : Bytes → Bytes) (from : ImportProvenance) (b : IrBuilder)
    → Reachable sha256 from b
    → Closed b
unfolding copies_known knows
Reachable-Closed sha256 from _ fresh = record {
  known_atoms = λ id. refl;
  targets = tt;
  sources = tt;
}
Reachable-Closed sha256 from _ (blob b bytes r) =
    let c = Reachable-Closed sha256 from b r in
    record { known_atoms = c.known_atoms; targets = c.targets; sources = c.sources }
Reachable-Closed sha256 from _ (atom b draft r before e) =
    Added-Closed sha256 b draft r (add_atom-Added sha256 b draft r e)
      (Reachable-Closed sha256 from b before)
Reachable-Closed sha256 from _ (ref b added b' before e) =
    add_ref-Closed b added b' e (Reachable-Closed sha256 from b before)
Reachable-Closed sha256 from _ (loss b dropped r) =
    let c = Reachable-Closed sha256 from b r in
    record { known_atoms = c.known_atoms; targets = c.targets; sources = c.sources }
Reachable-Closed sha256 from _ (flag b f r) =
    let c = Reachable-Closed sha256 from b r in
    record { known_atoms = c.known_atoms; targets = c.targets; sources = c.sources }
Reachable-Closed sha256 from _ (transform b t r) =
    let c = Reachable-Closed sha256 from b r in
    record { known_atoms = c.known_atoms; targets = c.targets; sources = c.sources }
