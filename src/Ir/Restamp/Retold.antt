-- ===== src/Ir/Restamp/Retold.antt =====
-- restamp.rs: how the atoms and refs of a restamped `Ir` stand to those of the old one.
use brygge.Prelude.{
  ◌≡◌, refl, sym, ap, ◌∙◌, List, [], ◌∷◌, map, Bytes, ok, ok_or, Option, none, some, Result, err,
  Bool-cases, inl, inr,
}
use brygge.Prelude.Utf8.{text_eq, text_eq→eq}
use mathlib.Core.List.{Memᴰ, Permᴰ}
use mathlib.Core.Path.{subst}
use brygge.Ir.Error.{Error}
use brygge.Ir.Status.EpistemicStatus.{EpistemicStatus}
use brygge.Ir.Model.AtomId.{AtomId}
use brygge.Ir.Model.PathOp.{PathOp}
use brygge.Ir.Model.CopyRecord.{CopyRecord}
use brygge.Ir.Model.ChangeAtom.{ChangeAtom}
use brygge.Ir.Model.RefRecord.{RefRecord}
use brygge.Ir.Builder.{AtomDraft, IrBuilder}
use brygge.Ir.Builder.Finished.{Added, ok_injective}
use brygge.Ir.Restamp.{
  ◌>>=◌, IdMap, renamed, restamp_op, restamp_copy, restamp_copies, restamp_parents, restamp_atom,
  restamp_ref,
}
use brygge.Ir.Restamp.Status.{StatusAfter, restamp_status-StatusAfter}

-- Two lists of one length, related element by element.
pub data Pairwise {A B : Type 0} (R : A → B → Type 0) : List A → List B → Type 0 where
  no_pairs : Pairwise R [] []
  pair_of :
      (a : A) (b : B) (xs : List A) (ys : List B)
      → R a b
      → Pairwise R xs ys
      → Pairwise R (a ∷ xs) (b ∷ ys)

module _ (decoder version : Bytes) where
  -- An operation keeps its kind, path, blob and mode.
  pub data OpAfter : PathOp → PathOp → Type 0 where
    still_add :
        (path blob : Bytes) (mode : _) (s t : EpistemicStatus)
        → StatusAfter decoder version s t
        → OpAfter (PathOp.add path blob mode s) (PathOp.add path blob mode t)
    still_modify :
        (path blob : Bytes) (mode : _) (s t : EpistemicStatus)
        → StatusAfter decoder version s t
        → OpAfter (PathOp.modify path blob mode s) (PathOp.modify path blob mode t)
    still_delete :
        (path : Bytes) (s t : EpistemicStatus)
        → StatusAfter decoder version s t
        → OpAfter (PathOp.delete path s) (PathOp.delete path t)
    still_replace :
        (path blob : Bytes) (mode : _) (s t : EpistemicStatus)
        → StatusAfter decoder version s t
        → OpAfter (PathOp.replace path blob mode s) (PathOp.replace path blob mode t)

  -- `ids` pairs the ids of the old atoms with those of the new ones.
  pub record CopyAfter (ids : IdMap) (c d : CopyRecord) : Type 0 where
    pub from : d.from ≡ c.from
    pub to : d.to ≡ c.to
    pub from_atom : Memᴰ (c.from_atom, d.from_atom) ids
    pub status : StatusAfter decoder version c.status d.status

  pub record RefAfter (ids : IdMap) (r s : RefRecord) : Type 0 where
    pub name : s.name ≡ r.name
    pub kind : s.kind ≡ r.kind
    pub target : Memᴰ (r.target, s.target) ids
    pub status : StatusAfter decoder version r.status s.status
    pub source : s.source ≡ r.source
    pub annotation : s.annotation ≡ r.annotation

  -- The operations and the copies are put in order once they are restamped.
  pub record AtomAfter (ids : IdMap) (a b : ChangeAtom) : Type 0 where
    pub parents : Pairwise (λ p q. Memᴰ (p, q) ids) a.parents b.parents
    pub ops : (unordered : List PathOp) × Pairwise OpAfter a.ops unordered × Permᴰ unordered b.ops
    pub copies :
        (unordered : List CopyRecord) × Pairwise (CopyAfter ids) a.copies unordered
        × Permᴰ unordered b.copies
    pub metadata : b.metadata ≡ a.metadata
    pub source : b.source ≡ a.source
    pub status : StatusAfter decoder version a.status b.status

  -- The atoms in their order. What an atom names is among the atoms before it; the pairs of all come out.
  pub data Retold : IdMap → List ChangeAtom → List ChangeAtom → IdMap → Type 0 where
    no_atoms : (ids : IdMap) → Retold ids [] [] ids
    atom_of :
        (ids final : IdMap) (a b : ChangeAtom) (old new : List ChangeAtom)
        → AtomAfter ids a b
        → Retold ((a.id, b.id) ∷ ids) old new final
        → Retold ids (a ∷ old) (b ∷ new) final

pub bind-ok :
    {A B : Type 0} (m : Result Error A) (f : A → Result Error B) (b : B)
    → (m >>= f) ≡ ok b
    → (a : A) × (m ≡ ok a) × (f a ≡ ok b)
bind-ok (ok a) f b h = (a, refl, h)
bind-ok (err e) f b h = absurd (cc h)

pub ok_or-some : {A : Type 0} (o : Option A) (e : Error) (a : A) → ok_or o e ≡ ok a → o ≡ some a
ok_or-some (some b) e a h = ap some (ok_injective h)
ok_or-some none e a h = absurd (cc h)

renamed-Mem : (ids : IdMap) (id new : AtomId) → renamed ids id ≡ some new → Memᴰ (id, new) ids
unfolding renamed
renamed-Mem [] id new h = absurd (cc h)
renamed-Mem ((k, v) ∷ ids) id new h = elim (Bool-cases (text_eq k id)) [
  | inr differ ↦ Memᴰ.tail (renamed-Mem ids id new (rw differ at h))
  | inl same ↦
      let found : some v ≡ some new = rw same at h in
      let key = text_eq→eq k id same in Memᴰ.head (cc (found, key))
]

pub found-Mem :
    (ids : IdMap) (id new : AtomId) (e : Error)
    → ok_or (renamed ids id) e ≡ ok new
    → Memᴰ (id, new) ids
found-Mem ids id new e h = renamed-Mem ids id new (ok_or-some (renamed ids id) e new h)

restamp_parents-Pairwise :
    (ids : IdMap) (parents out : List AtomId)
    → restamp_parents ids parents ≡ ok out
    → Pairwise (λ p q. Memᴰ (p, q) ids) parents out
unfolding restamp_parents
restamp_parents-Pairwise ids [] out h = subst (Pairwise _ []) (ok_injective h) no_pairs
restamp_parents-Pairwise ids (p ∷ parents) out h =
    let q = bind-ok (ok_or (renamed ids p) _) _ out h in
    let qs = bind-ok (restamp_parents ids parents) _ out q.2 in
    subst (Pairwise _ (p ∷ parents)) (ok_injective qs.2) (
      pair_of p q.0 parents qs.0 (found-Mem ids p q.0 _ q.1)
        (restamp_parents-Pairwise ids parents qs.0 qs.1))

module _ (decoder version : Bytes) where
  restamp_op-OpAfter : (op : PathOp) → OpAfter decoder version op (restamp_op decoder version op)
  unfolding restamp_op
  restamp_op-OpAfter (PathOp.add path blob mode s) =
      still_add path blob mode s _ (restamp_status-StatusAfter decoder version s)
  restamp_op-OpAfter (PathOp.modify path blob mode s) =
      still_modify path blob mode s _ (restamp_status-StatusAfter decoder version s)
  restamp_op-OpAfter (PathOp.delete path s) =
      still_delete path s _ (restamp_status-StatusAfter decoder version s)
  restamp_op-OpAfter (PathOp.replace path blob mode s) =
      still_replace path blob mode s _ (restamp_status-StatusAfter decoder version s)

  restamp_ops-Pairwise :
      (ops : List PathOp)
      → Pairwise (OpAfter decoder version) ops (map (restamp_op decoder version) ops)
  restamp_ops-Pairwise [] = no_pairs
  restamp_ops-Pairwise (op ∷ ops) =
      pair_of op (restamp_op decoder version op) ops (map (restamp_op decoder version) ops)
        (restamp_op-OpAfter op) (restamp_ops-Pairwise ops)

  restamp_copy-CopyAfter :
      (ids : IdMap) (c d : CopyRecord)
      → restamp_copy decoder version ids c ≡ ok d
      → CopyAfter decoder version ids c d
  unfolding restamp_copy
  restamp_copy-CopyAfter ids c d h =
      let q = bind-ok (ok_or (renamed ids c.from_atom) _) _ d h in
      subst (CopyAfter decoder version ids c) (ok_injective q.2) (record {
        from = refl;
        to = refl;
        from_atom = found-Mem ids c.from_atom q.0 _ q.1;
        status = restamp_status-StatusAfter decoder version c.status;
      })

  restamp_copies-Pairwise :
      (ids : IdMap) (copies out : List CopyRecord)
      → restamp_copies decoder version ids copies ≡ ok out
      → Pairwise (CopyAfter decoder version ids) copies out
  unfolding restamp_copies
  restamp_copies-Pairwise ids [] out h =
      subst (Pairwise (CopyAfter decoder version ids) []) (ok_injective h) no_pairs
  restamp_copies-Pairwise ids (c ∷ copies) out h =
      let d = bind-ok (restamp_copy decoder version ids c) _ out h in
      let ds = bind-ok (restamp_copies decoder version ids copies) _ out d.2 in
      subst (Pairwise (CopyAfter decoder version ids) (c ∷ copies)) (ok_injective ds.2) (
        pair_of c d.0 copies ds.0 (restamp_copy-CopyAfter ids c d.0 d.1)
          (restamp_copies-Pairwise ids copies ds.0 ds.1))

  pub restamp_ref-RefAfter :
      (ids : IdMap) (r s : RefRecord)
      → restamp_ref decoder version ids r ≡ ok s
      → RefAfter decoder version ids r s
  unfolding restamp_ref
  restamp_ref-RefAfter ids r s h =
      let q = bind-ok (ok_or (renamed ids r.target) _) _ s h in
      subst (RefAfter decoder version ids r) (ok_injective q.2) (record {
        name = refl;
        kind = refl;
        target = found-Mem ids r.target q.0 _ q.1;
        status = restamp_status-StatusAfter decoder version r.status;
        source = refl;
        annotation = refl;
      })

  pub restamp_atom-AtomAfter :
      (sha256 : Bytes → Bytes) (ids : IdMap) (a : ChangeAtom) (draft : AtomDraft) (b : IrBuilder)
      (r : AtomId × IrBuilder)
      → restamp_atom decoder version ids a ≡ ok draft
      → (added : Added sha256 b draft r) → AtomAfter decoder version ids a added.atom
  unfolding restamp_atom
  restamp_atom-AtomAfter sha256 ids a draft b r h added =
      let p = bind-ok (restamp_parents ids a.parents) _ draft h in
      let c = bind-ok (restamp_copies decoder version ids a.copies) _ draft p.2 in
      let same = ok_injective c.2 in
      record {
        parents =
            subst (Pairwise _ a.parents) (ap (λ d. d.parents) same ∙ sym added.parents_same)
              (restamp_parents-Pairwise ids a.parents p.0 p.1);
        ops = (
          draft.ops,
          subst (Pairwise _ a.ops) (ap (λ d. d.ops) same) (restamp_ops-Pairwise a.ops),
          added.ops_same,
        );
        copies = (
          draft.copies,
          subst (Pairwise _ a.copies) (ap (λ d. d.copies) same)
              (restamp_copies-Pairwise ids a.copies c.0 c.1),
          added.copies_same,
        );
        metadata = added.metadata_same ∙ sym (ap (λ d. d.metadata) same);
        source = added.source_same ∙ sym (ap (λ d. d.source) same);
        status =
            subst (StatusAfter decoder version a.status)
              (ap (λ d. d.status) same ∙ sym added.status_same)
              (restamp_status-StatusAfter decoder version a.status);
      }
