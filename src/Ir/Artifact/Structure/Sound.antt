-- ===== src/Ir/Artifact/Structure/Sound.antt =====
-- artifact.rs, `check_structure`: what holds of the records that pass.
use brygge.Prelude.{
  ℕ, zero, suc, ◌+◌, ◌<◌, ◌≡◌, refl, ap, sym, arith, Bool, true, false, List, [], ◌∷◌,
}
use brygge.Prelude.{
  Option, none, some, length, map, ltb→lt, ok, and_true, All, get_elem?, Option-cases, inl, inr,
  ◌⊎◌,
}
use brygge.Prelude.{get_elem?-lt}
use brygge.Prelude.{Bool-cases, ◌==◌}
use brygge.Prelude.Utf8.{text_eq, text_eq→eq}
use brygge.Ir.Error.{ContractVersion}
use brygge.Ir.Content
use brygge.Ir.Content.{BlobId, ContentStore}
use brygge.Ir.Model.AtomId.{AtomId}
use brygge.Ir.Model.ChangeAtom.{ChangeAtom}
use brygge.Ir.Model.RefRecord.{RefRecord}
use brygge.Ir.Model.Metadata.{Ir}
use brygge.Ir.Builder.{knows, referenced}
use brygge.Ir.Builder.Order.{canonical_order_ids}
use brygge.Ir.Artifact.Structure.{
  next_position, position, before, check_atoms, same_ids, check_order, check_extensions,
  check_transform_chain, check_structure, is_some,
}
use brygge.Ir.Artifact.Structure.Chain.{
  Passes, check-Passes, then-Passes, reject_transform_extensions-check_transform_chain, every-All,
}

-- The id stands at a position below another.
pub Earlier : List ChangeAtom → ℕ → AtomId → Type 0
Earlier atoms i id =
    (p : ℕ) × (a : ChangeAtom) × (p < i) × (get_elem? atoms p ≡ some a) × (a.id ≡ id)

next_position-cases :
    (o : Option ℕ) (same : Bool) (p : ℕ)
    → next_position o same ≡ some p
    → ((p ≡ 0) × (same ≡ true)) ⊎ ((q : ℕ) × (o ≡ some q) × (p ≡ suc q))
unfolding next_position
next_position-cases (some q) same p h = inr (q, refl, cc h)
next_position-cases none true p h = inl (cc h, refl)
next_position-cases none false p h = absurd (cc h)

position-atom :
    (atoms : List ChangeAtom) (id : AtomId) (p : ℕ)
    → position (map (λ a. a.id) atoms) id ≡ some p
    → (a : ChangeAtom) × (get_elem? atoms p ≡ some a) × (a.id ≡ id)
unfolding position
position-atom [] id p h = absurd (cc h)
position-atom (a ∷ atoms) id p h =
    elim (next_position-cases (position (map (λ x. x.id) atoms) id) (text_eq a.id id) p h) [
      | inl first ↦ rw first.0 (a, refl, text_eq→eq a.id id first.1)
      | inr s ↦ rw s.2 (position-atom atoms id s.0 s.1)
    ]

before_lem :
    (atoms : List ChangeAtom) (i : ℕ) (id : AtomId)
    → before i (position (map (λ a. a.id) atoms) id) ≡ true
    → Earlier atoms i id
unfolding before Earlier
before_lem atoms i id h = elim (Option-cases (position (map (λ a. a.id) atoms) id)) [
  | inl missing ↦ absurd (cc (rw (before, missing) at h))
  | inr p ↦
      let found = position-atom atoms id p.0 p.1 in
      (p.0, found.0, ltb→lt p.0 i (rw (before, p.1) at h), found.1, found.2)
]

All-map :
    {A : Type 0} {P Q : A → Type 0} (xs : List A) → ((x : A) → P x → Q x) → All P xs → All Q xs
All-map [] f h = tt
All-map (x ∷ xs) f (h, hs) = (f x h, All-map xs f hs)

check_atoms_lem :
    (at : AtomId → Option ℕ) (i : ℕ) (atoms : List ChangeAtom) (j k : ℕ) (a : ChangeAtom)
    → Passes (check_atoms at i atoms)
    → get_elem? atoms j ≡ some a
    → k ≡ i + j
    → All (λ p. before k (at p) ≡ true) a.parents
      × All (λ c. before k (at c.from_atom) ≡ true) a.copies
unfolding check_atoms
check_atoms_lem at i [] j k a h there e = absurd (cc there)
check_atoms_lem at i (b ∷ atoms) zero k a h there e =
    let first = then-Passes _ _ (then-Passes _ _ h).0 in
    let same : b ≡ a = cc there in
    let here : i ≡ k = omega arith in
    rw (sym same, sym here)
      (
        every-All (λ p. before i (at p)) b.parents (check-Passes _ _ first.0),
        every-All (λ c. before i (at c.from_atom)) b.copies (check-Passes _ _ first.1),
      )
check_atoms_lem at i (b ∷ atoms) (suc j) k a h there e =
    check_atoms_lem at (suc i) atoms j k a (then-Passes _ _ h).1 there (omega arith)

same_ids→eq : (xs ys : List AtomId) → same_ids xs ys ≡ true → xs ≡ ys
unfolding same_ids
same_ids→eq [] [] h = refl
same_ids→eq [] (y ∷ ys) h = absurd (cc h)
same_ids→eq (x ∷ xs) [] h = absurd (cc h)
same_ids→eq (x ∷ xs) (y ∷ ys) h =
    let both = and_true (text_eq x y) (same_ids xs ys) h in
    cc (text_eq→eq x y both.0, same_ids→eq xs ys both.1)

check_order_lem :
    (ids : List AtomId) (o : Option (List AtomId)) → Passes (check_order ids o) → o ≡ some ids
unfolding check_order Passes
check_order_lem ids none h = absurd (cc h)
check_order_lem ids (some canonical) h = ap some (same_ids→eq canonical ids (check-Passes _ _ h))

check_extensions_lem :
    (contract : ContractVersion) (ir : Ir)
    → Passes (check_extensions contract ir)
    → check_transform_chain ir ≡ ok tt
unfolding check_extensions Passes
check_extensions_lem contract ir h = elim (Bool-cases (contract.minor == 2)) [
  | inl two ↦ reject_transform_extensions-check_transform_chain ir (rw two at h)
  | inr later ↦ rw later at h
]

-- The relations between the records of an artifact.
pub record Structured (ir : Ir) (content : ContentStore) : Type 0 where
  pub parents_earlier :
      (i : ℕ) (a : ChangeAtom) → get_elem? ir.atoms i ≡ some a → All (Earlier ir.atoms i) a.parents
  pub sources_earlier :
      (i : ℕ) (a : ChangeAtom)
      → get_elem? ir.atoms i ≡ some a
      → All (λ c. Earlier ir.atoms i c.from_atom) a.copies
  pub canonical_order : canonical_order_ids ir.atoms ≡ some (map (λ a. a.id) ir.atoms)
  pub targets_known : All (λ r. Earlier ir.atoms (length ir.atoms) r.target) ir.refs
  pub blobs_stored : All (λ id. Content.contains id content ≡ true) (referenced ir.atoms)
  pub no_orphans : All (λ id. knows (referenced ir.atoms) id ≡ true) (Content.ids content)
  pub chain_checked : check_transform_chain ir ≡ ok tt

target_lem :
    (atoms : List ChangeAtom) (r : RefRecord)
    → is_some (position (map (λ a. a.id) atoms) r.target) ≡ true
    → Earlier atoms (length atoms) r.target
unfolding Earlier
target_lem atoms r h = elim (Option-cases (position (map (λ a. a.id) atoms) r.target)) [
  | inl missing ↦ absurd (cc (rw missing at h))
  | inr p ↦
      let found = position-atom atoms r.target p.0 p.1 in
      (p.0, found.0, get_elem?-lt atoms p.0 found.0 found.1, found.1, found.2)
]

-- In an artifact that passes, of any contract, every parent and every source of a copy is an atom that stands
-- earlier, the atoms are in the canonical order, every ref names one of them, the blobs that the operations name
-- and the blobs that are stored are the same, and the chain of transforms passes its check.
pub check_structure-Structured :
    (ir : Ir) (content : ContentStore) (contract : ContractVersion)
    → check_structure ir content contract ≡ ok tt
    → Structured ir content
unfolding check_structure Passes
check_structure-Structured ir content contract h =
    let ids = map (λ a. a.id) ir.atoms in
    let g6 = then-Passes _ _ h in
    let g5 = then-Passes _ _ g6.0 in
    let g4 = then-Passes _ _ g5.0 in
    let g3 = then-Passes _ _ g4.0 in
    let g2 = then-Passes _ _ g3.0 in
    let g1 = then-Passes _ _ g2.0 in
    record {
      parents_earlier = λ i a there.
          All-map a.parents (λ p. before_lem ir.atoms i p)
            (check_atoms_lem (position ids) 0 ir.atoms i i a g1.1 there (omega arith)).0;
      sources_earlier = λ i a there.
          All-map a.copies (λ c. before_lem ir.atoms i c.from_atom)
            (check_atoms_lem (position ids) 0 ir.atoms i i a g1.1 there (omega arith)).1;
      canonical_order = check_order_lem ids (canonical_order_ids ir.atoms) g2.1;
      targets_known =
          All-map ir.refs (target_lem ir.atoms) (every-All _ ir.refs (check-Passes _ _ g3.1));
      blobs_stored = every-All _ (referenced ir.atoms) (check-Passes _ _ g4.1);
      no_orphans = every-All _ (Content.ids content) (check-Passes _ _ g5.1);
      chain_checked = check_extensions_lem contract ir g6.1;
    }
