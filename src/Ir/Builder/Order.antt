-- ===== src/Ir/Builder/Order.antt =====
-- builder.rs, `canonical_order_ids` and `topo_order`: atoms in an order that has parents first, and among the atoms
-- that are ready the one with the least source id first.
use brygge.Prelude.{ℕ, zero, suc, ◌-◌, ◌&&◌, List, [], ◌∷◌, ◌++◌, Option, none, some, Bytes, map}
use brygge.Prelude.{length, ◌==◌, if◌then◌else◌}
use brygge.Prelude.Utf8.{text_eq, text_ltb}
use brygge.Ir.Model.AtomId.{AtomId}
use brygge.Ir.Model.ChangeAtom.{ChangeAtom}

-- The map from ids to atoms that `collect` makes: the last atom of an id counts.
unfoldable pub by_id : List ChangeAtom → AtomId → Option ChangeAtom
by_id [] id = none
by_id (a ∷ atoms) id = elim (by_id atoms id) [
  | some later ↦ some later
  | none ↦ if text_eq a.id id then some a else none
]

abbrev Degrees : Type 0
Degrees = List (AtomId × ℕ)

-- The in-degrees: the entries of an id are kept the same.
unfoldable pub degree : Degrees → AtomId → Option ℕ
degree [] id = none
degree ((k, d) ∷ ds) id = let rest = degree ds id in if text_eq k id then some d else rest

unfoldable pub set_degree : AtomId → ℕ → Degrees → Degrees
set_degree id n [] = []
set_degree id n ((k, d) ∷ ds) =
    let rest = set_degree id n ds in if text_eq k id then (k, n) ∷ rest else (k, d) ∷ rest

abbrev Edges : Type 0
Edges = List (AtomId × AtomId)

-- The children of an atom, in the order in which they were pushed.
unfoldable pub children : AtomId → Edges → List AtomId
children id [] = []
children id ((p, c) ∷ edges) =
    let rest = children id edges in if text_eq p id then c ∷ rest else rest

-- What the first loop fills.
pub record Graph : Type 0 where
  pub degrees : Degrees
  pub edges : Edges

unfoldable pub add_parents : List ChangeAtom → AtomId → List AtomId → Graph → Graph
add_parents atoms id [] g = g
add_parents atoms id (p ∷ parents) g = add_parents atoms id parents (elim (by_id atoms p) [
  | none ↦ g
  | some parent ↦ record {
    degrees = elim (degree g.degrees id) [
      | none ↦ g.degrees
      | some d ↦ set_degree id (suc d) g.degrees
    ];
    edges = g.edges ++ (p, id) ∷ [];
  }
])

unfoldable pub add_atoms : List ChangeAtom → List ChangeAtom → Graph → Graph
add_atoms atoms [] g = g
add_atoms atoms (a ∷ rest) g = add_atoms atoms rest (add_parents atoms a.id a.parents g)

-- The ready set: pairs of source id and id in order, each once.
abbrev Ready : Type 0
Ready = List (Bytes × AtomId)

unfoldable pub insert_ready : Bytes × AtomId → Ready → Ready
insert_ready key [] = key ∷ []
insert_ready key (k ∷ ready) =
    let later = k ∷ insert_ready key ready in
    if text_eq key.0 k.0 && text_eq key.1 k.1
    then k ∷ ready
    else if text_ltb key.0 k.0
    then key ∷ k ∷ ready
    else if text_eq key.0 k.0 && text_ltb key.1 k.1
    then key ∷ k ∷ ready
    else later

abbrev or_zero : Option ℕ → ℕ
or_zero none = 0
or_zero (some d) = d

unfoldable pub start_ready : Degrees → List ChangeAtom → Ready → Ready
start_ready ds [] ready = ready
start_ready ds (a ∷ atoms) ready =
    start_ready ds atoms
      (if or_zero (degree ds a.id) == 0 then insert_ready (a.source.atom_id, a.id) ready else ready)

-- One child of the atom that left the ready set.
unfoldable pub release : List ChangeAtom → AtomId → Degrees × Ready → Degrees × Ready
release atoms kid s = elim (degree s.0 kid) [
  | none ↦ s
  | some d ↦
      let lower = set_degree kid (d - 1) s.0 in
      if d - 1 == 0
      then elim (by_id atoms kid) [
        | none ↦ (lower, s.1)
        | some k ↦ (lower, insert_ready (k.source.atom_id, kid) s.1)
      ]
      else (lower, s.1)
]

unfoldable pub release_all : List ChangeAtom → List AtomId → Degrees × Ready → Degrees × Ready
release_all atoms [] s = s
release_all atoms (kid ∷ kids) s = release_all atoms kids (release atoms kid s)

-- The loop. It is given one round more than there are atoms: as many ids as that are refused anyway.
unfoldable pub order_loop : ℕ → List ChangeAtom → Edges → Degrees × Ready → List AtomId
order_loop zero atoms edges s = []
order_loop (suc fuel) atoms edges (ds, []) = []
order_loop (suc fuel) atoms edges (ds, key ∷ ready) =
    key.1 ∷ order_loop fuel atoms edges (release_all atoms (children key.1 edges) (ds, ready))

-- canonical_order_ids
unfoldable pub canonical_order_ids : List ChangeAtom → Option (List AtomId)
canonical_order_ids atoms =
    let g = add_atoms atoms atoms (record { degrees = map (λ a. (a.id, 0)) atoms; edges = [] }) in
    let out =
      order_loop (suc (length atoms)) atoms g.edges (g.degrees, start_ready g.degrees atoms []) in
    if length out == length atoms then some out else none

-- `by_id.remove`
unfoldable pub without : AtomId → List ChangeAtom → List ChangeAtom
without id [] = []
without id (a ∷ atoms) = let rest = without id atoms in if text_eq a.id id then rest else a ∷ rest

unfoldable pub pick : List AtomId → List ChangeAtom → List ChangeAtom
pick [] atoms = []
pick (id ∷ ids) atoms = elim (by_id atoms id) [
  | none ↦ pick ids atoms
  | some a ↦ a ∷ pick ids (without id atoms)
]

-- topo_order; the error is the caller's.
unfoldable pub topo_order : List ChangeAtom → Option (List ChangeAtom)
topo_order atoms = elim (canonical_order_ids atoms) [
  | none ↦ none
  | some ids ↦ some (pick ids atoms)
]
