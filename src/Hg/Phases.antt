-- ===== src/Hg/Phases.antt =====
-- phases.rs: the phase of every changeset, from the roots that `phaseroots` declares.
pub mod Declare
pub mod Inherit
pub mod Roots
use brygge.Prelude.{
  ℕ, zero, suc, max, List, [], ◌∷◌, Option, none, some, Bytes, length, get_or, modify, replicate,
}
use brygge.Hg.Revlog.{Entry, parent_rev, node_to_rev}

abbrev pub not_published_floor : ℕ
not_published_floor = 2

-- A declared phase and the node it is declared for, as parse_phaseroots reads them from a line.
abbrev pub Root : Type 0
Root = ℕ × Bytes

-- The body of the loop over the roots; a node that is not in the changelog is ignored.
unfoldable pub declare_at : Option ℕ → ℕ → List ℕ → List ℕ
declare_at none declared phase = phase
declare_at (some rev) declared phase = modify rev (λ own. max own declared) phase

unfoldable pub declare : List Entry → List Root → List ℕ → List ℕ
declare entries [] phase = phase
declare entries ((declared, id) ∷ roots) phase =
    declare entries roots (declare_at (node_to_rev entries id) declared phase)

-- The phase that a parent passes on.
abbrev pub passed : List ℕ → ℕ → ℕ → ℕ
passed phase inherited p = elim (parent_rev p) [
  | none ↦ inherited
  | some rev ↦ max inherited (get_or phase rev 0)
]

-- The forward pass, over the entries from a revision on.
unfoldable pub inherit : List Entry → ℕ → List ℕ → List ℕ
inherit [] rev phase = phase
inherit (e ∷ es) rev phase =
    inherit es (suc rev)
      (modify rev (λ own. max own (passed phase (passed phase 0 e.p1) e.p2)) phase)

-- phases::compute, behind the file; none where there is no file.
unfoldable pub compute : List Entry → Option (List Root) → List ℕ
compute entries none = replicate (length entries) 0
compute entries (some roots) =
    inherit entries 0 (declare entries roots (replicate (length entries) 0))
