-- ===== src/Ir/Artifact/Structure.antt =====
-- artifact.rs, `check_structure` and the checks that it calls: what a reader demands of the records together.
pub mod Vocabulary
pub mod Chain
pub mod Sound
use brygge.Prelude.{
  ℕ, zero, suc, ◌+◌, Bool, true, false, ◌&&◌, ◌||◌, not, List, [], ◌∷◌, ◌++◌, Option, none, some,
  map,
}
use brygge.Prelude.{Bytes, String, length, leb, ltb, ◌==◌, if◌then◌else◌, Result, ok, err}
use brygge.Prelude.Utf8.{text_eq}
use brygge.Ir.Error.{Error, ContractVersion, decode, non_canonical}
use brygge.Ir.Content
use brygge.Ir.Content.{BlobId, ContentStore}
use brygge.Ir.Model.AtomId.{AtomId}
use brygge.Ir.Model.PathOp.{PathOp, op_status}
use brygge.Ir.Model.CopyRecord.{CopyRecord}
use brygge.Ir.Model.ChangeAtom.{ChangeAtom}
use brygge.Ir.Model.RefRecord.{RefRecord}
use brygge.Ir.Model.DropRecord.{DropRecord, is_transform}
use brygge.Ir.Model.Metadata.{Ir}
use brygge.Ir.Status.ChangedPart.{ChangedPart, valid_on_atom, valid_on_op, valid_on_ref}
use brygge.Ir.Status.EpistemicStatus.{EpistemicStatus, stated, derived, transformed}
use brygge.Ir.Builder.{knows, op_blobs, referenced}
use brygge.Ir.Builder.Order.{canonical_order_ids}

abbrev pub Checked : Type 0
Checked = Result Error (Unit {0})

abbrev pub check : Bool → Error → Checked
check true e = ok tt
check false e = err e

infixl 5 ◌>>◌
abbrev pub ◌>>◌ : Checked → Checked → Checked
ok u >> k = k
err e >> k = err e

abbrev pub every : {A : Type 0} → (A → Bool) → List A → Bool
every p [] = true
every p (x ∷ xs) = p x && every p xs

-- A loop that stops at the first item that fails.
abbrev pub for_each : {A : Type 0} → (A → Checked) → List A → Checked
for_each f [] = ok tt
for_each f (x ∷ xs) = f x >> for_each f xs

-- StatusContext
pub data StatusContext : Type 0 where
  on_atom on_op on_ref on_copy : StatusContext

unfoldable pub vocab_ok : StatusContext → ChangedPart → Bool
vocab_ok on_atom part = valid_on_atom part
vocab_ok on_op part = valid_on_op part
vocab_ok on_ref part = valid_on_ref part
vocab_ok on_copy part = false

abbrev pub is_copy : StatusContext → Bool
is_copy on_copy = true
is_copy _ = false

-- check_status_chain; the loop goes from a status to the one before it.
unfoldable pub check_status_chain : EpistemicStatus → StatusContext → ℕ → Checked
check_status_chain stated context nsteps = ok tt
check_status_chain (derived d) context nsteps = ok tt
check_status_chain (transformed step changed prior) context nsteps =
    check (not (is_copy context))
      (non_canonical "Transformed may not appear on a copy record's own status")
    >> check (ltb step nsteps)
        (non_canonical "a Transformed status's step is not less than the chain's length")
    >> check (every (vocab_ok context) changed)
        (decode "a Transformed status's changed uses a part outside its vocabulary")
    >> check_status_chain prior context nsteps

unfoldable pub check_atom_chain : ℕ → ChangeAtom → Checked
check_atom_chain nsteps a =
    check_status_chain a.status on_atom nsteps
    >> for_each (λ op. check_status_chain (op_status op) on_op nsteps) a.ops
    >> for_each (λ c. check_status_chain c.status on_copy nsteps) a.copies

unfoldable pub check_drop_step : ℕ → Option ℕ → Checked
check_drop_step nsteps none = ok tt
check_drop_step nsteps (some step) =
    check (ltb step nsteps)
      (non_canonical "a Transform drop's step is not less than the chain's length")

-- check_transform_chain
unfoldable pub check_transform_chain : Ir → Checked
check_transform_chain ir =
    for_each (check_atom_chain (length ir.transforms)) ir.atoms
    >> for_each (λ r. check_status_chain r.status on_ref (length ir.transforms)) ir.refs
    >> for_each (λ d. check_drop_step (length ir.transforms) d.step) ir.dropped

unfoldable pub is_transformed : EpistemicStatus → Bool
is_transformed (transformed step changed prior) = true
is_transformed stated = false
is_transformed (derived d) = false

abbrev pub no_transformed : EpistemicStatus → Checked
no_transformed s =
    check (not (is_transformed s))
      (non_canonical "contract 0.2.0 does not have EpistemicStatus variant 2 (Transformed)")

unfoldable pub reject_atom : ChangeAtom → Checked
reject_atom a =
    no_transformed a.status
    >> for_each (λ op. no_transformed (op_status op)) a.ops
    >> for_each (λ c. no_transformed c.status) a.copies

abbrev pub is_some : {A : Type 0} → Option A → Bool
is_some none = false
is_some (some a) = true

unfoldable pub reject_drop : DropRecord → Checked
reject_drop d =
    check (not (is_transform d.class))
      (non_canonical "contract 0.2.0 does not have LossClass variant 3 (Transform)")
    >> check (not (is_some d.step))
        (non_canonical "contract 0.2.0 does not have DropRecord field 4 (step)")

-- reject_transform_extensions
unfoldable pub reject_transform_extensions : Ir → Checked
reject_transform_extensions ir =
    check (length ir.transforms == 0)
      (non_canonical "contract 0.2.0 does not have Ir field 6 (transforms)")
    >> for_each reject_atom ir.atoms
    >> for_each (λ r. no_transformed r.status) ir.refs
    >> for_each reject_drop ir.dropped

-- The map from ids to positions; an id that occurs twice is refused.
unfoldable pub next_position : Option ℕ → Bool → Option ℕ
next_position (some later) same = some (suc later)
next_position none true = some 0
next_position none false = none

unfoldable pub position : List AtomId → AtomId → Option ℕ
position [] id = none
position (i ∷ ids) id = next_position (position ids id) (text_eq i id)

unfoldable pub distinct : List AtomId → List AtomId → Bool
distinct seen [] = true
distinct seen (id ∷ ids) = not (knows seen id) && distinct (id ∷ seen) ids

unfoldable pub before : ℕ → Option ℕ → Bool
before i none = false
before i (some at) = ltb at i

-- The loop over the atoms: what each one names is an earlier atom.
unfoldable pub check_atoms : (AtomId → Option ℕ) → ℕ → List ChangeAtom → Checked
check_atoms at i [] = ok tt
check_atoms at i (a ∷ atoms) =
    check (every (λ p. before i (at p)) a.parents)
      (non_canonical "atom names a parent that is not an earlier atom")
    >> check (every (λ c. before i (at c.from_atom)) a.copies)
        (non_canonical "a copy names a from_atom that is not an earlier atom")
    >> check_atoms at (suc i) atoms

unfoldable pub same_ids : List AtomId → List AtomId → Bool
same_ids [] [] = true
same_ids (x ∷ xs) (y ∷ ys) = text_eq x y && same_ids xs ys
same_ids _ _ = false

unfoldable pub check_order : List AtomId → Option (List AtomId) → Checked
check_order ids none = err (non_canonical "atom graph contains a cycle")
check_order ids (some canonical) =
    check (same_ids canonical ids) (non_canonical "atoms are not in canonical topological order")

unfoldable pub check_extensions : ContractVersion → Ir → Checked
check_extensions contract ir =
    let reject = reject_transform_extensions ir in
    let chain = check_transform_chain ir in if contract.minor == 2 then reject else chain

-- check_structure, of an `Ir` and its content store
unfoldable pub check_structure : Ir → ContentStore → ContractVersion → Checked
check_structure ir content contract =
    let atom_ids = map (λ a. a.id) ir.atoms in
    check (distinct [] atom_ids) (non_canonical "duplicate atom id")
    >> check_atoms (position atom_ids) 0 ir.atoms
    >> check_order atom_ids (canonical_order_ids ir.atoms)
    >> check (every (λ r. is_some (position atom_ids r.target)) ir.refs)
        (non_canonical "ref targets an unknown atom")
    >> check (every (λ id. Content.contains id content) (referenced ir.atoms))
        (decode "an operation references a blob missing from the store")
    >> check (every (knows (referenced ir.atoms)) (Content.ids content))
        (non_canonical "blob is stored but referenced by no operation (orphan)")
    >> check_extensions contract ir
