-- ===== src/Tests/Builder.antt =====
-- A build of one atom, which adds a file, and a branch on it.
use brygge.Prelude.{◌≡◌, refl, true, false, [], ◌∷◌, ◌++◌, ok, err}
use brygge.Prelude.Utf8.{codes, text_eq, text_ltb}
use brygge.Ir.Content.{or_insert, retain}
use brygge.Ir.Content
use brygge.Ir.Model.AtomId.{AtomId}
use brygge.Ir.Model.PathOp
use brygge.Ir.Model.PathOp.{PathOp}
use brygge.Ir.Model.ChangeAtom.{ChangeAtom, less_path, less_copy, compute_id}
use brygge.Ir.Model.Checks.{ascending}
use brygge.Ir.Status.EpistemicStatus.{EpistemicStatus}
use brygge.Ir.Error.{invariant}
use brygge.Ir.Builder.{
  AtomDraft, IrBuilder, Built, new, knows, same_path, copies_known, op_blobs, referenced, add_ref,
  assemble, finish_ordered, finish, atom_of, add_atom, add_blob,
}
use brygge.Ir.Builder.Order.{
  by_id, degree, set_degree, children, add_parents, add_atoms, insert_ready, start_ready, release,
  release_all, order_loop, canonical_order_ids, without, pick, topo_order,
}
use brygge.Ir.Builder.Sorting.{insert, sort_onto, sort_by, repeats}
use brygge.Ir.Builder.Finished
use brygge.Ir.Builder.Finished.{Canonical, Added}
use brygge.Ir.Builder.Steps
use brygge.Ir.Builder.Steps.{Reachable, fresh, atom, ref, Closed}
use brygge.Tests.Sample.{
  zeros, constant_hash, claims, git_source, imported, main_branch, left_out, flagged, redaction,
  add_file, copied,
}

abbrev draft : AtomDraft
draft = record {
  parents = [];
  ops = PathOp.delete (codes "b") EpistemicStatus.stated ∷ add_file ∷ [];
  copies = [];
  metadata = claims;
  source = git_source;
  status = EpistemicStatus.stated;
}

abbrev added : ChangeAtom
added = record {
  id = zeros 32;
  parents = [];
  ops = add_file ∷ PathOp.delete (codes "b") EpistemicStatus.stated ∷ [];
  copies = [];
  metadata = claims;
  source = git_source;
  status = EpistemicStatus.stated;
}

abbrev with_atom : IrBuilder
with_atom = record (new imported) { atoms = added ∷ []; known = zeros 32 ∷ [] }

atom_added : add_atom constant_hash (new imported) draft ≡ ok (zeros 32, with_atom)
unfolding add_atom sort_by sort_onto insert repeats less_path same_path PathOp.path text_ltb text_eq
    copies_known atom_of compute_id
atom_added = refl

add_atom-Added_example : Added constant_hash (new imported) draft (zeros 32, with_atom)
add_atom-Added_example =
    Finished.add_atom-Added constant_hash (new imported) draft (zeros 32, with_atom) atom_added

abbrev with_ref : IrBuilder
with_ref = record with_atom { refs = main_branch ∷ [] }

ref_added : add_ref with_atom main_branch ≡ ok with_ref
unfolding add_ref knows text_eq
ref_added = refl

ref_to_nothing : add_ref (new imported) main_branch ≡ err (invariant "ref targets unknown atom")
unfolding add_ref knows
ref_to_nothing = refl

Reachable-Closed_example : Closed with_ref
Reachable-Closed_example = Steps.Reachable-Closed constant_hash imported with_ref (
    ref with_atom main_branch with_ref
      (atom (new imported) draft (zeros 32, with_atom) fresh atom_added) ref_added)

-- The blob of the added file, and one that nothing names.
abbrev full : IrBuilder
full = record with_ref {
  content = (zeros 32, codes "text") ∷ (1 ∷ zeros 31, codes "orphan") ∷ [];
  dropped = left_out ∷ [];
  flags = flagged ∷ [];
  transforms = redaction ∷ [];
}

abbrev built : Built
built = record {
  ir = record {
    atoms = added ∷ [];
    refs = main_branch ∷ [];
    provenance = imported;
    dropped = left_out ∷ [];
    flags = flagged ∷ [];
    transforms = redaction ∷ [];
  };
  content = (zeros 32, codes "text") ∷ [];
}

finished : finish full ≡ ok built
unfolding finish finish_ordered topo_order canonical_order_ids add_atoms add_parents by_id degree
    set_degree children start_ready insert_ready order_loop release_all release pick without
    assemble sort_by sort_onto insert repeats retain knows referenced op_blobs text_eq
finished = refl

finish-Canonical_example : Canonical full built
finish-Canonical_example = Finished.finish-Canonical full built finished

abbrev copies_twice : AtomDraft
copies_twice = record draft { ops = []; copies = copied ∷ copied ∷ [] }

is_known : knows (zeros 32 ∷ []) (zeros 32) ≡ true
unfolding knows text_eq
is_known = refl

add_atom_repeated_copy_example :
    (r : AtomId × IrBuilder) × (add_atom constant_hash with_atom copies_twice ≡ ok r)
    × (a : ChangeAtom) × (r.1.atoms ≡ (added ∷ []) ++ a ∷ [])
    × (ascending less_copy a.copies ≡ false)
add_atom_repeated_copy_example =
    Finished.add_atom_repeated_copy constant_hash with_atom copies_twice copied refl refl is_known

blob_once : (add_blob constant_hash full (codes "text")).1.content ≡ full.content
unfolding Content.insert or_insert text_eq
blob_once = refl
