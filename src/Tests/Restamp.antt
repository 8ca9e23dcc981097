-- ===== src/Tests/Restamp.antt =====
-- Restamping an `Ir` of one atom, whose one operation has a derived status below two transforms.
use brygge.Prelude.{◌≡◌, refl, ◌↔◌, ◌∷◌, [], ok, err, Bytes}
use brygge.Prelude.Utf8.{codes, text_eq, text_ltb}
use brygge.Ir.Content.{or_insert, retain, get}
use brygge.Ir.Content
use brygge.Ir.Model.PathOp
use brygge.Ir.Model.PathOp.{PathOp}
use brygge.Ir.Model.ChangeAtom.{less_path, compute_id}
use brygge.Ir.Status.EpistemicStatus.{EpistemicStatus}
use brygge.Ir.Error.{invariant}
use brygge.Ir.Builder.{
  Built, knows, same_path, copies_known, op_blobs, referenced, add_ref, assemble, finish_ordered,
  finish, atom_of, add_atom,
}
use brygge.Ir.Builder.Order.{
  by_id, degree, set_degree, children, add_parents, insert_ready, start_ready, release, release_all,
  order_loop, canonical_order_ids, without, pick, topo_order,
}
use brygge.Ir.Builder.Order
use brygge.Ir.Builder.Sorting.{insert, sort_onto, sort_by, repeats}
use brygge.Ir.Restamp.{
  renamed, restamp_derivation, restamp_status, restamp_op, restamp_copies, restamp_parents,
  restamp_atom, restamp_ref, add_refs, add_flags, add_transforms, add_blobs, rebuild, restamped,
}
use brygge.Ir.Restamp
use brygge.Ir.Restamp.Status
use brygge.Ir.Restamp.Status.{Stamped}
use brygge.Ir.Restamp.Rebuilt
use brygge.Ir.Restamp.Rebuilt.{Restamped}
use brygge.Tests.Sample.{
  zeros, constant_hash, claims, git_source, imported, main_branch, left_out, flagged, redaction,
  twice_changed,
}

abbrev git : Bytes
git = codes "brygge-decode-git"

-- As an older version decoded it and as a newer one does.
abbrev status_of : Bytes → EpistemicStatus
status_of version = restamp_status git version twice_changed

abbrev decoded_by : Bytes → Built
decoded_by version = record {
  ir = record {
    atoms =
        record {
          id = zeros 32;
          parents = [];
          ops = PathOp.add (codes "a") (zeros 32) 420 (status_of version) ∷ [];
          copies = [];
          metadata = claims;
          source = git_source;
          status = status_of version;
        }
        ∷ [];
    refs = main_branch ∷ [];
    provenance = record imported {
      brygge_version = version;
      decoder = git;
      decoder_version = version;
    };
    dropped = left_out ∷ [];
    flags = flagged ∷ [];
    transforms = redaction ∷ [];
  };
  content = (zeros 32, codes "text") ∷ [];
}

older_to_newer :
    restamped constant_hash (decoded_by (codes "0.3.0")) (codes "0.4.0") (codes "0.4.0")
    ≡ ok (decoded_by (codes "0.4.0"))
unfolding restamped rebuild restamp_derivation restamp_status restamp_op restamp_copies
    restamp_parents restamp_atom restamp_ref renamed add_refs add_flags add_transforms add_blobs
    Restamp.add_atoms Content.insert get or_insert add_ref add_atom atom_of compute_id less_path
    same_path PathOp.path text_ltb copies_known finish finish_ordered topo_order canonical_order_ids
    Order.add_atoms add_parents by_id degree set_degree children start_ready insert_ready order_loop
    release_all release pick without assemble sort_by sort_onto insert repeats retain knows
    referenced op_blobs text_eq
older_to_newer = refl

restamped-Restamped_example :
    Restamped constant_hash
      (decoded_by (codes "0.3.0"))
      (codes "0.4.0")
      (codes "0.4.0")
      (decoded_by (codes "0.4.0"))
restamped-Restamped_example =
    Rebuilt.restamped-Restamped constant_hash (decoded_by (codes "0.3.0")) (codes "0.4.0")
      (codes "0.4.0") (decoded_by (codes "0.4.0")) older_to_newer

restamp_status_iff_example :
    (restamp_status git (codes "0.3.0") twice_changed ≡ twice_changed)
    ↔ Stamped git (codes "0.3.0") twice_changed
restamp_status_iff_example = Status.restamp_status_iff git (codes "0.3.0") twice_changed

-- A parent that is not among the atoms before.
no_parent :
    restamp_parents [] (zeros 32 ∷ [])
    ≡ err (invariant "atom names parent, not among this Ir's own atoms before it")
unfolding restamp_parents renamed
no_parent = refl

-- The new id of a parent that was met before.
new_parent :
    restamp_parents ((zeros 32, 1 ∷ zeros 31) ∷ []) (zeros 32 ∷ []) ≡ ok ((1 ∷ zeros 31) ∷ [])
unfolding restamp_parents renamed text_eq
new_parent = refl
