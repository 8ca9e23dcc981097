-- ===== src/Tests/Artifact.antt =====
-- The structural checks on a small artifact, and the packing of a few lengths into frames.
use brygge.Prelude.{ℕ, ◌≡◌, refl, List, [], ◌∷◌, Bytes, ok, ◌↔◌}
use brygge.Prelude.Utf8.{codes, text_eq, text_ltb}
use brygge.Ir.Error.{ContractVersion}
use brygge.Ir.Content.{contains}
use brygge.Ir.Model.PathOp.{PathOp, op_status}
use brygge.Ir.Model.ChangeAtom.{ChangeAtom}
use brygge.Ir.Model.Metadata.{Ir}
use brygge.Ir.Status.ChangedPart
use brygge.Ir.Status.ChangedPart.{valid_on_atom, valid_on_op, valid_on_ref}
use brygge.Ir.Status.EpistemicStatus.{EpistemicStatus}
use brygge.Ir.Builder.{knows, op_blobs, referenced}
use brygge.Ir.Builder.Order.{
  by_id, degree, set_degree, children, add_parents, add_atoms, insert_ready, start_ready, release,
  release_all, order_loop, canonical_order_ids,
}
use brygge.Ir.Artifact.Frame.{
  check_frame_bounds, plan_loop, canonical_frame_plan, canonical_frame_raw_lens, chunk_loop,
  fixed_chunk_lens, deflate,
}
use brygge.Ir.Artifact.Plan
use brygge.Ir.Artifact.Plan.{Covers, Chunks}
use brygge.Ir.Artifact.Structure.{
  on_atom, check_status_chain, vocab_ok, check_transform_chain, is_transformed, reject_atom,
  reject_transform_extensions, next_position, position, distinct, before, check_atoms, same_ids,
  check_order, check_extensions, check_structure,
}
use brygge.Ir.Artifact.Structure.Chain
use brygge.Ir.Artifact.Structure.Chain.{Chain}
use brygge.Ir.Artifact.Structure.Sound
use brygge.Ir.Artifact.Structure.Sound.{Structured}
use brygge.Tests.Sample.{zeros, claims, git_source, imported, main_branch}

abbrev plain_atom : Bytes → List Bytes → ChangeAtom
plain_atom name above = record {
  id = name;
  parents = above;
  ops = PathOp.add (codes "a") (zeros 32) 420 EpistemicStatus.stated ∷ [];
  copies = [];
  metadata = claims;
  source = git_source;
  status = EpistemicStatus.stated;
}

abbrev two_atoms : Ir
two_atoms = record {
  atoms = plain_atom (zeros 32) [] ∷ plain_atom (1 ∷ zeros 31) (zeros 32 ∷ []) ∷ [];
  refs = main_branch ∷ [];
  provenance = imported;
  dropped = [];
  flags = [];
  transforms = [];
}

abbrev one_blob : List (Bytes × Bytes)
one_blob = (zeros 32, codes "text") ∷ []

abbrev second_contract : ContractVersion
second_contract = record { major = 0; minor = 2; patch = 0 }

structure_ok : check_structure two_atoms one_blob second_contract ≡ ok tt
unfolding check_structure distinct knows check_atoms before position next_position check_order
    same_ids canonical_order_ids add_atoms add_parents by_id degree set_degree children start_ready
    insert_ready order_loop release_all release referenced op_blobs contains check_extensions
    reject_transform_extensions reject_atom is_transformed op_status text_eq text_ltb
structure_ok = refl

check_structure-Structured_example : Structured two_atoms one_blob
check_structure-Structured_example =
    Sound.check_structure-Structured two_atoms one_blob second_contract structure_ok

nothing_transformed : reject_transform_extensions two_atoms ≡ ok tt
unfolding reject_transform_extensions reject_atom is_transformed op_status
nothing_transformed = refl

reject_transform_extensions-check_transform_chain_example : check_transform_chain two_atoms ≡ ok tt
reject_transform_extensions-check_transform_chain_example =
    Chain.reject_transform_extensions-check_transform_chain two_atoms nothing_transformed

abbrev once_changed : EpistemicStatus
once_changed = EpistemicStatus.transformed 0 (ChangedPart.message ∷ []) EpistemicStatus.stated

check_status_chain_iff_example :
    (check_status_chain once_changed on_atom 1 ≡ ok tt) ↔ Chain on_atom 1 once_changed
check_status_chain_iff_example = Chain.check_status_chain_iff once_changed on_atom 1

changed_in_range : check_status_chain once_changed on_atom 1 ≡ ok tt
unfolding check_status_chain vocab_ok valid_on_atom
changed_in_range = refl

abbrev some_lens : List ℕ
some_lens = 1000000 ∷ 48576 ∷ 1 ∷ 1048577 ∷ 5 ∷ []

frames : canonical_frame_raw_lens some_lens ≡ 1048576 ∷ 1 ∷ 1048577 ∷ 5 ∷ []
unfolding canonical_frame_raw_lens canonical_frame_plan plan_loop
frames = refl

canonical_frame_plan-Covers_example : Covers 0 some_lens (canonical_frame_plan some_lens)
canonical_frame_plan-Covers_example = Plan.canonical_frame_plan-Covers some_lens

chunks : fixed_chunk_lens 5 ≡ 5 ∷ []
unfolding fixed_chunk_lens chunk_loop
chunks = refl

fixed_chunk_lens-Chunks_example : Chunks 2000000 (fixed_chunk_lens 2000000)
fixed_chunk_lens-Chunks_example = Plan.fixed_chunk_lens-Chunks 2000000

expanded : check_frame_bounds deflate 1 1096 ≡ ok tt
unfolding check_frame_bounds
expanded = refl
