-- ===== src/Ir/Restamp/Rebuilt.antt =====
-- restamp.rs: what restamping keeps and what it changes.
use brygge.Prelude.{◌≡◌, sym, ap, ◌∙◌, [], ◌++◌, All, Bytes, ok}
use mathlib.Core.List.{Permᴰ}
use mathlib.Core.Path.{subst}
use brygge.Ir.Content
use brygge.Ir.Content.{BlobId, ContentStore}
use brygge.Ir.Builder.{IrBuilder, Built, new, set_loss, finish}
use brygge.Ir.Builder.Finished.{Canonical, finish-Canonical, ok_injective}
use brygge.Ir.Builder.Steps.{Reachable, fresh, loss, Closed, Reachable-Closed}
use brygge.Ir.Restamp.{
  IdMap, add_refs, restamp_provenance, add_blobs, add_atoms, rebuild, restamped,
}
use brygge.Ir.Restamp.Retold.{bind-ok, Retold, Pairwise, RefAfter}
use brygge.Ir.Restamp.Atoms.{Stored, add_blobs_lem, add_atoms_lem}
use brygge.Ir.Restamp.Refs.{add_refs_lem, last_calls-append, last_calls-Reachable}

-- A builder for a restamped `Ir`: `ids` pairs the old atoms' ids with the new ones'.
pub record Relabelled (sha256 : Bytes → Bytes) (t : Built) (brygge_version version : Bytes)
    (b : IrBuilder) : Type 0 where
  pub reached : Reachable sha256 (restamp_provenance brygge_version version t.ir.provenance) b
  pub provenance : b.provenance ≡ restamp_provenance brygge_version version t.ir.provenance
  pub ids : IdMap
  pub atoms : Retold t.ir.provenance.decoder version [] t.ir.atoms b.atoms ids
  pub refs : Pairwise (RefAfter t.ir.provenance.decoder version ids) t.ir.refs b.refs
  pub stored : All (Stored sha256 t.content b.content) (Content.ids t.content)
  pub dropped : b.dropped ≡ t.ir.dropped
  pub flags : b.flags ≡ t.ir.flags
  pub transforms : b.transforms ≡ t.ir.transforms

rebuild-Relabelled :
    (sha256 : Bytes → Bytes) (t : Built) (brygge_version version : Bytes) (b : IrBuilder)
    → rebuild sha256 t brygge_version version ≡ ok b
    → Relabelled sha256 t brygge_version version b
unfolding rebuild
rebuild-Relabelled sha256 t brygge_version version b h =
    let decoder = t.ir.provenance.decoder in
    let from = restamp_provenance brygge_version version t.ir.provenance in
    let x = bind-ok (add_blobs sha256 (Content.ids t.content) t.content (new from)) _ b h in
    let y = bind-ok (add_atoms sha256 decoder version [] t.ir.atoms x.0) _ b x.2 in
    let z = bind-ok (add_refs decoder version y.0.0 t.ir.refs y.0.1) _ b y.2 in
    let blobs =
      add_blobs_lem sha256 from (Content.ids t.content) t.content (new from) x.0 fresh x.1 in
    let atoms = add_atoms_lem sha256 from decoder version [] t.ir.atoms x.0 y.0 blobs.0 y.1 in
    let refs = add_refs_lem sha256 from decoder version y.0.0 t.ir.refs y.0.1 z.0 atoms.0 z.1 in
    let filled = blobs.1.same in
    let grown = atoms.1.grown in
    let pointed = refs.1.pointed in
    let lost = set_loss z.0 t.ir.dropped in
    let same = sym (last_calls-append t.ir.flags t.ir.transforms lost) ∙ ok_injective z.2 in
    let no_flags : lost.flags ≡ [] = pointed.flags ∙ grown.flags ∙ ap (λ c. c.flags) filled in
    let no_steps : lost.transforms ≡ [] =
      pointed.transforms ∙ grown.transforms ∙ ap (λ c. c.transforms) filled in
    record {
      reached = subst (Reachable sha256 from) (ok_injective z.2) (
          last_calls-Reachable sha256 from t.ir.flags t.ir.transforms lost
            (loss z.0 t.ir.dropped refs.0));
      provenance =
          sym (ap (λ c. c.provenance) same)
          ∙ pointed.provenance
          ∙ grown.provenance
          ∙ ap (λ c. c.provenance) filled;
      ids = y.0.0;
      atoms =
          subst (λ new. Retold decoder version [] t.ir.atoms new y.0.0)
            (sym (pointed.atoms ∙ grown.atoms ∙ ap (λ c. c.atoms ++ atoms.1.new) filled)
              ∙ ap (λ c. c.atoms) same)
            atoms.1.retold;
      refs =
          subst (Pairwise (RefAfter decoder version y.0.0) t.ir.refs)
            (sym (pointed.refs ∙ ap (λ c. c ++ refs.1.new) (grown.refs ∙ ap (λ c. c.refs) filled))
              ∙ ap (λ c. c.refs) same)
            refs.1.retold;
      stored =
          subst (λ blobs. All (Stored sha256 t.content blobs) (Content.ids t.content))
            (sym (pointed.content ∙ grown.content) ∙ ap (λ c. c.content) same) blobs.1.stored;
      dropped = sym (ap (λ c. c.dropped) same);
      flags = sym (ap (λ c. c.flags) same) ∙ ap (λ f. f ++ t.ir.flags) no_flags;
      transforms = sym (ap (λ c. c.transforms) same) ∙ ap (λ s. s ++ t.ir.transforms) no_steps;
    }

-- What restamping `t` gives.
pub record Restamped (sha256 : Bytes → Bytes) (t : Built) (brygge_version version : Bytes)
    (next : Built) : Type 0 where
  pub builder : IrBuilder
  pub relabelled : Relabelled sha256 t brygge_version version builder
  pub closed : Closed builder
  pub finished : finish builder ≡ ok next
  pub provenance : next.ir.provenance ≡ restamp_provenance brygge_version version t.ir.provenance
  pub canonical : Canonical builder next
  pub dropped_same : Permᴰ t.ir.dropped next.ir.dropped
  pub flags_same : Permᴰ t.ir.flags next.ir.flags
  pub transforms_same : t.ir.transforms ≡ next.ir.transforms

-- An `Ir` that is restamped has the provenance with the two versions put in, the drops and the flags of the old one
-- in some order, and its transform records; its refs, drops and flags are in the strict order that the reader demands.
-- It is finished from a build that the builder's operations reach, in which nothing names a missing atom and whose
-- content store has the hash of every blob of the old one. The build's atoms stand for the old ones in order: a parent
-- and the source of a copy has the id of the new atom for an earlier old one with its id, the operations and copies
-- are the old ones in some order but for their statuses, and metadata and source are the old ones. The build's refs
-- stand for the old ones in order, with their names, kinds, sources and annotations and their targets renamed. In
-- every status the derivations by the old decoder, and no others, get the new version.
pub restamped-Restamped :
    (sha256 : Bytes → Bytes) (t : Built) (brygge_version version : Bytes) (next : Built)
    → restamped sha256 t brygge_version version ≡ ok next
    → Restamped sha256 t brygge_version version next
unfolding restamped finish
restamped-Restamped sha256 t brygge_version version next h =
    let made = bind-ok (rebuild sha256 t brygge_version version) _ next h in
    let b = made.0 in
    let relabelled = rebuild-Relabelled sha256 t brygge_version version b made.1 in
    let canonical = finish-Canonical b next made.2 in
    record {
      builder = b;
      relabelled = relabelled;
      closed =
          Reachable-Closed sha256 (restamp_provenance brygge_version version t.ir.provenance) b
            relabelled.reached;
      finished = made.2;
      provenance = sym canonical.provenance_same ∙ relabelled.provenance;
      canonical = canonical;
      dropped_same = subst (λ d. Permᴰ d next.ir.dropped) relabelled.dropped canonical.drops_same;
      flags_same = subst (λ d. Permᴰ d next.ir.flags) relabelled.flags canonical.flags_same;
      transforms_same = sym relabelled.transforms ∙ canonical.transforms_same;
    }
