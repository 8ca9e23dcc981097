-- ===== src/Ir/Restamp/Refs.antt =====
-- restamp.rs: the refs, the flags and the transforms that are added to the builder.
use brygge.Prelude.{
  ◌≡◌, refl, sym, ap, ◌∙◌, List, [], ◌∷◌, ◌++◌, append-nil, append_assoc, Bytes, ok,
}
use mathlib.Core.Path.{subst}
use brygge.Ir.Model.RefRecord.{RefRecord}
use brygge.Ir.Model.Flag.{Flag}
use brygge.Ir.Model.TransformRecord.{TransformRecord}
use brygge.Ir.Model.ImportProvenance.{ImportProvenance}
use brygge.Ir.Builder.{IrBuilder, add_ref, add_flag, add_transform, knows}
use brygge.Ir.Builder.Finished.{else-ok, ok_injective}
use brygge.Ir.Builder.Steps.{Reachable, ref, flag, transform}
use brygge.Ir.Restamp.{IdMap, restamp_ref, add_refs, add_flags, add_transforms}
use brygge.Ir.Restamp.Retold.{bind-ok, Pairwise, no_pairs, pair_of, RefAfter, restamp_ref-RefAfter}

-- How a builder has grown by refs.
pub record Pointed (new : List RefRecord) (b next : IrBuilder) : Type 0 where
  pub atoms : next.atoms ≡ b.atoms
  pub content : next.content ≡ b.content
  pub refs : next.refs ≡ b.refs ++ new
  pub flags : next.flags ≡ b.flags
  pub transforms : next.transforms ≡ b.transforms
  pub provenance : next.provenance ≡ b.provenance

add_ref-Pointed :
    (b : IrBuilder) (r : RefRecord) (next : IrBuilder)
    → add_ref b r ≡ ok next
    → Pointed (r ∷ []) b next
unfolding add_ref
add_ref-Pointed b r next h =
    subst (Pointed (r ∷ []) b) (ok_injective (else-ok (knows b.known r.target) _ _ next h).1)
      (record {
        atoms = refl;
        content = refl;
        refs = refl;
        flags = refl;
        transforms = refl;
        provenance = refl;
      })

Pointed-append :
    (r : RefRecord) (new : List RefRecord) (b mid next : IrBuilder)
    → Pointed (r ∷ []) b mid
    → Pointed new mid next
    → Pointed (r ∷ new) b next
Pointed-append r new b mid next one rest = record {
  atoms = rest.atoms ∙ one.atoms;
  content = rest.content ∙ one.content;
  refs = rest.refs ∙ ap (λ s. s ++ new) one.refs ∙ append_assoc b.refs (r ∷ []) new;
  flags = rest.flags ∙ one.flags;
  transforms = rest.transforms ∙ one.transforms;
  provenance = rest.provenance ∙ one.provenance;
}

-- The refs that were added, and how they stand to the old ones.
pub record Repointed (decoder version : Bytes) (id_map : IdMap) (refs : List RefRecord)
    (b next : IrBuilder) : Type 0 where
  pub new : List RefRecord
  pub pointed : Pointed new b next
  pub retold : Pairwise (RefAfter decoder version id_map) refs new

pub add_refs_lem :
    (sha256 : Bytes → Bytes) (from : ImportProvenance) (decoder version : Bytes) (id_map : IdMap)
    (refs : List RefRecord) (b next : IrBuilder)
    → Reachable sha256 from b
    → add_refs decoder version id_map refs b ≡ ok next
    → Reachable sha256 from next × Repointed decoder version id_map refs b next
unfolding add_refs
add_refs_lem sha256 from decoder version id_map [] b next reached h =
    subst (λ c. Reachable sha256 from c × Repointed decoder version id_map [] b c) (ok_injective h)
      (
        reached,
        record {
          new = [];
          pointed = record {
            atoms = refl;
            content = refl;
            refs = sym (append-nil b.refs);
            flags = refl;
            transforms = refl;
            provenance = refl;
          };
          retold = no_pairs;
        },
      )
add_refs_lem sha256 from decoder version id_map (r ∷ refs) b next reached h =
    let s = bind-ok (restamp_ref decoder version id_map r) _ next h in
    let n = bind-ok (add_ref b s.0) _ next s.2 in
    let rest =
      add_refs_lem sha256 from decoder version id_map refs n.0 next (ref b s.0 n.0 reached n.1)
        n.2 in
    (
      rest.0,
      record {
        new = s.0 ∷ rest.1.new;
        pointed =
            Pointed-append s.0 rest.1.new b n.0 next (add_ref-Pointed b s.0 n.0 n.1) rest.1.pointed;
        retold =
            pair_of r s.0 refs rest.1.new (restamp_ref-RefAfter decoder version id_map r s.0 s.1)
              rest.1.retold;
      },
    )

add_flags-append :
    (flags : List Flag) (b : IrBuilder) → add_flags flags b ≡ record b { flags = b.flags ++ flags }
unfolding add_flags
add_flags-append [] b = ap (λ f. record b { flags = f }) (sym (append-nil b.flags))
add_flags-append (f ∷ flags) b =
    add_flags-append flags (add_flag b f)
    ∙ ap (λ g. record b { flags = g }) (append_assoc b.flags (f ∷ []) flags)

add_flags-Reachable :
    (sha256 : Bytes → Bytes) (from : ImportProvenance) (flags : List Flag) (b : IrBuilder)
    → Reachable sha256 from b
    → Reachable sha256 from (add_flags flags b)
unfolding add_flags
add_flags-Reachable sha256 from [] b reached = reached
add_flags-Reachable sha256 from (f ∷ flags) b reached =
    add_flags-Reachable sha256 from flags (add_flag b f) (flag b f reached)

add_transforms-append :
    (steps : List TransformRecord) (b : IrBuilder)
    → add_transforms steps b ≡ record b { transforms = b.transforms ++ steps }
unfolding add_transforms
add_transforms-append [] b = ap (λ t. record b { transforms = t }) (sym (append-nil b.transforms))
add_transforms-append (t ∷ steps) b =
    add_transforms-append steps (add_transform b t).1
    ∙ ap (λ g. record b { transforms = g }) (append_assoc b.transforms (t ∷ []) steps)

add_transforms-Reachable :
    (sha256 : Bytes → Bytes) (from : ImportProvenance) (steps : List TransformRecord)
    (b : IrBuilder)
    → Reachable sha256 from b
    → Reachable sha256 from (add_transforms steps b)
unfolding add_transforms
add_transforms-Reachable sha256 from [] b reached = reached
add_transforms-Reachable sha256 from (t ∷ steps) b reached =
    add_transforms-Reachable sha256 from steps (add_transform b t).1 (transform b t reached)

pub last_calls-append :
    (flags : List Flag) (steps : List TransformRecord) (b : IrBuilder)
    → add_transforms steps (add_flags flags b)
      ≡ record b { flags = b.flags ++ flags; transforms = b.transforms ++ steps }
last_calls-append flags steps b =
    add_transforms-append steps (add_flags flags b)
    ∙ ap {A = IrBuilder} (λ c. record c { transforms = c.transforms ++ steps })
        (add_flags-append flags b)

pub last_calls-Reachable :
    (sha256 : Bytes → Bytes) (from : ImportProvenance) (flags : List Flag)
    (steps : List TransformRecord) (b : IrBuilder)
    → Reachable sha256 from b
    → Reachable sha256 from (add_transforms steps (add_flags flags b))
last_calls-Reachable sha256 from flags steps b reached =
    add_transforms-Reachable sha256 from steps (add_flags flags b)
      (add_flags-Reachable sha256 from flags b reached)
