-- ===== src/Hg/Phases/Roots.antt =====
-- phases.rs, `compute`: a phase is the greatest one among the roots that a changeset descends from.
use brygge.Prelude.{ℕ, suc, ◌+◌, ◌≤◌, ◌<◌, ◌≡◌, refl, ◌∙◌, arith, ◌⊎◌, inl, inr}
use brygge.Prelude.{
  List, [], ◌∷◌, Option, none, some, Bytes, length, get_or, replicate, get_elem?, Bool, true, false,
}
use brygge.Prelude.{length-replicate, get_or-replicate}
use mathlib.Core.Path.{subst}
use brygge.Hg.Revlog.{Entry, next_rev, node_to_rev}
use brygge.Prelude.Utf8.{text_eq}
use brygge.Prelude.{get_elem?-lt}
use brygge.Hg.Ancestry.{Parent, Ancestor, here, step, ParentsFirst}
use brygge.Hg.Phases.{Root, declare, compute}
use brygge.Hg.Phases.Declare.{length-declare, declare-root, declare-Good}
use brygge.Hg.Phases.Inherit.{inherit-Good, inherit-grows, inherit-parent}

-- A root that is declared for a revision of the changelog.
pub record Declared (entries : List Entry) (roots : List Root) (phase rev : ℕ) : Type 0 where
  pub place : ℕ
  pub node : Bytes
  pub listed : get_elem? roots place ≡ some (phase, node)
  pub known : node_to_rev entries node ≡ some rev

next_rev-cases :
    (o : Option ℕ) (same : Bool) (rev : ℕ)
    → next_rev o same ≡ some rev
    → (rev ≡ 0) ⊎ ((r : ℕ) × (o ≡ some r) × (rev ≡ suc r))
unfolding next_rev
next_rev-cases (some r) same rev h = inr (r, refl, cc h)
next_rev-cases none true rev h = inl (cc h)
next_rev-cases none false rev h = absurd (cc h)

node_to_rev-lt :
    (entries : List Entry) (id : Bytes) (rev : ℕ)
    → node_to_rev entries id ≡ some rev
    → rev < length entries
unfolding node_to_rev
node_to_rev-lt [] id rev h = absurd (cc h)
node_to_rev-lt (e ∷ es) id rev h =
    elim (next_rev-cases (node_to_rev es id) (text_eq e.node id) rev h) [
      | inl z ↦ omega arith
      | inr s ↦ omega (arith, node_to_rev-lt es id s.0 s.1)
    ]

started : List Entry → List Root → List ℕ
started entries roots = declare entries roots (replicate (length entries) 0)

length-started :
    (entries : List Entry) (roots : List Root) → length (started entries roots) ≡ length entries
unfolding started
length-started entries roots =
    length-declare entries roots (replicate (length entries) 0)
    ∙ length-replicate (length entries) 0

-- A phase is at least the parents'.
pub compute-Parent :
    (entries : List Entry) (roots : Option (List Root)) (r j : ℕ)
    → ParentsFirst entries
    → Parent entries r j
    → get_or (compute entries roots) r 0 ≤ get_or (compute entries roots) j 0
unfolding compute started
compute-Parent entries none r j first p = omega (
  arith,
  get_or-replicate {A = ℕ} (length entries) r 0,
  get_or-replicate {A = ℕ} (length entries) j 0,
)
compute-Parent entries (some roots) r j first p =
    inherit-parent entries 0 (started entries roots) j j r p.entry p.there (omega arith) p.named
      (first r j p)
      (omega (arith, length-started entries roots, get_elem?-lt entries j p.entry p.there))

compute-Ancestor :
    (entries : List Entry) (roots : List Root) (r j : ℕ)
    → ParentsFirst entries
    → Ancestor entries r j
    → get_or (compute entries (some roots)) r 0 ≤ get_or (compute entries (some roots)) j 0
compute-Ancestor entries roots r _ first here = omega arith
compute-Ancestor entries roots r j first (step {b = b} a p) = omega (
  arith,
  compute-Ancestor entries roots r b first a,
  compute-Parent entries (some roots) b j first p,
)

pub compute-root :
    (entries : List Entry) (roots : List Root) (d r s : ℕ)
    → ParentsFirst entries
    → Declared entries roots d r
    → Ancestor entries r s
    → d ≤ get_or (compute entries (some roots)) s 0
unfolding compute started
compute-root entries roots d r s first root a = omega (
  arith,
  declare-root entries roots (replicate (length entries) 0) root.place d root.node r root.listed
      root.known
      (omega (
        arith,
        node_to_rev-lt entries root.node r root.known,
        length-replicate {A = ℕ} (length entries) 0,
      )),
  inherit-grows entries 0 (started entries roots) r,
  compute-Ancestor entries roots r s first a,
)

Rooted : List Entry → List Root → ℕ → ℕ → Type 0
Rooted entries roots s v = (v ≡ 0) ⊎ ((r : ℕ) × Declared entries roots v r × Ancestor entries r s)

compute-Rooted :
    (entries : List Entry) (roots : List Root) (s : ℕ)
    → Rooted entries roots s (get_or (compute entries (some roots)) s 0)
unfolding compute started Rooted
compute-Rooted entries roots s =
    let G = Rooted entries roots in
    inherit-Good G entries 0 (started entries roots) (λ j. inl refl)
      (λ i e r v there named g.
        let p : Parent entries r (0 + i) = record {
          entry = e;
          there = subst (λ t. get_elem? entries t ≡ some e) (omega arith) there;
          named = named;
        } in
        elim g [ inl z ↦ inl z | inr w ↦ inr (w.0, w.1, step w.2 p) ])
      (declare-Good G entries roots (replicate (length entries) 0)
        (λ i d id rev listed known.
          inr (rev, record { place = i; node = id; listed = listed; known = known }, here))
        (λ j. inl (get_or-replicate (length entries) j 0)))
      s

-- Where parents come before their children, the phase of a changeset is the greatest declared phase of the roots
-- that it descends from or is, or 0 when there is none: it is a bound of them all, and is 0 or one of them.
pub compute-greatest :
    (entries : List Entry) (roots : List Root) (s : ℕ)
    → ParentsFirst entries
    → ((d r : ℕ)
        → Declared entries roots d r
        → Ancestor entries r s
        → d ≤ get_or (compute entries (some roots)) s 0)
      × ((get_or (compute entries (some roots)) s 0 ≡ 0)
          ⊎ ((r : ℕ) × Declared entries roots (get_or (compute entries (some roots)) s 0) r
              × Ancestor entries r s))
unfolding Rooted
compute-greatest entries roots s first =
    ((λ d r. compute-root entries roots d r s first), compute-Rooted entries roots s)
