-- ===== src/Hg/Published/Closed.antt =====
-- published.rs, `compute`: the last check never fails, and every changeset is counted once.
use brygge.Prelude.{ℕ, zero, suc, ◌+◌, ◌≤◌, ◌<◌, ◌≡◌, refl, ap, sym, ◌∙◌, arith, ◌⊎◌, inl, inr}
use brygge.Prelude.{
  Bool, true, false, ◌&&◌, not, List, [], ◌∷◌, Option, none, some, length, get_or, tabulate,
}
use brygge.Prelude.{get_elem?, count, leb, Option-cases, get_or-tabulate, if◌then◌else◌, ok}
use brygge.Prelude.{Bytes, replicate, map, take, drop, length-take, le→leb}
use brygge.Hg.Revlog.{Entry, parent_rev}
use brygge.Prelude.{get_elem?-lt}
use brygge.Hg.Ancestry.{Parent, ParentsFirst}
use brygge.Hg.Phases.{Root, compute as phases_compute}
use brygge.Hg.Phases.Roots.{compute-Parent}
use brygge.Hg.Published.{
  Bookmark, PublishedView, visible_set, is_unpublished, is_hidden, is_served, parent_ok, is_closed,
  view, Files, mark_obsolete, pin_all, pin_parent, pin_header, mark_pinned_dirstate, compute,
}
use brygge.Hg.Published.Visible.{Marked, Seeded, visible-Seeded, visible-Parent}

parent_ok_lem :
    (served : List Bool) (p : ℕ)
    → ((r : ℕ) → parent_rev p ≡ some r → get_or served r false ≡ true)
    → parent_ok served p ≡ true
parent_ok_lem served p h = elim (Option-cases (parent_rev p)) [
  | inl e ↦ rw (parent_ok, e) refl
  | inr e ↦ rw (parent_ok, e.1) (h e.0 e.1)
]

is_closed_lem :
    (served : List Bool) (es : List Entry) (rest : List Bool)
    → ((i : ℕ) (e : Entry)
        → get_elem? es i ≡ some e
        → get_or rest i false ≡ true
        → (parent_ok served e.p1 && parent_ok served e.p2) ≡ true)
    → is_closed served es rest ≡ true
unfolding is_closed
is_closed_lem served [] rest h = refl
is_closed_lem served (e ∷ es) [] h = refl
is_closed_lem served (e ∷ es) (true ∷ rest) h =
    rw (h 0 e refl refl) (is_closed_lem served es rest (λ i. h (suc i)))
is_closed_lem served (e ∷ es) (false ∷ rest) h = is_closed_lem served es rest (λ i. h (suc i))

-- Why a changeset is served.
served_why :
    (unpublished obsolete visible : Bool)
    → (not (not unpublished && (obsolete && not visible)) && not unpublished) ≡ true
    → (unpublished ≡ false) × ((obsolete ≡ false) ⊎ (visible ≡ true))
served_why true o v h = absurd (cc h)
served_why false false v h = (refl, inl refl)
served_why false true true h = (refl, inr refl)
served_why false true false h = absurd (cc h)

served_if :
    (unpublished obsolete visible : Bool)
    → unpublished ≡ false
    → visible ≡ true
    → (not (not unpublished && (obsolete && not visible)) && not unpublished) ≡ true
served_if true o v u h = absurd (cc u)
served_if false o false u h = absurd (cc h)
served_if false false true u h = refl
served_if false true true u h = refl

one_of_three :
    (unpublished obsolete visible : Bool) (s h p : ℕ)
    → (if not (not unpublished && (obsolete && not visible)) && not unpublished then suc s else s)
        + (if not unpublished && (obsolete && not visible) then suc h else h)
        + (if unpublished then suc p else p)
      ≡ suc (s + h + p)
one_of_three true o v s h p = omega arith
one_of_three false false v s h p = omega arith
one_of_three false true true s h p = omega arith
one_of_three false true false s h p = omega arith

module _ (entries : List Entry) (roots : Option (List Root)) (obsolete pinned : List Bool) where
  phase : List ℕ
  phase = phases_compute entries roots

  visible : List Bool
  visible = visible_set entries obsolete pinned

  serving : ℕ → Bool
  unfolding phase visible
  serving = is_served phase obsolete visible

  -- A parent of a served changeset is served.
  serving-Parent :
      ParentsFirst entries → (a b : ℕ) → Parent entries a b → serving b ≡ true → serving a ≡ true
  unfolding serving phase visible is_served is_hidden is_unpublished Marked Seeded
  serving-Parent first a b p h =
      let why =
        served_why (leb 2 (get_or phase b 0)) (get_or obsolete b false) (get_or visible b false)
          h in
      let seen : get_or visible b false ≡ true = elim why.1 [
        | inr v ↦ v
        | inl o ↦
            visible-Seeded entries obsolete pinned b (get_elem?-lt entries b p.entry p.there, inr o)
      ] in
      let less = compute-Parent entries roots a b first p in
      served_if (leb 2 (get_or phase a 0)) (get_or obsolete a false) (get_or visible a false)
        (ground (arith, why.0, less)) (visible-Parent entries obsolete pinned first a b p seen)

  counts :
      (n : ℕ)
      → count n serving
          + count n (is_hidden phase obsolete visible)
          + count n (is_unpublished phase)
        ≡ n
  unfolding serving is_served is_hidden
  counts zero = refl
  counts (suc n) =
      one_of_three (is_unpublished phase n) (get_or obsolete n false) (get_or visible n false)
        (count n serving) (count n (is_hidden phase obsolete visible))
        (count n (is_unpublished phase))
      ∙ ap suc (counts n)

-- A view whose served set is closed under parents, and that counts every changeset once.
pub record Consistent (entries : List Entry) (v : PublishedView) : Type 0 where
  pub closed :
      (a b : ℕ)
      → Parent entries a b
      → get_or v.served b false ≡ true
      → get_or v.served a false ≡ true
  pub counted :
      count (length entries) (λ rev. get_or v.served rev false) + v.hidden + v.not_published
      ≡ length entries

count_same : (n : ℕ) (f g : ℕ → Bool) → ((i : ℕ) → i < n → f i ≡ g i) → count n f ≡ count n g
count_same zero f g h = refl
count_same (suc n) f g h =
    rw (h n (omega arith), count_same n f g (λ i less. h i (omega arith))) refl

module _ (entries : List Entry) (roots : Option (List Root)) (obsolete pinned : List Bool) where
  served_list : List Bool
  served_list = tabulate (length entries) (serving entries roots obsolete pinned)

  listed :
      (j : ℕ)
      → j < length entries
      → get_or served_list j false ≡ serving entries roots obsolete pinned j
  unfolding served_list
  listed j = get_or-tabulate (length entries) j (serving entries roots obsolete pinned) false

  listed-Parent :
      ParentsFirst entries
      → (a b : ℕ) → Parent entries a b
      → get_or served_list b false ≡ true
      → get_or served_list a false ≡ true
  listed-Parent first a b p h =
      let below = get_elem?-lt entries b p.entry p.there in
      listed a (omega (arith, first a b p, below))
      ∙ serving-Parent entries roots obsolete pinned first a b p (sym (listed b below) ∙ h)

  closed_check : ParentsFirst entries → is_closed served_list entries served_list ≡ true
  closed_check first = is_closed_lem served_list entries served_list (λ i e there h.
      rw
        (parent_ok_lem served_list e.p1 (λ r named.
          listed-Parent first r i (record { entry = e; there = there; named = inl named }) h))
        (parent_ok_lem served_list e.p2 (λ r named.
          listed-Parent first r i (record { entry = e; there = there; named = inr named }) h)))

  pub view-Consistent :
      (first : ParentsFirst entries) (marks : List Bookmark)
      → (v : PublishedView) × (view entries marks (phases_compute entries roots) obsolete pinned
          ≡ ok v)
        × Consistent entries v
  unfolding view served_list serving phase visible
  view-Consistent first marks =
      let computed = phases_compute entries roots in
      let seen = visible_set entries obsolete pinned in
      let v : PublishedView = record {
        served = served_list;
        not_published = count (length entries) (is_unpublished computed);
        hidden = count (length entries) (is_hidden computed obsolete seen);
        bookmarks = marks;
      } in
      (
        v,
        rw (closed_check first) refl,
        record {
          closed = listed-Parent first;
          counted =
              ap (λ t. t + v.hidden + v.not_published)
                (count_same (length entries) (λ rev. get_or served_list rev false)
                  (serving entries roots obsolete pinned) listed)
              ∙ counts entries roots obsolete pinned (length entries);
        },
      )

-- A dirstate that is not truncated.
unfoldable pub Whole : Option Bytes → Type 0
Whole none = Unit {0}
Whole (some file) = 40 ≤ length file

header_lem :
    (entries : List Entry) (bytes : Bytes) (pinned : List Bool)
    → 40 ≤ length bytes
    → (marks : List Bool) × (pin_header entries bytes pinned ≡ ok marks)
unfolding pin_header
header_lem entries [] pinned h = absurd (omega arith)
header_lem entries (b ∷ bs) pinned h = (
  pin_parent entries (pin_parent entries pinned (take 20 (b ∷ bs))) (take 20 (drop 20 (b ∷ bs))),
  rw (le→leb 40 (length (b ∷ bs)) h) refl,
)

dirstate_lem :
    (entries : List Entry) (o : Option Bytes) (pinned : List Bool)
    → Whole o
    → (marks : List Bool) × (mark_pinned_dirstate entries o pinned ≡ ok marks)
unfolding mark_pinned_dirstate Whole
dirstate_lem entries none pinned h = (pinned, refl)
dirstate_lem entries (some file) pinned h =
    header_lem entries (take 40 file) pinned (omega (arith, length-take 40 file))

-- With no merge under way and a dirstate that is absent or whole, the computed view is not refused where parents
-- come before their children: with every served changeset its parents are served, and the served, the hidden and
-- the unpublished changesets together are all of them, each counted once.
pub compute-Consistent :
    (entries : List Entry) (files : Files)
    → ParentsFirst entries
    → files.merge_state ≡ false
    → Whole files.dirstate
    → (v : PublishedView) × (compute entries files ≡ ok v) × Consistent entries v
unfolding compute
compute-Consistent entries files first idle whole =
    let blank = replicate (length entries) false in
    let d =
      dirstate_lem entries files.dirstate
        (pin_all entries (map (λ b. b.node) files.bookmark_list) blank) whole in
    let phase = phases_compute entries files.phaseroots in
    let v =
      view-Consistent entries files.phaseroots (mark_obsolete entries phase files.precursors blank)
        (pin_all entries files.localtags d.0) first files.bookmark_list in
    (v.0, rw (idle, d.1) v.1, v.2)
