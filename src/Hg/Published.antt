-- ===== src/Hg/Published.antt =====
-- published.rs: which changesets are served. The files' contents are arguments: those of line files and of the
-- obsolescence store as they are parsed.
pub mod Visible
pub mod Closed
use brygge.Prelude.{
  ℕ, zero, suc, ◌+◌, Bool, true, false, ◌&&◌, ◌||◌, not, List, [], ◌∷◌, Option, none, some, Bytes,
}
use brygge.Prelude.{
  length, get_or, modify, replicate, tabulate, count, get_elem?, take, drop, map, leb, ltb, ◌==◌,
}
use brygge.Prelude.{if◌then◌else◌, ok, err}
use brygge.Prelude.Utf8.{text_eq}
use brygge.Hg.{Error, read, floor_refusal, Answer}
use brygge.Hg.Util.{◌>>=◌}
use brygge.Hg.Revision.{ensure}
use brygge.Hg.Revlog.{Entry, parent_rev, node_to_rev}
use brygge.Hg.Phases.{Root, not_published_floor, compute as phases_compute}

pub record Bookmark : Type 0 where
  pub name : Bytes
  pub node : Bytes

pub record Files : Type 0 where
  pub merge_state : Bool
  pub phaseroots : Option (List Root)
  pub precursors : List Bytes
  pub bookmark_list : List Bookmark
  pub dirstate : Option Bytes
  pub localtags : List Bytes

pub record PublishedView : Type 0 where
  pub served : List Bool
  pub not_published : ℕ
  pub hidden : ℕ
  pub bookmarks : List Bookmark

-- `if let Some(slot) = v.get_mut(rev)` for a revision that may be missing.
unfoldable pub mark_at : Option ℕ → List Bool → List Bool
mark_at none marks = marks
mark_at (some rev) marks = modify rev (λ _. true) marks

-- The loop over the precursors.
unfoldable pub obsolete_at : Option ℕ → List ℕ → List Bool → List Bool
obsolete_at none phase obsolete = obsolete
obsolete_at (some rev) phase obsolete =
    if get_or phase rev 0 == 0 then obsolete else modify rev (λ _. true) obsolete

unfoldable pub mark_obsolete : List Entry → List ℕ → List Bytes → List Bool → List Bool
mark_obsolete entries phase [] obsolete = obsolete
mark_obsolete entries phase (id ∷ ids) obsolete =
    mark_obsolete entries phase ids (obsolete_at (node_to_rev entries id) phase obsolete)

-- pin, for one node and for each of a list
unfoldable pub pin : List Entry → List Bool → Bytes → List Bool
pin entries pinned id = mark_at (node_to_rev entries id) pinned

unfoldable pub pin_all : List Entry → List Bytes → List Bool → List Bool
pin_all entries [] pinned = pinned
pin_all entries (id ∷ ids) pinned = pin_all entries ids (pin entries pinned id)

-- mark_pinned_dirstate; the second argument is what is read of the file, its first 40 bytes.
abbrev pub pin_parent : List Entry → List Bool → Bytes → List Bool
pin_parent entries pinned id = if text_eq id (replicate 20 0) then pinned else pin entries pinned id

unfoldable pub pin_header : List Entry → Bytes → List Bool → Answer (List Bool)
pin_header entries [] pinned = ok pinned
pin_header entries (b ∷ bs) pinned =
    ensure (leb 40 (length (b ∷ bs))) (read "dirstate is truncated") >>= λ _.
    ok (
      pin_parent entries (pin_parent entries pinned (take 20 (b ∷ bs)))
        (take 20 (drop 20 (b ∷ bs))))

unfoldable pub mark_pinned_dirstate : List Entry → Option Bytes → List Bool → Answer (List Bool)
mark_pinned_dirstate entries none pinned = ok pinned
mark_pinned_dirstate entries (some file) pinned = pin_header entries (take 40 file) pinned

-- The backward pass: the parents of a visible revision are visible.
unfoldable pub mark_both : Option Entry → List Bool → List Bool
mark_both none visible = visible
mark_both (some e) visible = mark_at (parent_rev e.p2) (mark_at (parent_rev e.p1) visible)

unfoldable pub mark_parents : List Entry → ℕ → List Bool → List Bool
mark_parents entries rev visible =
    if get_or visible rev false then mark_both (get_elem? entries rev) visible else visible

unfoldable pub backward : List Entry → ℕ → List Bool → List Bool
backward entries zero visible = visible
backward entries (suc rev) visible = backward entries rev (mark_parents entries rev visible)

-- What a changeset starts with, and the ancestors of those.
unfoldable pub seed : List Bool → List Bool → ℕ → Bool
seed obsolete pinned rev = not (get_or obsolete rev false) || get_or pinned rev false

unfoldable pub visible_set : List Entry → List Bool → List Bool → List Bool
visible_set entries obsolete pinned =
    backward entries (length entries) (tabulate (length entries) (seed obsolete pinned))

unfoldable pub is_unpublished : List ℕ → ℕ → Bool
is_unpublished phase rev = leb not_published_floor (get_or phase rev 0)

unfoldable pub is_hidden : List ℕ → List Bool → List Bool → ℕ → Bool
is_hidden phase obsolete visible rev =
    not (is_unpublished phase rev) && (get_or obsolete rev false && not (get_or visible rev false))

unfoldable pub is_served : List ℕ → List Bool → List Bool → ℕ → Bool
is_served phase obsolete visible rev =
    not (is_hidden phase obsolete visible rev) && not (is_unpublished phase rev)

-- The check that no served changeset has a parent that is not.
abbrev pub parent_ok : List Bool → ℕ → Bool
parent_ok served p = elim (parent_rev p) [ none ↦ true | some rev ↦ get_or served rev false ]

unfoldable pub is_closed : List Bool → List Entry → List Bool → Bool
is_closed served (e ∷ es) (here ∷ rest) =
    (not here || (parent_ok served e.p1 && parent_ok served e.p2)) && is_closed served es rest
is_closed served [] rest = true
is_closed served (e ∷ es) [] = true

-- The view from the marks.
unfoldable pub view :
    List Entry → List Bookmark → List ℕ → List Bool → List Bool → Answer PublishedView
view entries marks phase obsolete pinned =
    let visible = visible_set entries obsolete pinned in
    let serving = tabulate (length entries) (is_served phase obsolete visible) in
    ensure (is_closed serving entries serving) (read "published view is not closed under ancestry")
    >>= λ _. ok (record {
      served = serving;
      not_published = count (length entries) (is_unpublished phase);
      hidden = count (length entries) (is_hidden phase obsolete visible);
      bookmarks = marks;
    })

-- compute
unfoldable pub compute : List Entry → Files → Answer PublishedView
compute entries files =
    let blank = replicate (length entries) false in
    let phase = phases_compute entries files.phaseroots in
    ensure (not files.merge_state)
      (floor_refusal "unfinished-merge" "finish or abort the merge in the source first")
    >>= λ _.
        mark_pinned_dirstate entries files.dirstate
          (pin_all entries (map (λ b. b.node) files.bookmark_list) blank)
        >>= λ pinned.
            view entries files.bookmark_list phase
              (mark_obsolete entries phase files.precursors blank)
              (pin_all entries files.localtags pinned)
