-- ===== src/Hg/Published/Visible.antt =====
-- published.rs, `compute`: the visible changesets are the ancestors of those that it starts from.
use brygge.Prelude.{ℕ, zero, suc, ◌≤◌, ◌<◌, ◌≡◌, refl, ap, sym, ◌∙◌, arith, ◌⊎◌, inl, inr, ◌↔◌}
use brygge.Prelude.{
  Bool, true, false, List, [], ◌∷◌, Option, none, some, length, get_or, tabulate, get_elem?,
}
use brygge.Prelude.{length-modify, length-tabulate, get_or-tabulate, get_or-tabulate_past}
use brygge.Prelude.{Bool-cases, Option-cases}
use mathlib.Core.Path.{subst}
use native.Mathlib.Decide.{ℕ_discrete, dec_lt}
use brygge.Hg.Revlog.{Entry, parent_rev}
use brygge.Prelude.{get_elem?-lt}
use brygge.Hg.Ancestry.{Parent, Ancestor, here, step, ParentsFirst}
use brygge.Hg.Published.{mark_at, mark_both, mark_parents, backward, seed, visible_set}

unfoldable pub Marked : List Bool → ℕ → Type 0
Marked v j = get_or v j false ≡ true

-- One mark.
mark_at-grows : (o : Option ℕ) (v : List Bool) (j : ℕ) → Marked v j → Marked (mark_at o v) j
unfolding mark_at Marked
mark_at-grows none v j h = h
mark_at-grows (some r) [] j h = h
mark_at-grows (some zero) (x ∷ v) zero h = refl
mark_at-grows (some zero) (x ∷ v) (suc j) h = h
mark_at-grows (some (suc r)) (x ∷ v) zero h = h
mark_at-grows (some (suc r)) (x ∷ v) (suc j) h = mark_at-grows (some r) v j h

mark_at-hit : (r : ℕ) (v : List Bool) → r < length v → Marked (mark_at (some r) v) r
unfolding mark_at Marked
mark_at-hit r [] h = absurd (omega arith)
mark_at-hit zero (x ∷ v) h = refl
mark_at-hit (suc r) (x ∷ v) h = mark_at-hit r v (omega arith)

mark_at-back :
    (o : Option ℕ) (v : List Bool) (j : ℕ) → Marked (mark_at o v) j → Marked v j ⊎ (o ≡ some j)
unfolding mark_at Marked
mark_at-back none v j h = inl h
mark_at-back (some r) [] j h = inl h
mark_at-back (some zero) (x ∷ v) zero h = inr refl
mark_at-back (some zero) (x ∷ v) (suc j) h = inl h
mark_at-back (some (suc r)) (x ∷ v) zero h = inl h
mark_at-back (some (suc r)) (x ∷ v) (suc j) h = elim (mark_at-back (some r) v j h) [
  | inl m ↦ inl m
  | inr e ↦ let same : r ≡ j = cc e in inr (ap (λ t. some (suc t)) same)
]

length-mark_at : (o : Option ℕ) (v : List Bool) → length (mark_at o v) ≡ length v
unfolding mark_at
length-mark_at none v = refl
length-mark_at (some r) v = length-modify r (λ _. true) v

-- The two parents of a revision.
module _ (entries : List Entry) where
  mark_parents-cases :
      (rev : ℕ) (v : List Bool) (C : List Bool → Type 0)
      → C v
      → ((e : Entry)
          → Marked v rev
          → get_elem? entries rev ≡ some e
          → C (mark_at (parent_rev e.p2) (mark_at (parent_rev e.p1) v)))
      → C (mark_parents entries rev v)
  unfolding mark_parents mark_both Marked
  mark_parents-cases rev v C same both = elim (Bool-cases (get_or v rev false)) [
    | inr f ↦ rw f same
    | inl t ↦ elim (Option-cases (get_elem? entries rev)) [
      | inl n ↦ rw (t, n) same
      | inr e ↦ rw (t, e.1) (both e.0 t e.1)
    ]
  ]

  length-mark_parents : (rev : ℕ) (v : List Bool) → length (mark_parents entries rev v) ≡ length v
  length-mark_parents rev v =
      mark_parents-cases rev v (λ w. length w ≡ length v) refl
        (λ e _ _.
          length-mark_at (parent_rev e.p2) (mark_at (parent_rev e.p1) v)
          ∙ length-mark_at (parent_rev e.p1) v)

  mark_parents-grows :
      (rev : ℕ) (v : List Bool) (j : ℕ) → Marked v j → Marked (mark_parents entries rev v) j
  mark_parents-grows rev v j h =
      mark_parents-cases rev v (λ w. Marked w j) h
        (λ e _ _.
          mark_at-grows (parent_rev e.p2) (mark_at (parent_rev e.p1) v) j
            (mark_at-grows (parent_rev e.p1) v j h))

  mark_parents-back :
      (rev : ℕ) (v : List Bool) (j : ℕ)
      → Marked (mark_parents entries rev v) j
      → Marked v j ⊎ (Parent entries j rev × Marked v rev)
  mark_parents-back rev v j =
      mark_parents-cases rev v
        (λ w. Marked w j → Marked v j ⊎ (Parent entries j rev × Marked v rev)) (λ h. inl h)
        (λ e m there h. elim (mark_at-back (parent_rev e.p2) (mark_at (parent_rev e.p1) v) j h) [
          | inr second ↦ inr (record { entry = e; there = there; named = inr second }, m)
          | inl h1 ↦ elim (mark_at-back (parent_rev e.p1) v j h1) [
            | inr first ↦ inr (record { entry = e; there = there; named = inl first }, m)
            | inl h2 ↦ inl h2
          ]
        ])

  mark_parents-hit :
      (rev : ℕ) (v : List Bool) (a : ℕ)
      → Marked v rev
      → Parent entries a rev
      → a < length v
      → Marked (mark_parents entries rev v) a
  unfolding mark_parents mark_both Marked
  mark_parents-hit rev v a m p inside =
      let first = mark_at (parent_rev p.entry.p1) v in
      rw (m, p.there)
        (elim p.named [
          | inl e ↦ mark_at-grows (parent_rev p.entry.p2) first a (rw e (mark_at-hit a v inside))
          | inr e ↦
              rw e (mark_at-hit a first (omega (arith, length-mark_at (parent_rev p.entry.p1) v)))
        ])

  -- The pass.
  backward-grows : (k : ℕ) (v : List Bool) (j : ℕ) → Marked v j → Marked (backward entries k v) j
  unfolding backward
  backward-grows zero v j h = h
  backward-grows (suc k) v j h =
      backward-grows k (mark_parents entries k v) j (mark_parents-grows k v j h)

  backward-Good :
      (P : ℕ → Type 0) (k : ℕ) (v : List Bool)
      → ((a b : ℕ) → Parent entries a b → P b → P a)
      → ((j : ℕ) → Marked v j → P j)
      → (j : ℕ) → Marked (backward entries k v) j
      → P j
  unfolding backward
  backward-Good P zero v up good j h = good j h
  backward-Good P (suc k) v up good j h =
      backward-Good P k (mark_parents entries k v) up
        (λ i m. elim (mark_parents-back k v i m) [
          | inl old ↦ good i old
          | inr new ↦ up i k new.0 (good k new.1)
        ])
        j h

  backward-closed :
      (first : ParentsFirst entries) (k : ℕ) (v : List Bool)
      → length v ≡ length entries
      → ((a b : ℕ) → k ≤ b → Parent entries a b → Marked v b → Marked v a)
      → (a b : ℕ) → Parent entries a b
      → Marked (backward entries k v) b
      → Marked (backward entries k v) a
  unfolding backward
  backward-closed first zero v size done a b p h = done a b (omega arith) p h
  backward-closed first (suc k) v size done a b p h =
      backward-closed first k (mark_parents entries k v) (length-mark_parents k v ∙ size)
        (λ a' b' from p' m.
          let before = first a' b' p' in
          elim (mark_parents-back k v b' m) [
            | inr new ↦ absurd (omega (arith, first b' k new.0))
            | inl old ↦ elim (ℕ_discrete k b') [
              | no differ ↦ mark_parents-grows k v a' (done a' b' (omega arith) p' old)
              | yes same ↦
                  mark_parents-hit k v a' (subst (Marked v) (sym same) old)
                    (subst (Parent entries a') (sym same) p')
                    (omega (arith, get_elem?-lt entries b' p'.entry p'.there, size))
            ]
          ])
        a b p h

-- A changeset that is pinned, or that is not obsolete.
unfoldable pub Seeded : List Entry → List Bool → List Bool → ℕ → Type 0
Seeded entries obsolete pinned rev =
    (rev < length entries) × (Marked pinned rev ⊎ (get_or obsolete rev false ≡ false))

seed_why :
    (obsolete pinned : List Bool) (rev : ℕ)
    → seed obsolete pinned rev ≡ true
    → Marked pinned rev ⊎ (get_or obsolete rev false ≡ false)
unfolding seed Marked
seed_why obsolete pinned rev h = elim (Bool-cases (get_or obsolete rev false)) [
  | inr fresh ↦ inr fresh
  | inl old ↦ inl (rw old at h)
]

seed_if :
    (obsolete pinned : List Bool) (rev : ℕ)
    → Marked pinned rev ⊎ (get_or obsolete rev false ≡ false)
    → seed obsolete pinned rev ≡ true
unfolding seed Marked
seed_if obsolete pinned rev (inr fresh) = rw fresh refl
seed_if obsolete pinned rev (inl pin) = elim (Bool-cases (get_or obsolete rev false)) [
  | inr fresh ↦ rw fresh refl
  | inl old ↦ rw (old, pin) refl
]

lead :
    (entries : List Entry) (a b c : ℕ)
    → Parent entries a b
    → Ancestor entries b c
    → Ancestor entries a c
lead entries a b _ p here = step here p
lead entries a b c p (step {b = m} up q) = step (lead entries a b m p up) q

module _ (entries : List Entry) (obsolete pinned : List Bool) where
  start : List Bool
  start = tabulate (length entries) (seed obsolete pinned)

  start-Seeded : (j : ℕ) → Marked start j → Seeded entries obsolete pinned j
  unfolding start Marked Seeded
  start-Seeded j h = elim (dec_lt j (length entries)) [
    | yes inside ↦ (
      inside,
      seed_why obsolete pinned j
          (sym (get_or-tabulate (length entries) j (seed obsolete pinned) false inside) ∙ h),
    )
    | no past ↦
        absurd (
          cc
            (h, get_or-tabulate_past (length entries) j (seed obsolete pinned) false (omega arith)))
  ]

  pub visible-Seeded :
      (j : ℕ) → Seeded entries obsolete pinned j → Marked (visible_set entries obsolete pinned) j
  unfolding visible_set start Seeded Marked
  visible-Seeded j h = backward-grows entries (length entries) start j (
      get_or-tabulate (length entries) j (seed obsolete pinned) false h.0
      ∙ seed_if obsolete pinned j h.1)

  pub visible-Parent :
      ParentsFirst entries
      → (a b : ℕ) → Parent entries a b
      → Marked (visible_set entries obsolete pinned) b
      → Marked (visible_set entries obsolete pinned) a
  unfolding visible_set start
  visible-Parent first =
      backward-closed entries first (length entries) start
        (length-tabulate (length entries) (seed obsolete pinned))
        (λ a b past p m. absurd (omega (arith, get_elem?-lt entries b p.entry p.there)))

  visible-Ancestor :
      ParentsFirst entries
      → (a d : ℕ) → Ancestor entries a d
      → Marked (visible_set entries obsolete pinned) d
      → Marked (visible_set entries obsolete pinned) a
  visible-Ancestor first a _ here m = m
  visible-Ancestor first a d (step {b = b} up p) m =
      visible-Ancestor first a b up (visible-Parent first b d p m)

  -- Where parents come before their children, a changeset is visible exactly if it is, or is an ancestor of, a
  -- changeset that is pinned or not obsolete.
  pub visible_set_iff :
      (first : ParentsFirst entries) (a : ℕ)
      → Marked (visible_set entries obsolete pinned) a
        ↔ ((d : ℕ) × Seeded entries obsolete pinned d × Ancestor entries a d)
  unfolding visible_set start
  visible_set_iff first a = (to, from)
    where
      to :
          Marked (visible_set entries obsolete pinned) a
          → (d : ℕ) × Seeded entries obsolete pinned d × Ancestor entries a d
      to =
          backward-Good entries
            (λ r. (d : ℕ) × Seeded entries obsolete pinned d × Ancestor entries r d)
            (length entries) start (λ r b p w. (w.0, w.1, lead entries r b w.0 p w.2))
            (λ j m. (j, start-Seeded j m, here)) a

      from :
          (d : ℕ) × Seeded entries obsolete pinned d × Ancestor entries a d
          → Marked (visible_set entries obsolete pinned) a
      from w = visible-Ancestor first a w.0 w.2 (visible-Seeded w.0 w.1)
