-- ===== src/Hg/Phases/Inherit.antt =====
-- phases.rs: the forward pass.
use brygge.Prelude.{ℕ, zero, suc, ◌+◌, ◌≤◌, ◌<◌, ◌≡◌, refl, ap, sym, ◌∙◌, arith, ◌⊎◌, inl, inr}
use brygge.Prelude.{List, [], ◌∷◌, some, length, get_elem?, Option-cases}
use mathlib.Core.Path.{subst}
use brygge.Hg.Revlog.{Entry, parent_rev}
use brygge.Hg.Phases.{passed, inherit}
use brygge.Hg.Phases.Declare.{
  raise, at, max_cases, raise-other, raise-same, raise-grows, length-raise, raise-Good,
}

-- The forward pass.
abbrev pub from_parents : Entry → List ℕ → ℕ
from_parents e phase = passed phase (passed phase 0 e.p1) e.p2

pub passed-Good :
    (Q : ℕ → Type 0) (phase : List ℕ) (v p : ℕ)
    → Q v
    → ((r : ℕ) → parent_rev p ≡ some r → Q (at phase r))
    → Q (passed phase v p)
passed-Good Q phase v p q h = elim (Option-cases (parent_rev p)) [
  | inl e ↦ rw (passed, e) q
  | inr e ↦
      rw (passed, e.1)
        (elim (max_cases v (at phase e.0)) [
          | inl m ↦ subst Q (sym m) q
          | inr m ↦ subst Q (sym m) (h e.0 e.1)
        ])
]

pub inherit-Good :
    (G : ℕ → ℕ → Type 0) (es : List Entry) (k : ℕ) (phase : List ℕ)
    → ((j : ℕ) → G j 0)
    → ((i : ℕ) (e : Entry) (r v : ℕ)
        → get_elem? es i ≡ some e
        → (parent_rev e.p1 ≡ some r) ⊎ (parent_rev e.p2 ≡ some r)
        → G r v
        → G (k + i) v)
    → ((j : ℕ) → G j (at phase j))
    → (j : ℕ) → G j (at (inherit es k phase) j)
unfolding inherit raise
inherit-Good G [] k phase least down good j = good j
inherit-Good G (e ∷ es) k phase least down good j =
    let here' : k + 0 ≡ k = omega arith in
    let first = passed-Good (G k) phase 0 e.p1 (least k) (λ r h.
      subst (λ t. G t (at phase r)) here' (down 0 e r (at phase r) refl (inl h) (good r))) in
    let both = passed-Good (G k) phase (passed phase 0 e.p1) e.p2 first (λ r h.
      subst (λ t. G t (at phase r)) here' (down 0 e r (at phase r) refl (inr h) (good r))) in
    inherit-Good G es (suc k) (raise k (from_parents e phase) phase) least
      (λ i e' r v there named g.
        let next : k + suc i ≡ suc k + i = omega arith in
        subst (λ t. G t v) next (down (suc i) e' r v there named g))
      (raise-Good G k (from_parents e phase) phase good both) j

pub inherit-below :
    (es : List Entry) (k : ℕ) (phase : List ℕ) (j : ℕ)
    → j < k
    → at (inherit es k phase) j ≡ at phase j
unfolding inherit raise
inherit-below [] k phase j h = refl
inherit-below (e ∷ es) k phase j h =
    inherit-below es (suc k) (raise k (from_parents e phase) phase) j (omega arith)
    ∙ raise-other k (from_parents e phase) phase j (omega arith)

pub inherit-grows :
    (es : List Entry) (k : ℕ) (phase : List ℕ) (j : ℕ) → at phase j ≤ at (inherit es k phase) j
unfolding inherit raise
inherit-grows [] k phase j = omega arith
inherit-grows (e ∷ es) k phase j = omega (
  arith,
  inherit-grows es (suc k) (raise k (from_parents e phase) phase) j,
  raise-grows k (from_parents e phase) phase j,
)

pub passed-parent :
    (phase : List ℕ) (v p r : ℕ) → parent_rev p ≡ some r → at phase r ≤ passed phase v p
passed-parent phase v p r h = rw (passed, h) (omega arith)

pub passed-keeps : (phase : List ℕ) (v p : ℕ) → v ≤ passed phase v p
passed-keeps phase v p = elim (Option-cases (parent_rev p)) [
  | inl e ↦ rw (passed, e) (omega arith)
  | inr e ↦ rw (passed, e.1) (omega arith)
]

pub from_parents-parent :
    (e : Entry) (phase : List ℕ) (r : ℕ)
    → (parent_rev e.p1 ≡ some r) ⊎ (parent_rev e.p2 ≡ some r)
    → at phase r ≤ from_parents e phase
from_parents-parent e phase r (inl h) =
    omega (arith, passed-parent phase 0 e.p1 r h, passed-keeps phase (passed phase 0 e.p1) e.p2)
from_parents-parent e phase r (inr h) = passed-parent phase (passed phase 0 e.p1) e.p2 r h

pub inherit-parent :
    (es : List Entry) (k : ℕ) (phase : List ℕ) (i j r : ℕ) (e : Entry)
    → get_elem? es i ≡ some e
    → j ≡ k + i
    → (parent_rev e.p1 ≡ some r) ⊎ (parent_rev e.p2 ≡ some r)
    → r < j
    → j < length phase
    → at (inherit es k phase) r ≤ at (inherit es k phase) j
unfolding inherit raise
inherit-parent [] k phase i j r e there at_j named before inside = absurd (cc there)
inherit-parent (d ∷ es) k phase zero j r e there at_j named before inside =
    let same : e ≡ d = cc there in
    let v = from_parents d phase in
    let phase' = raise k v phase in
    let passes =
      from_parents-parent d phase r
        (subst (λ t. (parent_rev t.p1 ≡ some r) ⊎ (parent_rev t.p2 ≡ some r)) same named) in
    let here' : j ≡ k = omega arith in
    omega (
      arith,
      inherit-below es (suc k) phase' r (omega arith),
      raise-other k v phase r (omega arith),
      passes,
      raise-same k v phase (omega arith),
      inherit-grows es (suc k) phase' k,
      ap (λ t. at (inherit es (suc k) phase') t) here',
    )
inherit-parent (d ∷ es) k phase (suc i) j r e there at_j named before inside =
    inherit-parent es (suc k) (raise k (from_parents d phase) phase) i j r e there (omega arith)
      named before (omega (arith, length-raise k (from_parents d phase) phase))
