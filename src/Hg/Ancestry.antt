-- ===== src/Hg/Ancestry.antt =====
-- The parents and the ancestors of the revisions of a changelog.
use brygge.Prelude.{
  ℕ, zero, suc, ◌+◌, ◌<◌, ◌≡◌, ◌∙◌, sym, ap, ◌⊎◌, inl, inr, List, none, some, get_elem?, arith, [],
  ◌∷◌,
}
use brygge.Prelude.{Option, Bool, true, ◌&&◌, ltb, ltb→lt, and_true}
use brygge.Hg.Revlog.{Entry, parent_rev}

pub record Parent (entries : List Entry) (above below : ℕ) : Type 0 where
  pub entry : Entry
  pub there : get_elem? entries below ≡ some entry
  pub named : (parent_rev entry.p1 ≡ some above) ⊎ (parent_rev entry.p2 ≡ some above)

-- A revision is its own ancestor.
pub data Ancestor (entries : List Entry) : ℕ → ℕ → Type 0 where
  here : {rev : ℕ} → Ancestor entries rev rev
  step : {a b c : ℕ} → Ancestor entries a b → Parent entries b c → Ancestor entries a c

-- What a revlog promises: a parent comes before its children.
abbrev pub ParentsFirst : List Entry → Type 0
ParentsFirst entries = (a b : ℕ) → Parent entries a b → a < b

-- A scan that finds that parents come first.
abbrev lower : ℕ → Option ℕ → Bool
lower i none = true
lower i (some p) = ltb p i

unfoldable pub in_order : ℕ → List Entry → Bool
in_order i [] = true
in_order i (e ∷ es) =
    (lower i (parent_rev e.p1) && lower i (parent_rev e.p2)) && in_order (suc i) es

in_order_lem :
    (i : ℕ) (es : List Entry) (j a k : ℕ) (e : Entry)
    → in_order i es ≡ true
    → get_elem? es j ≡ some e
    → k ≡ i + j
    → (parent_rev e.p1 ≡ some a) ⊎ (parent_rev e.p2 ≡ some a)
    → a < k
unfolding in_order
in_order_lem i [] j a k e h there at_k named = absurd (cc there)
in_order_lem i (d ∷ es) zero a k e h there at_k named =
    let same : d ≡ e = cc there in
    let both = and_true _ (in_order (suc i) es) h in
    let each = and_true (lower i (parent_rev d.p1)) (lower i (parent_rev d.p2)) both.0 in
    elim named [
      | inl p ↦
          let below : ltb a i ≡ true =
            ap (lower i) (sym (ap (λ t. parent_rev t.p1) same ∙ p)) ∙ each.0 in
          omega (arith, ltb→lt a i below)
      | inr p ↦
          let below : ltb a i ≡ true =
            ap (lower i) (sym (ap (λ t. parent_rev t.p2) same ∙ p)) ∙ each.1 in
          omega (arith, ltb→lt a i below)
    ]
in_order_lem i (d ∷ es) (suc j) a k e h there at_k named =
    in_order_lem (suc i) es j a k e (and_true _ (in_order (suc i) es) h).1 there (omega arith) named

pub in_order-ParentsFirst :
    (entries : List Entry) → in_order 0 entries ≡ true → ParentsFirst entries
in_order-ParentsFirst entries h a b p =
    in_order_lem 0 entries b a b p.entry h p.there (omega arith) p.named
