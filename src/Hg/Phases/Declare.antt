-- ===== src/Hg/Phases/Declare.antt =====
-- phases.rs: a slot that is raised, and the roots.
use brygge.Prelude.{ℕ, zero, suc, ◌≤◌, ◌<◌, max, ◌≡◌, ◌≢◌, refl, ap, sym, ◌∙◌, arith, ◌⊎◌, inl, inr}
use brygge.Prelude.{List, [], ◌∷◌, Option, none, some, Bytes, length, get_or, modify, get_elem?}
use brygge.Prelude.{length-modify, get_or-modify, get_or-modify_other}
use mathlib.Core.Path.{subst}
use native.Mathlib.Decide.{ℕ_discrete}
use brygge.Hg.Revlog.{Entry, node_to_rev}
use brygge.Hg.Phases.{Root, declare, declare_at}

abbrev pub at : List ℕ → ℕ → ℕ
at phase rev = get_or phase rev 0

pub max_cases : (a b : ℕ) → (max a b ≡ a) ⊎ (max a b ≡ b)
max_cases a b = elim (ℕ_discrete (max a b) a) [ yes e ↦ inl e | no n ↦ inr (omega arith) ]

-- A slot raised to at least `v`.
module _ (rev v : ℕ) (phase : List ℕ) where
  unfoldable pub raise : List ℕ
  raise = modify rev (λ own. max own v) phase

  pub raise-other : (j : ℕ) → rev ≢ j → at raise j ≡ at phase j
  unfolding raise
  raise-other j = get_or-modify_other rev j (λ own. max own v) phase 0

  pub raise-same : rev < length phase → at raise rev ≡ max (at phase rev) v
  unfolding raise
  raise-same = get_or-modify rev (λ own. max own v) phase 0

pub raise-grows : (rev v : ℕ) (phase : List ℕ) (j : ℕ) → at phase j ≤ at (raise rev v phase) j
unfolding raise
raise-grows rev v [] j = omega arith
raise-grows zero v (x ∷ xs) zero = omega arith
raise-grows zero v (x ∷ xs) (suc j) = omega arith
raise-grows (suc rev) v (x ∷ xs) zero = omega arith
raise-grows (suc rev) v (x ∷ xs) (suc j) = raise-grows rev v xs j

pub length-raise : (rev v : ℕ) (phase : List ℕ) → length (raise rev v phase) ≡ length phase
unfolding raise
length-raise rev v phase = length-modify rev (λ own. max own v) phase

-- A property of values that stays with the greater of two.
pub raise-Good :
    (G : ℕ → ℕ → Type 0) (rev v : ℕ) (phase : List ℕ)
    → ((j : ℕ) → G j (at phase j))
    → G rev v
    → (j : ℕ) → G j (at (raise rev v phase) j)
unfolding raise
raise-Good G rev v [] good new j = good j
raise-Good G zero v (x ∷ xs) good new zero = elim (max_cases x v) [
  | inl e ↦ subst (G 0) (sym e) (good 0)
  | inr e ↦ subst (G 0) (sym e) new
]
raise-Good G zero v (x ∷ xs) good new (suc j) = good (suc j)
raise-Good G (suc rev) v (x ∷ xs) good new zero = good 0
raise-Good G (suc rev) v (x ∷ xs) good new (suc j) =
    raise-Good (λ i. G (suc i)) rev v xs (λ i. good (suc i)) new j

-- One root.
pub length-declare_at :
    (o : Option ℕ) (d : ℕ) (phase : List ℕ) → length (declare_at o d phase) ≡ length phase
unfolding declare_at raise
length-declare_at none d phase = refl
length-declare_at (some rev) d phase = length-raise rev d phase

pub declare_at-grows :
    (o : Option ℕ) (d : ℕ) (phase : List ℕ) (j : ℕ) → at phase j ≤ at (declare_at o d phase) j
unfolding declare_at raise
declare_at-grows none d phase j = omega arith
declare_at-grows (some rev) d phase j = raise-grows rev d phase j

pub declare_at-Good :
    (G : ℕ → ℕ → Type 0) (o : Option ℕ) (d : ℕ) (phase : List ℕ)
    → ((rev : ℕ) → o ≡ some rev → G rev d)
    → ((j : ℕ) → G j (at phase j))
    → (j : ℕ) → G j (at (declare_at o d phase) j)
unfolding declare_at raise
declare_at-Good G none d phase root good j = good j
declare_at-Good G (some rev) d phase root good j = raise-Good G rev d phase good (root rev refl) j

-- The roots.
pub length-declare :
    (entries : List Entry) (roots : List Root) (phase : List ℕ)
    → length (declare entries roots phase) ≡ length phase
unfolding declare
length-declare entries [] phase = refl
length-declare entries ((d, id) ∷ roots) phase =
    length-declare entries roots (declare_at (node_to_rev entries id) d phase)
    ∙ length-declare_at (node_to_rev entries id) d phase

pub declare-grows :
    (entries : List Entry) (roots : List Root) (phase : List ℕ) (j : ℕ)
    → at phase j ≤ at (declare entries roots phase) j
unfolding declare
declare-grows entries [] phase j = omega arith
declare-grows entries ((d, id) ∷ roots) phase j = omega (
  arith,
  declare-grows entries roots (declare_at (node_to_rev entries id) d phase) j,
  declare_at-grows (node_to_rev entries id) d phase j,
)

pub declare-root :
    (entries : List Entry) (roots : List Root) (phase : List ℕ) (i d : ℕ) (id : Bytes) (rev : ℕ)
    → get_elem? roots i ≡ some (d, id)
    → node_to_rev entries id ≡ some rev
    → rev < length phase
    → d ≤ at (declare entries roots phase) rev
unfolding declare declare_at raise
declare-root entries [] phase i d id rev h n inside = absurd (cc h)
declare-root entries ((d', id') ∷ roots) phase zero d id rev h n inside =
    let same : ◌≡◌ {A = Root} (d', id') (d, id) = cc h in
    let found : node_to_rev entries id' ≡ some rev = ap (λ r. node_to_rev entries r.1) same ∙ n in
    let number : d' ≡ d = ap (λ r. r.0) same in
    rw found (
      omega (
        arith,
        declare-grows entries roots (raise rev d' phase) rev,
        raise-same rev d' phase inside,
      ))
declare-root entries ((d', id') ∷ roots) phase (suc i) d id rev h n inside =
    declare-root entries roots (declare_at (node_to_rev entries id') d' phase) i d id rev h n
      (omega (arith, length-declare_at (node_to_rev entries id') d' phase))

pub declare-Good :
    (G : ℕ → ℕ → Type 0) (entries : List Entry) (roots : List Root) (phase : List ℕ)
    → ((i d : ℕ) (id : Bytes) (rev : ℕ)
        → get_elem? roots i ≡ some (d, id)
        → node_to_rev entries id ≡ some rev
        → G rev d)
    → ((j : ℕ) → G j (at phase j))
    → (j : ℕ) → G j (at (declare entries roots phase) j)
unfolding declare
declare-Good G entries [] phase root good j = good j
declare-Good G entries ((d, id) ∷ roots) phase root good j =
    declare-Good G entries roots (declare_at (node_to_rev entries id) d phase) (λ i. root (suc i))
      (declare_at-Good G (node_to_rev entries id) d phase (λ r. root 0 d id r refl) good) j
