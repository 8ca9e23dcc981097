-- ===== src/Ir/Builder/Sorting.antt =====
-- `sort_by`, a stable sort, and what it leaves for a scan over neighbours to find.
use brygge.Prelude.{◌≡◌, Bool, false, ◌||◌, List, [], ◌∷◌, if◌then◌else◌}

module _ {A : Type 0} (less : A → A → Bool) where
  -- Behind every item that is not greater.
  unfoldable pub insert : A → List A → List A
  insert x [] = x ∷ []
  insert x (y ∷ ys) = let later = y ∷ insert x ys in if less x y then x ∷ y ∷ ys else later

  unfoldable pub sort_onto : List A → List A → List A
  sort_onto sorted [] = sorted
  sort_onto sorted (x ∷ xs) = sort_onto (insert x sorted) xs

  unfoldable pub sort_by : List A → List A
  sort_by xs = sort_onto [] xs

  -- No item is less than the one before it.
  pub data Sorted : List A → Type 0 where
    nothing : Sorted []
    one : (x : A) → Sorted (x ∷ [])
    two : (x y : A) (xs : List A) → less y x ≡ false → Sorted (y ∷ xs) → Sorted (x ∷ y ∷ xs)

  -- `zip` with the list from the second item on: two neighbours are the same.
  unfoldable pub repeats : (A → A → Bool) → List A → Bool
  repeats same [] = false
  repeats same (x ∷ []) = false
  repeats same (x ∷ y ∷ xs) = same x y || repeats same (y ∷ xs)
