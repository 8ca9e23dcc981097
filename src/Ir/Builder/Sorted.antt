-- ===== src/Ir/Builder/Sorted.antt =====
-- What `sort_by` promises: the same items, in order; and neighbours that differ strictly ascend.
use brygge.Prelude.{
  ◌≡◌, refl, sym, append-nil, Bool, true, false, ◌||◌, List, [], ◌∷◌, ◌++◌, Bool-cases, inl, inr,
}
use mathlib.Core.List.{Permᴰ}
use mathlib.Core.List.Permᴰ
use mathlib.Core.Path.{subst}
use brygge.Ir.Model.Checks.{ascending}
use brygge.Ir.Builder.Sorting.{insert, sort_onto, sort_by, Sorted, nothing, one, two, repeats}

or_false : (a b : Bool) → (a || b) ≡ false → (a ≡ false) × (b ≡ false)
or_false false b e = (refl, e)
or_false true b e = absurd (cc e)

module _ {A : Type 0} (less : A → A → Bool) where
  -- A strict order in which one of two items comes first.
  abbrev pub Antisymmetric : Type 0
  Antisymmetric = (x y : A) → less x y ≡ true → less y x ≡ false

  -- Behind an item that is not greater than the first.
  insert_behind :
      (anti : Antisymmetric) (z x : A) (xs : List A)
      → less x z ≡ false
      → Sorted less (z ∷ xs)
      → Sorted less (z ∷ insert less x xs)
  unfolding insert
  insert_behind anti z x [] h s = two z x [] h (one x)
  insert_behind anti z x (y ∷ ys) h (two _ _ _ zy s) = elim (Bool-cases (less x y)) [
    | inl before ↦ rw before (two z x (y ∷ ys) h (two x y ys (anti x y before) s))
    | inr behind ↦ rw behind (two z y (insert less x ys) zy (insert_behind anti y x ys behind s))
  ]

  insert-Sorted :
      (anti : Antisymmetric) (x : A) (xs : List A) → Sorted less xs → Sorted less (insert less x xs)
  unfolding insert
  insert-Sorted anti x [] s = one x
  insert-Sorted anti x (y ∷ ys) s = elim (Bool-cases (less x y)) [
    | inl before ↦ rw before (two x y ys (anti x y before) s)
    | inr behind ↦ rw behind (insert_behind anti y x ys behind s)
  ]

  sort_onto-Sorted :
      (anti : Antisymmetric) (sorted xs : List A)
      → Sorted less sorted
      → Sorted less (sort_onto less sorted xs)
  unfolding sort_onto
  sort_onto-Sorted anti sorted [] s = s
  sort_onto-Sorted anti sorted (x ∷ xs) s =
      sort_onto-Sorted anti (insert less x sorted) xs (insert-Sorted anti x sorted s)

  pub sort_by-Sorted : Antisymmetric → (xs : List A) → Sorted less (sort_by less xs)
  unfolding sort_by
  sort_by-Sorted anti xs = sort_onto-Sorted anti [] xs nothing

  insert-Perm : (x : A) (xs : List A) → Permᴰ (x ∷ xs) (insert less x xs)
  unfolding insert
  insert-Perm x [] = Permᴰ.refl (x ∷ [])
  insert-Perm x (y ∷ ys) = elim (Bool-cases (less x y)) [
    | inl before ↦ rw before (Permᴰ.refl (x ∷ y ∷ ys))
    | inr behind ↦
        rw behind (Permᴰ.trans (Permᴰ.swap refl refl) (Permᴰ.cons refl (insert-Perm x ys)))
  ]

  middle-Perm : (xs : List A) (x : A) (ys : List A) → Permᴰ (xs ++ x ∷ ys) (x ∷ xs ++ ys)
  middle-Perm [] x ys = Permᴰ.refl (x ∷ ys)
  middle-Perm (y ∷ xs) x ys =
      Permᴰ.trans (Permᴰ.cons refl (middle-Perm xs x ys)) (Permᴰ.swap refl refl)

  append-Perm : (zs : List A) {xs ys : List A} → Permᴰ xs ys → Permᴰ (xs ++ zs) (ys ++ zs)
  append-Perm zs Permᴰ.nil = Permᴰ.refl zs
  append-Perm zs (Permᴰ.cons e p) = Permᴰ.cons e (append-Perm zs p)
  append-Perm zs (Permᴰ.swap e f) = Permᴰ.swap e f
  append-Perm zs (Permᴰ.trans p q) = Permᴰ.trans (append-Perm zs p) (append-Perm zs q)

  sort_onto-Perm : (sorted xs : List A) → Permᴰ (sorted ++ xs) (sort_onto less sorted xs)
  unfolding sort_onto
  sort_onto-Perm sorted [] =
      subst (λ t. Permᴰ t sorted) (sym (append-nil sorted)) (Permᴰ.refl sorted)
  sort_onto-Perm sorted (x ∷ xs) = Permᴰ.trans (middle-Perm sorted x xs) (
      Permᴰ.trans (append-Perm xs (insert-Perm x sorted))
        (sort_onto-Perm (insert less x sorted) xs))

  pub sort_by-Perm : (xs : List A) → Permᴰ xs (sort_by less xs)
  unfolding sort_by
  sort_by-Perm xs = sort_onto-Perm [] xs

  -- In a sorted list, neighbours of which no two are the same strictly ascend.
  pub repeats-ascending :
      (same : A → A → Bool) (xs : List A)
      → ((x y : A) → less y x ≡ false → same x y ≡ false → less x y ≡ true)
      → Sorted less xs
      → repeats less same xs ≡ false
      → ascending less xs ≡ true
  unfolding repeats ascending
  repeats-ascending same [] tri s h = refl
  repeats-ascending same (x ∷ []) tri s h = refl
  repeats-ascending same (x ∷ y ∷ xs) tri (two _ _ _ xy s) h =
      let both = or_false (same x y) (repeats less same (y ∷ xs)) h in
      rw (tri x y xy both.0) (repeats-ascending same (y ∷ xs) tri s both.1)
