-- ===== src/Prelude/Lists.antt =====
-- Lists measured and cut by native numbers, under the library's names. Bytes are lists of numbers.
use Prim.Native.Nat.{ℕ, zero, suc, ◌+◌, ◌-◌, ◌≤◌, ◌<◌, min}
use mathlib.Core.Path.{◌≡◌, refl, ap, sym, ◌∙◌}
use mathlib.Core.Logic.{◌≢◌}
use mathlib.Core.List.{List, [], ◌∷◌, ◌++◌, map}
use mathlib.Core.Option.{Option, none, some}
use mathlib.Core.Bool.{Bool}
use brygge.Prelude.Tests.{if◌then◌else◌}
use native.Mathlib.Omega.{arith}

abbrev pub Bytes : Type 0
Bytes = List ℕ

module _ {ℓ} {A : Type ℓ} where
  abbrev pub length : List A → ℕ
  length [] = 0
  length (x ∷ xs) = suc (length xs)

  abbrev pub get_elem? : List A → ℕ → Option A
  get_elem? [] i = none
  get_elem? (x ∷ xs) zero = some x
  get_elem? (x ∷ xs) (suc i) = get_elem? xs i

  abbrev pub take : ℕ → List A → List A
  take zero xs = []
  take (suc n) [] = []
  take (suc n) (x ∷ xs) = x ∷ take n xs

  abbrev pub drop : ℕ → List A → List A
  drop zero xs = xs
  drop (suc n) [] = []
  drop (suc n) (x ∷ xs) = drop n xs

  abbrev pub All {κ} : (A → Type κ) → List A → Type κ
  All P [] = Unit {κ}
  All P (x ∷ xs) = P x × All P xs

  pub length-append : (xs ys : List A) → length (xs ++ ys) ≡ length xs + length ys
  length-append [] ys = omega arith
  length-append (x ∷ xs) ys = omega (arith, length-append xs ys)

  pub length-take : (n : ℕ) (xs : List A) → length (take n xs) ≡ min n (length xs)
  length-take zero xs = omega arith
  length-take (suc n) [] = omega arith
  length-take (suc n) (x ∷ xs) = omega (arith, length-take n xs)

  pub length-drop : (n : ℕ) (xs : List A) → length (drop n xs) ≡ length xs - n
  length-drop zero xs = omega arith
  length-drop (suc n) [] = omega arith
  length-drop (suc n) (x ∷ xs) = omega (arith, length-drop n xs)

  pub take-append-drop : (n : ℕ) (xs : List A) → take n xs ++ drop n xs ≡ xs
  take-append-drop zero xs = refl
  take-append-drop (suc n) [] = refl
  take-append-drop (suc n) (x ∷ xs) = ap (λ t. x ∷ t) (take-append-drop n xs)

  -- Cutting at the seam of two lists.
  pub take-append : (xs ys : List A) → take (length xs) (xs ++ ys) ≡ xs
  take-append [] ys = refl
  take-append (x ∷ xs) ys = ap (λ t. x ∷ t) (take-append xs ys)

  pub drop-append : (xs ys : List A) → drop (length xs) (xs ++ ys) ≡ ys
  drop-append [] ys = refl
  drop-append (x ∷ xs) ys = drop-append xs ys

-- Taking and dropping again, and short of the seam.
module _ {ℓ} {A : Type ℓ} where
  pub take-take : (m n : ℕ) (xs : List A) → m ≤ n → take m (take n xs) ≡ take m xs
  take-take zero n xs h = refl
  take-take (suc m) zero xs h = absurd (omega arith)
  take-take (suc m) (suc n) [] h = refl
  take-take (suc m) (suc n) (x ∷ xs) h = ap (λ t. x ∷ t) (take-take m n xs (omega arith))

  take-nil : (n : ℕ) → take {A = A} n [] ≡ []
  take-nil zero = refl
  take-nil (suc n) = refl

  drop-nil : (n : ℕ) → drop {A = A} n [] ≡ []
  drop-nil zero = refl
  drop-nil (suc n) = refl

  pub drop-take : (m n : ℕ) (xs : List A) → drop m (take n xs) ≡ take (n - m) (drop m xs)
  drop-take zero n xs = ap (λ t. take t xs) (omega arith)
  drop-take (suc m) zero xs =
      let none_left : 0 ≡ 0 - suc m = omega arith in ap (λ t. take t (drop (suc m) xs)) none_left
  drop-take (suc m) (suc n) [] = sym (take-nil (suc n - suc m))
  drop-take (suc m) (suc n) (x ∷ xs) =
      let less : n - m ≡ suc n - suc m = omega arith in
      drop-take m n xs ∙ ap (λ t. take t (drop m xs)) less

  pub drop_add : (m n : ℕ) (xs : List A) → drop (m + n) xs ≡ drop n (drop m xs)
  drop_add zero n xs = ap (λ t. drop t xs) (omega arith)
  drop_add (suc m) n [] = drop-nil (suc m + n) ∙ sym (drop-nil n)
  drop_add (suc m) n (x ∷ xs) =
      let more : suc m + n ≡ suc (m + n) = omega arith in
      ap (λ t. drop t (x ∷ xs)) more ∙ drop_add m n xs

  pub take-append_le : (n : ℕ) (xs ys : List A) → n ≤ length xs → take n (xs ++ ys) ≡ take n xs
  take-append_le zero xs ys h = refl
  take-append_le (suc n) [] ys h = absurd (omega arith)
  take-append_le (suc n) (x ∷ xs) ys h = ap (λ t. x ∷ t) (take-append_le n xs ys (omega arith))

  pub drop-append_le :
      (n : ℕ) (xs ys : List A) → n ≤ length xs → drop n (xs ++ ys) ≡ drop n xs ++ ys
  drop-append_le zero xs ys h = refl
  drop-append_le (suc n) [] ys h = absurd (omega arith)
  drop-append_le (suc n) (x ∷ xs) ys h = drop-append_le n xs ys (omega arith)

-- A vector that is read and written by index: a slot that is not there reads as the default, and a write to it
-- is lost (`v.get(i).copied().unwrap_or(d)` and `if let Some(slot) = v.get_mut(i)`).
module _ {ℓ} {A : Type ℓ} where
  abbrev pub get_or : List A → ℕ → A → A
  get_or [] i d = d
  get_or (x ∷ xs) zero d = x
  get_or (x ∷ xs) (suc i) d = get_or xs i d

  abbrev pub modify : ℕ → (A → A) → List A → List A
  modify i f [] = []
  modify zero f (x ∷ xs) = f x ∷ xs
  modify (suc i) f (x ∷ xs) = x ∷ modify i f xs

  abbrev pub replicate : ℕ → A → List A
  replicate zero x = []
  replicate (suc n) x = x ∷ replicate n x

  -- A vector filled by a loop over its indices.
  abbrev pub tabulate_from : ℕ → ℕ → (ℕ → A) → List A
  tabulate_from i zero f = []
  tabulate_from i (suc n) f = f i ∷ tabulate_from (suc i) n f

  abbrev pub tabulate : ℕ → (ℕ → A) → List A
  tabulate n f = tabulate_from 0 n f

  length-tabulate_from : (i n : ℕ) (f : ℕ → A) → length (tabulate_from i n f) ≡ n
  length-tabulate_from i zero f = refl
  length-tabulate_from i (suc n) f = ap suc (length-tabulate_from (suc i) n f)

  pub length-tabulate : (n : ℕ) (f : ℕ → A) → length (tabulate n f) ≡ n
  length-tabulate n f = length-tabulate_from 0 n f

  get_or-tabulate_from :
      (i n j k : ℕ) (f : ℕ → A) (d : A) → j < n → k ≡ i + j → get_or (tabulate_from i n f) j d ≡ f k
  get_or-tabulate_from i zero j k f d h e = absurd (omega arith)
  get_or-tabulate_from i (suc n) zero k f d h e = let same : i ≡ k = omega arith in ap f same
  get_or-tabulate_from i (suc n) (suc j) k f d h e =
      get_or-tabulate_from (suc i) n j k f d (omega arith) (omega arith)

  pub get_or-tabulate : (n j : ℕ) (f : ℕ → A) (d : A) → j < n → get_or (tabulate n f) j d ≡ f j
  get_or-tabulate n j f d h = get_or-tabulate_from 0 n j j f d h (omega arith)

  get_or-past : (xs : List A) (j : ℕ) (d : A) → length xs ≤ j → get_or xs j d ≡ d
  get_or-past [] j d h = refl
  get_or-past (x ∷ xs) zero d h = absurd (omega arith)
  get_or-past (x ∷ xs) (suc j) d h = get_or-past xs j d (omega arith)

  pub get_or-tabulate_past : (n j : ℕ) (f : ℕ → A) (d : A) → n ≤ j → get_or (tabulate n f) j d ≡ d
  get_or-tabulate_past n j f d h =
      get_or-past (tabulate n f) j d (omega (arith, length-tabulate n f))

  pub length-modify : (i : ℕ) (f : A → A) (xs : List A) → length (modify i f xs) ≡ length xs
  length-modify i f [] = refl
  length-modify zero f (x ∷ xs) = refl
  length-modify (suc i) f (x ∷ xs) = ap suc (length-modify i f xs)

  pub length-replicate : (n : ℕ) (x : A) → length (replicate n x) ≡ n
  length-replicate zero x = refl
  length-replicate (suc n) x = ap suc (length-replicate n x)

  pub get_or-modify :
      (i : ℕ) (f : A → A) (xs : List A) (d : A)
      → i < length xs
      → get_or (modify i f xs) i d ≡ f (get_or xs i d)
  get_or-modify i f [] d h = absurd (omega arith)
  get_or-modify zero f (x ∷ xs) d h = refl
  get_or-modify (suc i) f (x ∷ xs) d h = get_or-modify i f xs d (omega arith)

  pub get_or-modify_other :
      (i j : ℕ) (f : A → A) (xs : List A) (d : A)
      → i ≢ j
      → get_or (modify i f xs) j d ≡ get_or xs j d
  get_or-modify_other i j f [] d h = refl
  get_or-modify_other zero zero f (x ∷ xs) d h = absurd (h refl)
  get_or-modify_other zero (suc j) f (x ∷ xs) d h = refl
  get_or-modify_other (suc i) zero f (x ∷ xs) d h = refl
  get_or-modify_other (suc i) (suc j) f (x ∷ xs) d h =
      get_or-modify_other i j f xs d (λ e. h (ap suc e))

  pub get_or-replicate : (n i : ℕ) (x : A) → get_or (replicate n x) i x ≡ x
  get_or-replicate zero i x = refl
  get_or-replicate (suc n) zero x = refl
  get_or-replicate (suc n) (suc i) x = get_or-replicate n i x

pub length-map {ℓ κ} :
    {A : Type ℓ} {B : Type κ} (xs : List A) (f : A → B) → length (map f xs) ≡ length xs
length-map [] f = refl
length-map (x ∷ xs) f = ap suc (length-map xs f)

-- How many of the indices below a number pass a test.
abbrev pub count : ℕ → (ℕ → Bool) → ℕ
count zero f = 0
count (suc n) f = if f n then suc (count n f) else count n f

pub get_elem?-lt {ℓ} :
    {A : Type ℓ} (xs : List A) (i : ℕ) (x : A) → get_elem? xs i ≡ some x → i < length xs
get_elem?-lt [] i x h = absurd (cc h)
get_elem?-lt (y ∷ ys) zero x h = omega arith
get_elem?-lt (y ∷ ys) (suc i) x h = omega (arith, get_elem?-lt ys i x h)
