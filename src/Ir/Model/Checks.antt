-- ===== src/Ir/Model/Checks.antt =====
-- model.rs: the checks that several records share, and how the reader passes them.
use brygge.Prelude.{
  ◌≢◌, refl, Bool, true, false, ◌&&◌, List, [], ◌∷◌, Bytes, All, String, length, ◌<◌, ◌^◌, map,
}
use brygge.Ir.Error.{non_canonical}
use brygge.Ir.Canon.Writer.{list_value}
use brygge.Ir.Canon.Reader.{Read, ◌>>=◌, ensure, list}
use brygge.Ir.Canon.Reads.{Reads, Reads-ensure, Reads-last}
use brygge.Ir.Canon.Lists.{Fits, list-list_value}

is_empty : {A : Type 0} → List A → Bool
is_empty [] = true
is_empty (x ∷ xs) = false

-- A list that is written only when it has items must not be read as empty.
unfoldable pub non_empty_list : {A : Type 0} → String → List A → Read (Unit {0})
unfolding is_empty
non_empty_list what [] = ensure false (non_canonical what)
non_empty_list what (x ∷ xs) = ensure true (non_canonical what)

pub Reads-non_empty :
    {A : Type 0} (what : String) (xs : List A) → xs ≢ [] → Reads (non_empty_list what xs) [] tt
unfolding non_empty_list
Reads-non_empty what [] h = absurd (h refl)
Reads-non_empty what (x ∷ xs) h = Reads-ensure true (non_canonical what) refl

-- `xs.iter().zip(xs.iter().skip(1))`: every item is less than the next one.
unfoldable pub ascending : {A : Type 0} → (A → A → Bool) → List A → Bool
ascending less [] = true
ascending less (x ∷ []) = true
ascending less (x ∷ y ∷ rest) = less x y && ascending less (y ∷ rest)

All-map :
    {A : Type 0} {P Q : A → Type 0} (xs : List A) → ((x : A) → P x → Q x) → All P xs → All Q xs
All-map [] f h = tt
All-map (x ∷ xs) f (h, hs) = (f x h, All-map xs f hs)

-- A list of records that are each read back, and that is not empty.
module _ {A : Type 0} (item : Read A) (enc : A → Bytes) (P : A → Type 0) where
  pub Reads-records :
      {B : Type 0} (what : String) (f : List A → Read B) (xs : List A) {b : B}
      → ((x : A) → P x → Fits (enc x) → Reads item (enc x) x)
      → All P xs
      → length xs < 2 ^ 64
      → xs ≢ []
      → Fits (list_value (map enc xs))
      → Reads (f xs) [] b
      → Reads
          (list item >>= λ ys. (non_empty_list what ys >>= λ _. f ys))
          (list_value (map enc xs))
          b
  Reads-records what f xs each h hn ne fits r =
      Reads-last (list item) _ (list-list_value item enc xs hn (All-map xs each h) fits)
        (Reads-last (non_empty_list what xs) (λ _. f xs) (Reads-non_empty what xs ne) r)
