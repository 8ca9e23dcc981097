-- ===== src/Ir/Builder/Keys.antt =====
-- The orders by which the builder sorts and the reader checks: each is total up to the equality of its keys.
use brygge.Prelude.{
  ℕ, ◌≡◌, refl, sym, arith, Bool, true, false, ◌&&◌, ◌||◌, [], ◌∷◌, Option, none, some,
}
use brygge.Prelude.{Bytes, ltb, ◌==◌, Bool-cases, inl, inr, and_true}
use brygge.Prelude.Utf8.{text_eq, text_ltb}
use brygge.Ir.Model.RefKind
use brygge.Ir.Model.LossClass
use brygge.Ir.Model.FlagKind
use brygge.Ir.Model.PathOp
use brygge.Ir.Model.PathOp.{PathOp}
use brygge.Ir.Model.CopyRecord.{CopyRecord}
use brygge.Ir.Model.ChangeAtom.{less_path, less_copy}
use brygge.Ir.Model.Metadata.{less_ref, less_drop, less_flag, option_ltb, option_eq}
use brygge.Ir.Builder.{same_path, same_ref, same_drop, same_flag}

pub record Order {A : Type 0} (less same : A → A → Bool) : Type 0 where
  pub anti : (x y : A) → less x y ≡ true → less y x ≡ false
  pub tri : (x y : A) → less y x ≡ false → same x y ≡ false → less x y ≡ true
  pub symmetric : (x y : A) → same x y ≡ same y x
  pub apart : (x y : A) → less x y ≡ true → same x y ≡ false

by_number : Order ltb (λ a b. a == b)
by_number = record {
  anti = λ x y h. ground arith;
  tri = λ x y h k. ground arith;
  symmetric = λ x y. ground arith;
  apart = λ x y h. ground arith;
}

-- One byte, then the rest.
text_anti : (x y : Bytes) → text_ltb x y ≡ true → text_ltb y x ≡ false
unfolding text_ltb
text_anti [] [] h = absurd (cc h)
text_anti [] (y ∷ ys) h = refl
text_anti (x ∷ xs) [] h = absurd (cc h)
text_anti (x ∷ xs) (y ∷ ys) h = elim (Bool-cases (x == y)) [
  | inl same ↦ let back : (y == x) ≡ true = ground arith in rw back (text_anti xs ys (rw same at h))
  | inr differ ↦
      let back : (y == x) ≡ false = ground arith in
      let less : ltb x y ≡ true = rw differ at h in
      let more : ltb y x ≡ false = ground arith in rw back more
]

text_tri : (x y : Bytes) → text_ltb y x ≡ false → text_eq x y ≡ false → text_ltb x y ≡ true
unfolding text_ltb text_eq
text_tri [] [] h k = absurd (cc k)
text_tri [] (y ∷ ys) h k = refl
text_tri (x ∷ xs) [] h k = absurd (cc h)
text_tri (x ∷ xs) (y ∷ ys) h k = elim (Bool-cases (x == y)) [
  | inl same ↦
      let back : (y == x) ≡ true = ground arith in
      rw same (text_tri xs ys (rw back at h) (rw same at k))
  | inr differ ↦
      let back : (y == x) ≡ false = ground arith in
      let more : ltb y x ≡ false = rw back at h in
      let less : ltb x y ≡ true = ground arith in rw differ less
]

text_symmetric : (x y : Bytes) → text_eq x y ≡ text_eq y x
unfolding text_eq
text_symmetric [] [] = refl
text_symmetric [] (y ∷ ys) = refl
text_symmetric (x ∷ xs) [] = refl
text_symmetric (x ∷ xs) (y ∷ ys) =
    let heads : (x == y) ≡ (y == x) = ground arith in rw (heads, text_symmetric xs ys) refl

text_apart : (x y : Bytes) → text_ltb x y ≡ true → text_eq x y ≡ false
unfolding text_ltb text_eq
text_apart [] [] h = absurd (cc h)
text_apart [] (y ∷ ys) h = refl
text_apart (x ∷ xs) [] h = absurd (cc h)
text_apart (x ∷ xs) (y ∷ ys) h = elim (Bool-cases (x == y)) [
  | inl same ↦ rw same (text_apart xs ys (rw same at h))
  | inr differ ↦ rw differ refl
]

by_text : Order text_ltb text_eq
by_text = record {
  anti = text_anti;
  tri = text_tri;
  symmetric = text_symmetric;
  apart = text_apart;
}

option_anti : (x y : Option ℕ) → option_ltb x y ≡ true → option_ltb y x ≡ false
unfolding option_ltb
option_anti none none h = absurd (cc h)
option_anti none (some b) h = refl
option_anti (some a) none h = absurd (cc h)
option_anti (some a) (some b) h = by_number.anti a b h

option_tri :
    (x y : Option ℕ) → option_ltb y x ≡ false → option_eq x y ≡ false → option_ltb x y ≡ true
unfolding option_ltb option_eq
option_tri none none h k = absurd (cc k)
option_tri none (some b) h k = refl
option_tri (some a) none h k = absurd (cc h)
option_tri (some a) (some b) h k = by_number.tri a b h k

option_symmetric : (x y : Option ℕ) → option_eq x y ≡ option_eq y x
unfolding option_eq
option_symmetric none none = refl
option_symmetric none (some b) = refl
option_symmetric (some a) none = refl
option_symmetric (some a) (some b) = by_number.symmetric a b

option_apart : (x y : Option ℕ) → option_ltb x y ≡ true → option_eq x y ≡ false
unfolding option_ltb option_eq
option_apart none none h = absurd (cc h)
option_apart none (some b) h = refl
option_apart (some a) none h = absurd (cc h)
option_apart (some a) (some b) h = by_number.apart a b h

by_option : Order option_ltb option_eq
by_option = record {
  anti = option_anti;
  tri = option_tri;
  symmetric = option_symmetric;
  apart = option_apart;
}

-- By the key that a function takes from a record.
by_key :
    {A B : Type 0} {less same : A → A → Bool} (f : B → A)
    → Order less same
    → Order (λ x y. less (f x) (f y)) (λ x y. same (f x) (f y))
by_key f o = record {
  anti = λ x y. o.anti (f x) (f y);
  tri = λ x y. o.tri (f x) (f y);
  symmetric = λ x y. o.symmetric (f x) (f y);
  apart = λ x y. o.apart (f x) (f y);
}

-- By a first key, and where it is the same by a second.
module _ {A : Type 0} {less1 same1 less2 same2 : A → A → Bool} (o1 : Order less1 same1)
    (o2 : Order less2 same2) where
  abbrev less12 : A → A → Bool
  less12 x y = less1 x y || (same1 x y && less2 x y)

  abbrev same12 : A → A → Bool
  same12 x y = same1 x y && same2 x y

  not_before : (x y : A) → same1 x y ≡ true → less1 y x ≡ false
  not_before x y h = elim (Bool-cases (less1 y x)) [
    | inr no_less ↦ no_less
    | inl less ↦ absurd (cc (o1.apart y x less, o1.symmetric x y, h))
  ]

  anti12 : (x y : A) → less12 x y ≡ true → less12 y x ≡ false
  anti12 x y h = elim (Bool-cases (less1 x y)) [
    | inl less ↦ rw (o1.anti x y less, sym (o1.symmetric x y), o1.apart x y less) refl
    | inr more ↦
        let both = and_true (same1 x y) (less2 x y) (rw more at h) in
        rw (not_before x y both.0, sym (o1.symmetric x y), both.0, o2.anti x y both.1) refl
  ]

  tri12 : (x y : A) → less12 y x ≡ false → same12 x y ≡ false → less12 x y ≡ true
  tri12 x y h k = elim (Bool-cases (less1 x y)) [
    | inl less ↦ rw less refl
    | inr more ↦ elim (Bool-cases (less1 y x)) [
      | inl less ↦ absurd (cc (rw less at h))
      | inr neither ↦ elim (Bool-cases (same1 x y)) [
        | inr differ ↦ absurd (cc (more, o1.tri x y neither differ))
        | inl same ↦
            rw (more, same)
              (o2.tri x y (rw (neither, sym (o1.symmetric x y), same) at h) (rw same at k))
      ]
    ]
  ]

  symmetric12 : (x y : A) → same12 x y ≡ same12 y x
  symmetric12 x y = rw (o1.symmetric x y, o2.symmetric x y) refl

  apart12 : (x y : A) → less12 x y ≡ true → same12 x y ≡ false
  apart12 x y h = elim (Bool-cases (less1 x y)) [
    | inl less ↦ rw (o1.apart x y less) refl
    | inr more ↦
        let both = and_true (same1 x y) (less2 x y) (rw more at h) in
        rw (both.0, o2.apart x y both.1) refl
  ]

  then_by : Order less12 same12
  then_by = record { anti = anti12; tri = tri12; symmetric = symmetric12; apart = apart12 }

pub by_path : Order less_path same_path
unfolding less_path same_path
by_path = by_key PathOp.path by_text

pub by_ref : Order less_ref same_ref
unfolding less_ref same_ref
by_ref = then_by (by_key (λ r. r.name) by_text) (by_key (λ r. RefKind.variant r.kind) by_number)

pub by_drop : Order less_drop same_drop
unfolding less_drop same_drop
by_drop =
    then_by (by_key (λ d. LossClass.variant d.class) by_number)
      (then_by (by_key (λ d. d.step) by_option) (by_key (λ d. d.what) by_text))

pub by_flag : Order less_flag same_flag
unfolding less_flag same_flag
by_flag = then_by (by_key (λ f. FlagKind.variant f.kind) by_number) (by_key (λ f. f.what) by_text)

-- The order of copies is by all three parts of the key, too.
pub same_copy : CopyRecord → CopyRecord → Bool
same_copy a b = text_eq a.to b.to && (text_eq a.from b.from && text_eq a.from_atom b.from_atom)

pub by_copy : Order less_copy same_copy
unfolding less_copy same_copy
by_copy =
    then_by (by_key (λ c. c.to) by_text)
      (then_by (by_key (λ c. c.from) by_text) (by_key (λ c. c.from_atom) by_text))
