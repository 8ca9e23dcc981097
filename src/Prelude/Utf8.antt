-- ===== src/Prelude/Utf8.antt =====
-- What `str::from_utf8` accepts: the well-formed byte sequences of UTF-8, by the ranges that the lead
-- byte leaves for the bytes behind it. A text is the list of its bytes; texts compare byte by byte.
use Prim.Native.Nat.{ℕ}
use Prim.Native.Char.{code}
use Prim.Native.String.{String}
use mathlib.Core.Bool.{Bool, true, false, ◌&&◌}
use mathlib.Core.Option.{Option, none, some}
use mathlib.Core.List.{List, [], ◌∷◌}
use mathlib.Core.Path.{◌≡◌, refl}
use native.Mathlib.Omega.{arith}
use brygge.Prelude.Tests.{and_true, ==_refl, ltb, leb, ◌==◌, if◌then◌else◌}
use brygge.Prelude.Lists.{Bytes}

abbrev Ranges : Type 0
Ranges = List (ℕ × ℕ)

abbrev tail_range : ℕ × ℕ
tail_range = (0x80, 0xbf)

lead : ℕ → Option Ranges
lead b =
    if ltb b 0x80
    then some []
    else if leb 0xc2 b && leb b 0xdf
    then some (tail_range ∷ [])
    else if b == 0xe0
    then some ((0xa0, 0xbf) ∷ tail_range ∷ [])
    else if b == 0xed
    then some ((0x80, 0x9f) ∷ tail_range ∷ [])
    else if leb 0xe1 b && leb b 0xef
    then some (tail_range ∷ tail_range ∷ [])
    else if b == 0xf0
    then some ((0x90, 0xbf) ∷ tail_range ∷ tail_range ∷ [])
    else if leb 0xf1 b && leb b 0xf3
    then some (tail_range ∷ tail_range ∷ tail_range ∷ [])
    else if b == 0xf4
    then some ((0x80, 0x8f) ∷ tail_range ∷ tail_range ∷ [])
    else none

well_formed : Ranges → Bytes → Bool
well_formed [] [] = true
well_formed (r ∷ rs) [] = false
well_formed [] (b ∷ bs) = elim (lead b) [ none ↦ false | some rs ↦ well_formed rs bs ]
well_formed ((lo, hi) ∷ rs) (b ∷ bs) = leb lo b && leb b hi && well_formed rs bs

unfoldable pub is_utf8 : Bytes → Bool
unfolding lead well_formed
is_utf8 = well_formed []

-- The order of texts.
unfoldable pub text_ltb : Bytes → Bytes → Bool
text_ltb [] [] = false
text_ltb [] (y ∷ ys) = true
text_ltb (x ∷ xs) [] = false
text_ltb (x ∷ xs) (y ∷ ys) = if x == y then text_ltb xs ys else ltb x y

unfoldable pub text_eq : Bytes → Bytes → Bool
text_eq [] [] = true
text_eq [] (y ∷ ys) = false
text_eq (x ∷ xs) [] = false
text_eq (x ∷ xs) (y ∷ ys) = x == y && text_eq xs ys

pub text_eq_refl : (a : Bytes) → text_eq a a ≡ true
unfolding text_eq
text_eq_refl [] = refl
text_eq_refl (x ∷ xs) = rw (==_refl x, text_eq_refl xs) refl

pub text_eq→eq : (a b : Bytes) → text_eq a b ≡ true → a ≡ b
unfolding text_eq
text_eq→eq [] [] e = refl
text_eq→eq [] (y ∷ ys) e = absurd (cc e)
text_eq→eq (x ∷ xs) [] e = absurd (cc e)
text_eq→eq (x ∷ xs) (y ∷ ys) e =
    let both = and_true (x == y) (text_eq xs ys) e in
    let head : x ≡ y = ground (arith, both.0) in
    let tail = text_eq→eq xs ys both.1 in cc (head, tail)

-- The bytes of an ASCII literal.
abbrev pub codes : String → Bytes
codes String.[] = []
codes (String.◌∷◌ c s) = code c ∷ codes s
