-- ===== src/Hg/Answers.antt =====
-- What each way of failing leaves when it does not fail.
use brygge.Prelude.{
  ℕ, ◌+◌, ◌≤◌, ◌≡◌, refl, ap, arith, Bool, true, false, Option, none, some, Bytes, length, String,
}
use brygge.Prelude.{
  take, drop, leb, leb→le, le→leb, if◌then◌else◌, ok, err, length-take, length-drop,
}
use brygge.Hg.{Error, read, Answer}
use brygge.Hg.Util.{◌>>=◌, required, field}
use brygge.Hg.Revision.{ensure}
use mathlib.Core.Path.{subst}

pub err→ok {κ} : {A : Type 0} {C : Type κ} {x : Error} {a : A} → err x ≡ ok a → C
err→ok e = absurd (cc e)

pub if-ok :
    {A : Type 0} (c : Bool) (m : Answer A) (x : Error) (a : A)
    → (if c then m else err x) ≡ ok a
    → (c ≡ true) × (m ≡ ok a)
if-ok true m x a e = (refl, e)
if-ok false m x a e = err→ok e

-- A property of the result, if there is one.
abbrev pub Holds : {A : Type 0} → (A → Type 0) → Answer A → Type 0
Holds P (ok a) = P a
Holds P (err e) = Unit {0}

module _ {A : Type 0} where
  pub Holds-ok : (P : A → Type 0) (m : Answer A) (a : A) → Holds P m → m ≡ ok a → P a
  Holds-ok P (ok b) a h e = subst P (cc e) h
  Holds-ok P (err x) a h e = err→ok e

  pub ok-Holds : (P : A → Type 0) (m : Answer A) → ((a : A) → m ≡ ok a → P a) → Holds P m
  ok-Holds P (ok a) h = h a refl
  ok-Holds P (err e) h = tt

  pub Holds-bind :
      {B : Type 0} (Q : A → Type 0) (P : B → Type 0) (m : Answer A) (f : A → Answer B)
      → Holds Q m
      → ((a : A) → Q a → Holds P (f a))
      → Holds P (m >>= f)
  Holds-bind Q P (ok a) f h g = g a h
  Holds-bind Q P (err e) f h g = tt

  -- When nothing is asked of the first, and when its own equation is.
  pub Holds-then :
      {B : Type 0} (P : B → Type 0) (m : Answer A) (f : A → Answer B)
      → ((a : A) → m ≡ ok a → Holds P (f a))
      → Holds P (m >>= f)
  Holds-then P (ok a) f g = g a refl
  Holds-then P (err e) f g = tt

  pub Holds-if :
      (P : A → Type 0) (c : Bool) (m n : Answer A)
      → (c ≡ true → Holds P m)
      → (c ≡ false → Holds P n)
      → Holds P (if c then m else n)
  Holds-if P true m n h g = h refl
  Holds-if P false m n h g = g refl

pub Holds-map :
    {A : Type 0} (P Q : A → Type 0) (m : Answer A) → ((a : A) → P a → Q a) → Holds P m → Holds Q m
Holds-map P Q (ok a) f h = f a h
Holds-map P Q (err e) f h = tt

pub required-ok : {A : Type 0} (o : Option A) (x : Error) (a : A) → required o x ≡ ok a → o ≡ some a
required-ok none x a e = err→ok e
required-ok (some b) x a e = cc e

pub ensure-ok : (c : Bool) (x : Error) (u : Unit {0}) → ensure c x ≡ ok u → c ≡ true
ensure-ok true x u e = refl
ensure-ok false x u e = err→ok e

pub field-ok :
    (at n : ℕ) (what : String) (buf s : Bytes)
    → field at n what buf ≡ ok s
    → (at + n ≤ length buf) × (length s ≡ n)
field-ok at n what buf s e =
    let c = if-ok (leb (at + n) (length buf)) (ok (take n (drop at buf))) (read what) s e in
    let inside = leb→le (at + n) (length buf) c.0 in
    let taken : take n (drop at buf) ≡ s = cc c.1 in
    (inside, omega (arith, ap length taken, length-take n (drop at buf), length-drop at buf))

pub field-inside :
    (at n : ℕ) (what : String) (buf : Bytes)
    → at + n ≤ length buf
    → field at n what buf ≡ ok (take n (drop at buf))
field-inside at n what buf h = rw (le→leb (at + n) (length buf) h) refl

pub length-slice :
    (at n : ℕ) (buf : Bytes) → at + n ≤ length buf → length (take n (drop at buf)) ≡ n
length-slice at n buf h = omega (arith, length-take n (drop at buf), length-drop at buf)
