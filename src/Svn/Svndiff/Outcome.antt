-- ===== src/Svn/Svndiff/Outcome.antt =====
-- What a run can come to: a value with a property, or an error of the code; the fuel is not used up.
use brygge.Prelude.{◌≡◌, ◌≢◌, if◌then◌else◌, refl, sym, true, Bool, false}
use brygge.Prelude.{ok, err}
use brygge.Svn.Svndiff.{Answer, DiffError, failed, no_fuel, ◌>>=◌, ensure}

abbrev pub Outcome : {A : Type 0} → (A → Type 0) → Answer A → Type 0
Outcome P (ok a) = P a
Outcome P (err (failed e)) = Unit
Outcome P (err no_fuel) = ⊥

pub Outcome-bind :
    {A B : Type 0} (P : A → Type 0) (Q : B → Type 0) (m : Answer A) (f : A → Answer B)
    → Outcome P m
    → ((a : A) → P a → Outcome Q (f a))
    → Outcome Q (m >>= f)
Outcome-bind P Q (ok a) f h k = k a h
Outcome-bind P Q (err (failed e)) f h k = tt
Outcome-bind P Q (err no_fuel) f h k = absurd h

pub Outcome-ensure : (b : Bool) (e : DiffError) → Outcome (λ _. b ≡ true) (ensure b e)
Outcome-ensure true e = refl
Outcome-ensure false e = tt

pub Outcome-ok : {A : Type 0} (P : A → Type 0) (m : Answer A) (a : A) → Outcome P m → m ≡ ok a → P a
Outcome-ok P (ok b) a h e = let same : b ≡ a = cc e in rw (sym same) h
Outcome-ok P (err s) a h e = absurd (cc e)

pub Outcome-fuel : {A : Type 0} (P : A → Type 0) (m : Answer A) → Outcome P m → m ≢ err no_fuel
Outcome-fuel P (ok b) h e = cc e
Outcome-fuel P (err (failed s)) h e = cc e
Outcome-fuel P (err no_fuel) h e = h

pub Outcome-if :
    {A : Type 0} (P : A → Type 0) (b : Bool) (m k : Answer A)
    → Outcome P m
    → Outcome P k
    → Outcome P (if b then m else k)
Outcome-if P true m k h g = h
Outcome-if P false m k h g = g

pub Outcome-map :
    {A : Type 0} (P Q : A → Type 0) (m : Answer A)
    → ((a : A) → P a → Q a)
    → Outcome P m
    → Outcome Q m
Outcome-map P Q (ok a) f h = f a h
Outcome-map P Q (err (failed e)) f h = tt
Outcome-map P Q (err no_fuel) f h = h
