-- ===== src/Ir/Artifact/Structure/Chain.antt =====
-- artifact.rs: the checks on the chain of transforms.
use brygge.Prelude.{
  ℕ, ◌<◌, ◌≡◌, ◌≢◌, refl, Bool, true, false, not, List, [], ◌∷◌, Option, none, some,
}
use brygge.Prelude.{length, ltb→lt, lt→ltb, ok, err, ◌↔◌, and_true, All}
use brygge.Ir.Error.{Error}
use brygge.Ir.Model.PathOp.{op_status}
use brygge.Ir.Model.ChangeAtom.{ChangeAtom}
use brygge.Ir.Model.DropRecord.{DropRecord}
use brygge.Ir.Model.Metadata.{Ir}
use brygge.Ir.Status.ChangedPart.{ChangedPart}
use brygge.Ir.Status.EpistemicStatus.{EpistemicStatus, stated, derived, transformed}
use mathlib.Core.List.{Memᴰ}
use brygge.Ir.Artifact.Structure.Vocabulary.{vocabulary, vocab_ok-Mem}
use brygge.Ir.Artifact.Structure.{
  Checked, check, ◌>>◌, every, for_each, StatusContext, on_atom, on_op, on_ref, on_copy, vocab_ok,
  is_copy, check_status_chain, check_atom_chain, check_drop_step, check_transform_chain,
  is_transformed, no_transformed, reject_atom, is_some, reject_drop, reject_transform_extensions,
}

unfoldable pub Passes : Checked → Type 0
Passes m = m ≡ ok tt

pub check-Passes : (b : Bool) (e : Error) → Passes (check b e) → b ≡ true
unfolding Passes
check-Passes true e h = refl
check-Passes false e h = absurd (cc h)

pub Passes-check : (b : Bool) (e : Error) → b ≡ true → Passes (check b e)
unfolding Passes
Passes-check true e h = refl
Passes-check false e h = absurd (cc h)

pub then-Passes : (m k : Checked) → Passes (m >> k) → Passes m × Passes k
unfolding Passes
then-Passes (ok tt) k h = (refl, h)
then-Passes (err e) k h = absurd (cc h)

pub Passes-then : (m k : Checked) → Passes m → Passes k → Passes (m >> k)
unfolding Passes
Passes-then m k h g = rw h g

for_each-map :
    {A : Type 0} (f g : A → Checked) (xs : List A)
    → ((x : A) → Passes (f x) → Passes (g x))
    → Passes (for_each f xs)
    → Passes (for_each g xs)
unfolding Passes
for_each-map f g [] i h = refl
for_each-map f g (x ∷ xs) i h =
    let both = then-Passes (f x) (for_each f xs) h in
    Passes-then (g x) (for_each g xs) (i x both.0) (for_each-map f g xs i both.1)

-- Every transform that a status went through is one of the chain, and names parts of its context's vocabulary;
-- a copy's status went through none.
pub data Chain (context : StatusContext) (nsteps : ℕ) : EpistemicStatus → Type 0 where
  on_stated : Chain context nsteps stated
  on_derived : (d : _) → Chain context nsteps (derived d)
  on_transformed :
      (step : ℕ) (changed : List ChangedPart) (prior : EpistemicStatus)
      → context ≢ on_copy
      → step < nsteps
      → All (λ part. Memᴰ part (vocabulary context)) changed
      → Chain context nsteps prior
      → Chain context nsteps (transformed step changed prior)

All-map :
    {A : Type 0} (P Q : A → Type 0) (xs : List A) → ((x : A) → P x → Q x) → All P xs → All Q xs
All-map P Q [] f h = tt
All-map P Q (x ∷ xs) f h = (f x h.0, All-map P Q xs f h.1)

pub every-All :
    {A : Type 0} (p : A → Bool) (xs : List A) → every p xs ≡ true → All (λ x. p x ≡ true) xs
every-All p [] h = tt
every-All p (x ∷ xs) h = let both = and_true (p x) (every p xs) h in (both.0, every-All p xs both.1)

All-every : {A : Type 0} (p : A → Bool) (xs : List A) → All (λ x. p x ≡ true) xs → every p xs ≡ true
All-every p [] h = refl
All-every p (x ∷ xs) (h, hs) = rw h (All-every p xs hs)

not-true : (b : Bool) → not b ≡ true → b ≡ false
not-true true h = absurd (cc h)
not-true false h = refl

not-false : (b : Bool) → b ≡ false → not b ≡ true
not-false b h = rw h refl

elsewhere : (context : StatusContext) → is_copy context ≡ false → context ≢ on_copy
elsewhere on_copy h e = absurd (cc h)
elsewhere on_atom h e = absurd (cc e)
elsewhere on_op h e = absurd (cc e)
elsewhere on_ref h e = absurd (cc e)

no_copy : (context : StatusContext) → context ≢ on_copy → is_copy context ≡ false
no_copy on_copy h = absurd (h refl)
no_copy on_atom h = refl
no_copy on_op h = refl
no_copy on_ref h = refl

to_chain :
    (status : EpistemicStatus) (context : StatusContext) (nsteps : ℕ)
    → Passes (check_status_chain status context nsteps)
    → Chain context nsteps status
unfolding check_status_chain
to_chain stated context nsteps h = on_stated
to_chain (derived d) context nsteps h = on_derived d
to_chain (transformed step changed prior) context nsteps h =
    let last = then-Passes _ _ h in
    let middle = then-Passes _ _ last.0 in
    let first = then-Passes _ _ middle.0 in
    on_transformed step changed prior
      (elsewhere context (not-true (is_copy context) (check-Passes _ _ first.0)))
      (ltb→lt step nsteps (check-Passes _ _ first.1))
      (All-map (λ part. vocab_ok context part ≡ true) _ changed
        (λ part. (vocab_ok-Mem context part).0)
        (every-All (vocab_ok context) changed (check-Passes _ _ middle.1)))
      (to_chain prior context nsteps last.1)

passed : Passes (ok tt)
unfolding Passes
passed = refl

from_chain :
    (context : StatusContext) (nsteps : ℕ) (status : EpistemicStatus)
    → Chain context nsteps status
    → Passes (check_status_chain status context nsteps)
unfolding check_status_chain
from_chain context nsteps _ on_stated = passed
from_chain context nsteps _ (on_derived d) = passed
from_chain context nsteps _ (on_transformed step changed prior c s v p) =
    Passes-then _ _
      (Passes-then _ _
        (Passes-then _ _ (Passes-check _ _ (not-false (is_copy context) (no_copy context c)))
          (Passes-check _ _ (lt→ltb step nsteps s)))
        (Passes-check _ _ (
          All-every (vocab_ok context) changed (
            All-map _ (λ part. vocab_ok context part ≡ true) changed
              (λ part. (vocab_ok-Mem context part).1) v))))
      (from_chain context nsteps prior p)

-- The walk over a status passes exactly if every transform that the status went through is a step of the chain and
-- names only parts of the vocabulary of where the status stands, and there is none on a copy. The vocabulary of an
-- atom has its parents beside the seven parts of the format document.
pub check_status_chain_iff :
    (status : EpistemicStatus) (context : StatusContext) (nsteps : ℕ)
    → (check_status_chain status context nsteps ≡ ok tt) ↔ Chain context nsteps status
unfolding Passes
check_status_chain_iff status context nsteps =
    (to_chain status context nsteps, from_chain context nsteps status)

-- An artifact without the extensions has nothing that the check of the chain could refuse.
untransformed :
    (context : StatusContext) (nsteps : ℕ) (status : EpistemicStatus)
    → Passes (no_transformed status)
    → Passes (check_status_chain status context nsteps)
unfolding check_status_chain is_transformed
untransformed context nsteps stated h = passed
untransformed context nsteps (derived d) h = passed
untransformed context nsteps (transformed step changed prior) h =
    absurd (cc (check-Passes false _ h))

rejected_atom :
    (nsteps : ℕ) (a : ChangeAtom) → Passes (reject_atom a) → Passes (check_atom_chain nsteps a)
unfolding reject_atom check_atom_chain
rejected_atom nsteps a h =
    let last = then-Passes _ _ h in
    let first = then-Passes _ _ last.0 in
    Passes-then _ _
      (Passes-then _ _ (untransformed on_atom nsteps a.status first.0)
        (for_each-map _ _ a.ops (λ op. untransformed on_op nsteps (op_status op)) first.1))
      (for_each-map _ _ a.copies (λ c. untransformed on_copy nsteps c.status) last.1)

rejected_drop :
    (nsteps : ℕ) (d : DropRecord) → Passes (reject_drop d) → Passes (check_drop_step nsteps d.step)
unfolding reject_drop check_drop_step
rejected_drop nsteps d h = without_step d.step (check-Passes _ _ (then-Passes _ _ h).1)
  where
    without_step : (o : Option ℕ) → not (is_some o) ≡ true → Passes (check_drop_step nsteps o)
    without_step none k = passed
    without_step (some step) k = absurd (cc k)

-- What the check for contract 0.2.0 lets through, the check for the later contracts lets through.
pub reject_transform_extensions-check_transform_chain :
    (ir : Ir) → reject_transform_extensions ir ≡ ok tt → check_transform_chain ir ≡ ok tt
unfolding reject_transform_extensions check_transform_chain Passes
reject_transform_extensions-check_transform_chain ir h =
    let nsteps = length ir.transforms in
    let last = then-Passes _ _ h in
    let middle = then-Passes _ _ last.0 in
    let first = then-Passes _ _ middle.0 in
    Passes-then _ _
      (Passes-then _ _ (for_each-map _ _ ir.atoms (rejected_atom nsteps) first.1)
        (for_each-map _ _ ir.refs (λ r. untransformed on_ref nsteps r.status) middle.1))
      (for_each-map _ _ ir.dropped (rejected_drop nsteps) last.1)
