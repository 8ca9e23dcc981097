-- ===== src/Ir/Artifact/Structure/Vocabulary.antt =====
-- artifact.rs and model.rs: what a transform may say that it changed, by where the status stands.
use brygge.Prelude.{◌≡◌, refl, ap, ◌∙◌, true, List, [], ◌∷◌, All, Bool, ◌↔◌}
use mathlib.Core.List.{Memᴰ}
use mathlib.Core.List.Memᴰ
use mathlib.Core.List.Memᴰ.{head, tail}
use brygge.Ir.Status.ChangedPart.{
  ChangedPart, author, author_time, committer, commit_time, message, ops, copies, parents, blob,
  mode, path, annotation, kind, name, target, valid_on_atom, valid_on_op, valid_on_ref,
}
use brygge.Ir.Artifact.Structure.{StatusContext, on_atom, on_op, on_ref, on_copy, vocab_ok}

-- An atom's status may also name its parents.
unfoldable pub vocabulary : StatusContext → List ChangedPart
vocabulary on_atom =
    author ∷ author_time ∷ committer ∷ commit_time ∷ message ∷ ops ∷ copies ∷ parents ∷ []
vocabulary on_op = blob ∷ mode ∷ path ∷ []
vocabulary on_ref = annotation ∷ kind ∷ name ∷ target ∷ []
vocabulary on_copy = []

atom_listed :
    (part : ChangedPart)
    → valid_on_atom part ≡ true
    → Memᴰ part
        (author ∷ author_time ∷ committer ∷ commit_time ∷ message ∷ ops ∷ copies ∷ parents ∷ [])
unfolding valid_on_atom
atom_listed author h = head refl
atom_listed author_time h = tail (head refl)
atom_listed committer h = tail (tail (head refl))
atom_listed commit_time h = tail (tail (tail (head refl)))
atom_listed message h = tail (tail (tail (tail (head refl))))
atom_listed ops h = tail (tail (tail (tail (tail (head refl)))))
atom_listed copies h = tail (tail (tail (tail (tail (tail (head refl))))))
atom_listed parents h = tail (tail (tail (tail (tail (tail (tail (head refl)))))))
atom_listed blob h = absurd (cc h)
atom_listed mode h = absurd (cc h)
atom_listed path h = absurd (cc h)
atom_listed annotation h = absurd (cc h)
atom_listed kind h = absurd (cc h)
atom_listed name h = absurd (cc h)
atom_listed target h = absurd (cc h)

op_listed : (part : ChangedPart) → valid_on_op part ≡ true → Memᴰ part (blob ∷ mode ∷ path ∷ [])
unfolding valid_on_op
op_listed author h = absurd (cc h)
op_listed author_time h = absurd (cc h)
op_listed committer h = absurd (cc h)
op_listed commit_time h = absurd (cc h)
op_listed message h = absurd (cc h)
op_listed ops h = absurd (cc h)
op_listed copies h = absurd (cc h)
op_listed parents h = absurd (cc h)
op_listed blob h = head refl
op_listed mode h = tail (head refl)
op_listed path h = tail (tail (head refl))
op_listed annotation h = absurd (cc h)
op_listed kind h = absurd (cc h)
op_listed name h = absurd (cc h)
op_listed target h = absurd (cc h)

ref_listed :
    (part : ChangedPart)
    → valid_on_ref part ≡ true
    → Memᴰ part (annotation ∷ kind ∷ name ∷ target ∷ [])
unfolding valid_on_ref
ref_listed author h = absurd (cc h)
ref_listed author_time h = absurd (cc h)
ref_listed committer h = absurd (cc h)
ref_listed commit_time h = absurd (cc h)
ref_listed message h = absurd (cc h)
ref_listed ops h = absurd (cc h)
ref_listed copies h = absurd (cc h)
ref_listed parents h = absurd (cc h)
ref_listed blob h = absurd (cc h)
ref_listed mode h = absurd (cc h)
ref_listed path h = absurd (cc h)
ref_listed annotation h = head refl
ref_listed kind h = tail (head refl)
ref_listed name h = tail (tail (head refl))
ref_listed target h = tail (tail (tail (head refl)))

All-Mem :
    {A : Type 0} (p : A → Bool) {x : A} (xs : List A)
    → All (λ y. p y ≡ true) xs
    → Memᴰ x xs
    → p x ≡ true
All-Mem p [] h m = absurd (Memᴰ.not-nil m)
All-Mem p (y ∷ ys) h (head e) = ap p e ∙ h.0
All-Mem p (y ∷ ys) h (tail m) = All-Mem p ys h.1 m

listed_ok :
    (context : StatusContext) → All (λ part. vocab_ok context part ≡ true) (vocabulary context)
unfolding vocab_ok vocabulary valid_on_atom valid_on_op valid_on_ref
listed_ok on_atom = (refl, (refl, (refl, (refl, (refl, (refl, (refl, (refl, tt))))))))
listed_ok on_op = (refl, (refl, (refl, tt)))
listed_ok on_ref = (refl, (refl, (refl, (refl, tt))))
listed_ok on_copy = tt

ok_listed :
    (context : StatusContext) (part : ChangedPart)
    → vocab_ok context part ≡ true
    → Memᴰ part (vocabulary context)
unfolding vocab_ok vocabulary
ok_listed on_atom part h = atom_listed part h
ok_listed on_op part h = op_listed part h
ok_listed on_ref part h = ref_listed part h
ok_listed on_copy part h = absurd (cc h)

-- The code accepts the parts of the vocabulary and no others.
pub vocab_ok-Mem :
    (context : StatusContext) (part : ChangedPart)
    → (vocab_ok context part ≡ true) ↔ Memᴰ part (vocabulary context)
vocab_ok-Mem context part =
    (ok_listed context part, All-Mem (vocab_ok context) (vocabulary context) (listed_ok context))
