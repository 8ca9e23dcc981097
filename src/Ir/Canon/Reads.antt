-- ===== src/Ir/Canon/Reads.antt =====
-- What it means for a reader's step to undo a writer's: at the front of any input it takes exactly the
-- bytes written, and it leaves the rest and the count of skipped fields as they were.
use brygge.Prelude.{ℕ, ◌+◌, ◌≡◌, refl, sym, ap, ◌∙◌, arith}
use brygge.Prelude.{Bool, true, [], ◌++◌, append-nil, append_assoc}
use brygge.Prelude.{Bytes, length, length-append, take-append, drop-append, ok}
use brygge.Prelude.{leb, le→leb}
use brygge.Prelude.Utf8.{is_utf8}
use brygge.Ir.Error.{Error}
use brygge.Ir.Canon.Reader.{
  Reader, Read, and_then, ◌>>=◌, pure, ensure, take, raw, raw32, text, bytes_exact,
}
use mathlib.Core.Path.{subst}
use native.Mathlib.Nat.{add-zero}

abbrev pub at : Bytes → ℕ → ℕ → Reader
at rest pos skipped = record { rest = rest; pos = pos; skipped = skipped }

pub record Reads {A : Type 0} (m : Read A) (bs : Bytes) (a : A) : Type 0 where
  pub run :
      (rest : Bytes) (pos skipped : ℕ)
      → m (at (bs ++ rest) pos skipped) ≡ ok (a, at rest (pos + length bs) skipped)

module _ {A : Type 0} where
  pub Reads-pure : (a : A) → Reads (pure a) [] a
  Reads-pure a = record { run = λ rest pos sk. ap (λ p. ok (a, at rest p sk)) (sym (add-zero pos)) }

  pub Reads-cast : (m : Read A) {bs cs : Bytes} {a : A} → bs ≡ cs → Reads m bs a → Reads m cs a
  Reads-cast m {a = a} e r = subst (λ x. Reads m x a) e r

pub Reads-ensure : (b : Bool) (e : Error) → b ≡ true → Reads (ensure b e) [] tt
Reads-ensure b e h = record {
  run = λ rest pos sk. rw h (ap (λ p. ok (tt, at rest p sk)) (sym (add-zero pos)));
}

pub pos_append : (pos : ℕ) (bs cs : Bytes) → pos + length bs + length cs ≡ pos + length (bs ++ cs)
pos_append pos bs cs = omega (arith, length-append bs cs)

pub Reads-bind :
    {A B : Type 0} (m : Read A) (f : A → Read B) {bs cs : Bytes} {a : A} {b : B}
    → Reads m bs a
    → Reads (f a) cs b
    → Reads (m >>= f) (bs ++ cs) b
Reads-bind m f {bs} {cs} {a} {b} rm rf = record {
  run = λ rest pos sk.
      ap (λ x. and_then f (m (at x pos sk))) (append_assoc bs cs rest)
      ∙ ap (and_then f) (rm.run (cs ++ rest) pos sk)
      ∙ rf.run rest (pos + length bs) sk
      ∙ ap (λ p. ok (b, at rest p sk)) (pos_append pos bs cs);
}

-- A step that takes no bytes in front of one that does.
pub Reads-then :
    {A B : Type 0} (m : Read A) (f : A → Read B) {cs : Bytes} {a : A} {b : B}
    → Reads m [] a
    → Reads (f a) cs b
    → Reads (m >>= f) cs b
Reads-then m f rm rf = Reads-bind m f rm rf

-- A last step that takes no bytes.
pub Reads-last :
    {A B : Type 0} (m : Read A) (f : A → Read B) {bs : Bytes} {a : A} {b : B}
    → Reads m bs a
    → Reads (f a) [] b
    → Reads (m >>= f) bs b
Reads-last m f {bs} rm rf = Reads-cast (m >>= f) (append-nil bs) (Reads-bind m f rm rf)

enough : (bs rest : Bytes) → leb (length bs) (length (bs ++ rest)) ≡ true
enough bs rest = le→leb (length bs) (length (bs ++ rest)) (omega (arith, length-append bs rest))

pub Reads-take : (bs : Bytes) → Reads (take (length bs)) bs bs
unfolding take
Reads-take bs = record {
  run = λ rest pos sk. rw (enough bs rest, take-append bs rest, drop-append bs rest) refl;
}

pub Reads-raw : (bs : Bytes) → Reads (raw (length bs)) bs bs
unfolding raw
Reads-raw bs = record {
  run = λ rest pos sk. ground (arith, length-append bs rest, (Reads-take bs).run rest pos sk);
}

pub Reads-bytes_exact : (bs : Bytes) → Reads (bytes_exact (length bs)) bs bs
unfolding bytes_exact
Reads-bytes_exact bs = Reads-raw bs

pub Reads-raw32 : (bs : Bytes) → length bs ≡ 32 → Reads raw32 bs bs
unfolding raw32
Reads-raw32 bs h = rw h at (Reads-take bs)

pub Reads-text : (bs : Bytes) → is_utf8 bs ≡ true → Reads (text (length bs)) bs bs
unfolding text
Reads-text bs h =
    Reads-last (raw (length bs)) _ (Reads-raw bs)
      (Reads-then (ensure (is_utf8 bs) _) _ (Reads-ensure _ _ h) (Reads-pure bs))
