-- ===== src/Hg/Patch.antt =====
-- revlog.rs, `mpatch`: a delta does what its hunks say.
use brygge.Prelude.{ℕ, zero, suc, ◌-◌, ◌/◌, ◌%◌, ◌^◌, ◌≤◌, ◌<◌, ◌≡◌, refl, ap, sym, ◌∙◌, arith}
use brygge.Prelude.{List, [], ◌∷◌, ◌++◌, Bytes, length, le→leb, ok, append_assoc}
use brygge.Prelude.{length-take, length-append, take, drop, take-take, drop-take}
use brygge.Prelude.{take-append_le, drop-append_le, drop-append, take-append, drop_add, ltb-false}
use brygge.Hg.Util.{be}
use brygge.Hg.Revision.{hunk, mpatch_loop, mpatch}
use brygge.Hg.Answers.{field-inside}

pub record Hunk : Type 0 where
  pub start : ℕ
  pub end : ℕ
  pub new : Bytes

abbrev four : ℕ → Bytes → Bytes
four n rest = n / 2 ^ 24 ∷ n / 2 ^ 16 % 256 ∷ n / 2 ^ 8 % 256 ∷ n % 256 ∷ rest

four_lem : (n : ℕ) → n < 2 ^ 32 → be (four n []) ≡ n
four_lem n h = omega arith

-- The delta of some hunks.
abbrev pub encode : List Hunk → Bytes
encode [] = []
encode (h ∷ hs) = four h.start (four h.end (four (length h.new) (h.new ++ encode hs)))

-- What the hunks mean, the last one first: the piece of the base between its ends is replaced.
abbrev pub splice : Bytes → List Hunk → Bytes
splice base [] = base
splice base (h ∷ hs) = take h.start (splice base hs) ++ (h.new ++ drop h.end (splice base hs))

abbrev pub InOrder : ℕ → Bytes → List Hunk → Type 0
InOrder pos base [] = Unit {0}
InOrder pos base (h ∷ hs) =
    (pos ≤ h.start)
    × (h.start ≤ h.end)
    × (h.end ≤ length base)
    × (length h.new < 2 ^ 32)
    × InOrder h.end base hs

-- Hunks behind a position leave what is before it.
splice-take :
    (k : ℕ) (base : Bytes) (hs : List Hunk)
    → k ≤ length base
    → InOrder k base hs
    → (take k (splice base hs) ≡ take k base) × (k ≤ length (splice base hs))
splice-take k base [] h o = (refl, h)
splice-take k base (h ∷ hs) below o =
    let r = splice-take h.end base hs o.2 o.4 in
    let s = splice base hs in
    let front : length (take h.start s) ≡ h.start =
      omega (arith, o.0, o.1, r.1, length-take h.start s) in
    (
      take-append_le k (take h.start s) (h.new ++ drop h.end s) (omega (arith, o.0))
          ∙ take-take k h.start s o.0
          ∙ sym (take-take k h.end s (omega (arith, o.0, o.1)))
          ∙ ap (take k) r.0
          ∙ take-take k h.end base (omega (arith, o.0, o.1)),
      omega (arith, o.0, length-append (take h.start s) (h.new ++ drop h.end s)),
    )

hunk_lem :
    (base : Bytes) (pos : ℕ) (out : Bytes) (h : Hunk) (hs : List Hunk)
    → length base < 2 ^ 32
    → InOrder pos base (h ∷ hs)
    → hunk base pos out (encode (h ∷ hs))
      ≡ ok (h.end, out ++ (take (h.start - pos) (drop pos base) ++ h.new), encode hs)
unfolding hunk
hunk_lem base pos out h hs small o =
    let rest = h.new ++ encode hs in
    let size = length-append h.new (encode hs) in
    rw
      (
        field-inside 0 4 "revlog index truncated" (encode (h ∷ hs)) (omega arith),
        field-inside 4 4 "revlog index truncated" (encode (h ∷ hs)) (omega arith),
        field-inside 8 4 "revlog index truncated" (encode (h ∷ hs)) (omega arith),
        four_lem h.start (omega (arith, o.1, o.2)),
        four_lem h.end (omega (arith, o.2)),
        four_lem (length h.new) o.3,
        field-inside 12 (length h.new) "delta hunk data truncated" (encode (h ∷ hs))
            (omega (arith, size)),
        ltb-false h.start pos o.0,
        ltb-false (length base) h.end o.2,
        ltb-false h.end h.start o.1,
        field-inside pos (h.start - pos) "delta base slice out of range" base
            (omega (arith, o.0, o.1, o.2)),
        drop_add 12 (length h.new) (encode (h ∷ hs)),
        take-append h.new (encode hs),
        drop-append h.new (encode hs),
      )
      refl

-- One hunk, in the output and in what it means.
joined :
    (base : Bytes) (pos : ℕ) (out : Bytes) (h : Hunk) (hs : List Hunk)
    → InOrder pos base (h ∷ hs)
    → (out ++ (take (h.start - pos) (drop pos base) ++ h.new)) ++ drop h.end (splice base hs)
      ≡ out ++ drop pos (splice base (h ∷ hs))
joined base pos out h hs o =
    let s = splice base hs in
    let r = splice-take h.end base hs o.2 o.4 in
    let kept : take h.start s ≡ take h.start base =
      sym (take-take h.start h.end s o.1)
      ∙ ap (take h.start) r.0
      ∙ take-take h.start h.end base o.1 in
    let inside : pos ≤ length (take h.start s) =
      omega (arith, o.0, o.1, r.1, length-take h.start s) in
    let piece : drop pos (take h.start s) ≡ take (h.start - pos) (drop pos base) =
      ap (drop pos) kept ∙ drop-take pos h.start base in
    append_assoc out (take (h.start - pos) (drop pos base) ++ h.new) (drop h.end s)
    ∙ ap (λ t. out ++ t)
        (append_assoc (take (h.start - pos) (drop pos base)) h.new (drop h.end s)
          ∙ ap (λ t. t ++ (h.new ++ drop h.end s)) (sym piece)
          ∙ sym (drop-append_le pos (take h.start s) (h.new ++ drop h.end s) inside))

mpatch_loop_lem :
    (fuel : ℕ) (base : Bytes) (pos : ℕ) (out : Bytes) (hs : List Hunk)
    → length base < 2 ^ 32
    → pos ≤ length base
    → InOrder pos base hs
    → length (encode hs) ≤ fuel
    → (end : ℕ × Bytes) × (mpatch_loop fuel base pos out (encode hs) ≡ ok end)
      × (end.0 ≤ length base)
      × (end.1 ++ drop end.0 base ≡ out ++ drop pos (splice base hs))
unfolding mpatch_loop
mpatch_loop_lem zero base pos out [] small below o f = ((pos, out), refl, below, refl)
mpatch_loop_lem (suc fuel) base pos out [] small below o f = ((pos, out), refl, below, refl)
mpatch_loop_lem zero base pos out (h ∷ hs) small below o f = absurd (omega arith)
mpatch_loop_lem (suc fuel) base pos out (h ∷ hs) small below o f =
    let more = length-append h.new (encode hs) in
    let r =
      mpatch_loop_lem fuel base h.end (out ++ (take (h.start - pos) (drop pos base) ++ h.new)) hs
        small o.2 o.4 (omega (arith, more)) in
    (r.0, rw (hunk_lem base pos out h hs small o) r.1, r.2, r.3 ∙ joined base pos out h hs o)

-- A delta whose hunks lie in order within the base gives, within the ceiling, the base with the piece between
-- the ends of each hunk replaced.
pub mpatch-splice :
    (limit : ℕ) (base : Bytes) (hs : List Hunk)
    → length base < 2 ^ 32
    → InOrder 0 base hs
    → length (splice base hs) ≤ limit
    → mpatch limit base (encode hs) ≡ ok (splice base hs)
unfolding mpatch
mpatch-splice limit base hs small o fits =
    let r = mpatch_loop_lem (length (encode hs)) base 0 [] hs small (omega arith) o (omega arith) in
    rw (r.1, le→leb r.0.0 (length base) r.2, r.3, le→leb (length (splice base hs)) limit fits) refl
