-- ===== src/Ir/Artifact/Plan.antt =====
-- artifact/frame.rs: what a packing plan promises the reader and the writer.
use brygge.Prelude.{ℕ, zero, suc, ◌+◌, ◌-◌, ◌≤◌, ◌<◌, ◌≡◌, refl, arith, ◌⊎◌, inl, inr, min}
use brygge.Prelude.{List, [], ◌∷◌, ◌++◌, none, some, length, ltb, leb, leb→le, Bool-cases}
use brygge.Prelude.{length-append, append_assoc}
use mathlib.Core.Path.{subst}
use brygge.Ir.Artifact.Frame.{
  frame_cap, Frame, close, plan_loop, canonical_frame_plan, chunk_loop, fixed_chunk_lens,
}

abbrev pub sum : List ℕ → ℕ
sum [] = 0
sum (x ∷ xs) = x + sum xs

-- Frames that cover the lengths from the index `i` on without gap or overlap, each as long as the lengths that it
-- covers together, and no longer than the cap unless it covers a single one.
pub data Covers : ℕ → List ℕ → List Frame → Type 0 where
  done : {i : ℕ} → Covers i [] []
  next :
      {i : ℕ} (part lens : List ℕ) (f : Frame) (frames : List Frame)
      → f.first ≡ i
      → f.past ≡ i + length part
      → 0 < length part
      → f.raw_len ≡ sum part
      → (f.raw_len ≤ frame_cap) ⊎ (length part ≡ 1)
      → Covers f.past lens frames
      → Covers i (part ++ lens) (f ∷ frames)

-- The frame under construction covers the lengths before the current index.
record Pending (c : ℕ × ℕ) (i : ℕ) (part : List ℕ) : Type 0 where
  ends : i ≡ c.1 + length part
  some_part : 0 < length part
  total : c.0 ≡ sum part
  under : c.0 ≤ frame_cap

sum-append : (xs ys : List ℕ) → sum (xs ++ ys) ≡ sum xs + sum ys
sum-append [] ys = omega arith
sum-append (x ∷ xs) ys = omega (arith, sum-append xs ys)

Both : ℕ → List ℕ → Type 0
Both i lens =
    Covers i lens (plan_loop i none lens)
    × ((c : ℕ × ℕ) (part : List ℕ)
        → Pending c i part
        → Covers c.1 (part ++ lens) (plan_loop i (some c) lens))

closing :
    (c : ℕ × ℕ) (i : ℕ) (part lens : List ℕ) (frames : List Frame)
    → Pending c i part
    → Covers i lens frames
    → Covers c.1 (part ++ lens) (close (some c) i ++ frames)
closing c i part lens frames p rest =
    next part lens (record { raw_len = c.0; first = c.1; past = i }) frames refl p.ends p.some_part
      p.total (inl p.under) rest

alone_lem :
    (i len : ℕ) (lens : List ℕ)
    → Covers (suc i) lens (plan_loop (suc i) none lens)
    → Covers i
        (len ∷ lens)
        (record { raw_len = len; first = i; past = suc i } ∷ plan_loop (suc i) none lens)
alone_lem i len lens rest =
    next (len ∷ []) lens (record { raw_len = len; first = i; past = suc i })
      (plan_loop (suc i) none lens) refl (omega arith) (omega arith) (omega arith) (inr refl) rest

begun_lem :
    (i len : ℕ) (lens : List ℕ)
    → len ≤ frame_cap
    → Both (suc i) lens
    → Covers i (len ∷ lens) (plan_loop (suc i) (some (len, i)) lens)
unfolding Both
begun_lem i len lens small both =
    both.1 (len, i) (len ∷ [])
      (record { ends = omega arith; some_part = omega arith; total = omega arith; under = small })

plan_loop_lem : (i : ℕ) (lens : List ℕ) → Both i lens
unfolding plan_loop Both
plan_loop_lem i [] = (done, λ c part p. closing c i part [] [] p done)
plan_loop_lem i (len ∷ lens) =
    let rest = plan_loop_lem (suc i) lens in
    let single = alone_lem i len lens rest.0 in
    elim (Bool-cases (ltb frame_cap len)) [
      | inl big ↦ (rw big single, λ c part p. rw big (closing c i part (len ∷ lens) _ p single))
      | inr small ↦
          let fits : len ≤ frame_cap = ground arith in
          let fresh = begun_lem i len lens fits rest in
          (
            rw small fresh,
            λ c part p. elim (Bool-cases (leb (c.0 + len) frame_cap)) [
              | inr full ↦ rw (small, full) (closing c i part (len ∷ lens) _ p fresh)
              | inl room ↦
                  let joined =
                    rest.1 (c.0 + len, c.1) (part ++ len ∷ [])
                      (record {
                        ends = omega (arith, p.ends, length-append part (len ∷ []));
                        some_part = omega (arith, p.some_part, length-append part (len ∷ []));
                        total = omega (arith, p.total, sum-append part (len ∷ []));
                        under = leb→le (c.0 + len) frame_cap room;
                      }) in
                  rw (small, room)
                    (subst (λ t. Covers c.1 t (plan_loop (suc i) (some (c.0 + len, c.1)) lens))
                      (append_assoc part (len ∷ []) lens) joined)
            ],
          )
    ]

-- The plan covers all the lengths in order, without gap or overlap and without an empty frame; a frame is as long
-- as the lengths that it covers together, and is longer than the cap only if it covers a single length.
pub canonical_frame_plan-Covers : (lens : List ℕ) → Covers 0 lens (canonical_frame_plan lens)
unfolding canonical_frame_plan Both
canonical_frame_plan-Covers lens = (plan_loop_lem 0 lens).0

-- Chunks of a total: every one but the last is full, and none is empty.
pub data Chunks : ℕ → List ℕ → Type 0 where
  none_left : Chunks 0 []
  last : (n : ℕ) → 0 < n → n ≤ frame_cap → Chunks n (n ∷ [])
  full : (n : ℕ) (lens : List ℕ) → 0 < n → Chunks n lens → Chunks (frame_cap + n) (frame_cap ∷ lens)

chunk_loop_zero : (fuel : ℕ) → chunk_loop fuel 0 ≡ []
unfolding chunk_loop
chunk_loop_zero zero = refl
chunk_loop_zero (suc fuel) = refl

chunk_loop_lem :
    (fuel remaining : ℕ) → remaining ≤ fuel → Chunks remaining (chunk_loop fuel remaining)
unfolding chunk_loop
chunk_loop_lem zero zero f = none_left
chunk_loop_lem zero (suc n) f = absurd (omega arith)
chunk_loop_lem (suc fuel) zero f = none_left
chunk_loop_lem (suc fuel) (suc n) f = elim (Bool-cases (leb (suc n) frame_cap)) [
  | inl small ↦
      let size : suc n ≡ min (suc n) frame_cap = ground arith in
      let nothing : 0 ≡ suc n - suc n = omega arith in
      subst (λ t. Chunks (suc n) (t ∷ chunk_loop fuel (suc n - t))) size
        (subst (λ t. Chunks (suc n) (suc n ∷ chunk_loop fuel t)) nothing
          (rw (chunk_loop_zero fuel) (last (suc n) (omega arith) (leb→le (suc n) frame_cap small))))
  | inr big ↦
      let size : frame_cap ≡ min (suc n) frame_cap = ground arith in
      let more : 0 < suc n - frame_cap = ground arith in
      let whole : frame_cap + (suc n - frame_cap) ≡ suc n = omega arith in
      subst (λ t. Chunks (suc n) (t ∷ chunk_loop fuel (suc n - t))) size
        (subst (λ t. Chunks t (frame_cap ∷ chunk_loop fuel (suc n - frame_cap))) whole
          (full (suc n - frame_cap) (chunk_loop fuel (suc n - frame_cap)) more
            (chunk_loop_lem fuel (suc n - frame_cap) (omega arith))))
]

-- Every total is cut into chunks of exactly the cap and a last one that is no longer and not empty; the loop ends
-- on every total.
pub fixed_chunk_lens-Chunks : (total : ℕ) → Chunks total (fixed_chunk_lens total)
unfolding fixed_chunk_lens
fixed_chunk_lens-Chunks total = chunk_loop_lem total total (omega arith)
