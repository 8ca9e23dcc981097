-- ===== src/Ir/Status/EpistemicStatus.antt =====
-- status.rs: `EpistemicStatus`, whether an assertion was stated, derived, or changed by a transform.
use brygge.Prelude.{
  ℕ, zero, suc, ◌-◌, ◌<◌, ◌≤◌, ◌^◌, ◌≡◌, ◌≢◌, Bool, true, false, arith, ◌==◌, ltb, if◌then◌else◌,
}
use brygge.Prelude.{List, [], ◌∷◌, ◌++◌, map, Option, none, some, Bytes, length, length-append, All}
use brygge.Prelude.Utf8.{text_ltb}
use brygge.Ir.Error.{Error, non_canonical}
use brygge.Ir.Canon.Writer.{field, in_turn, record_bytes, list_value, uvarint_value}
use brygge.Ir.Canon.Reader.{
  Read, Handler, ◌>>=◌, ◌>>◌, pure, fail, ensure, required, recognized, declined, uvarint, list,
  record_fields,
}
use brygge.Ir.Canon.Varint.{uvarint-uvarint_value}
use brygge.Ir.Canon.Reads.{Reads, Reads-bind, Reads-then, Reads-last, Reads-pure, Reads-ensure}
use brygge.Ir.Canon.Lists.{Fits, list-list_value}
use brygge.Ir.Canon.Records.{done, Handles-field, record_fields-record_bytes}
use brygge.Ir.Model.Checks.{ascending, non_empty_list, Reads-non_empty}
use brygge.Ir.Model.Variants.{decline, Reads-empty, Reads-plain}
use brygge.Ir.Status.ChangedPart.{ChangedPart, as_str, text_item, read_part, read_part-text_item}
use brygge.Ir.Status.Derivation
use brygge.Ir.Status.Derivation.{Derivation}

pub data EpistemicStatus : Type 0 where
  stated : EpistemicStatus
  derived : Derivation → EpistemicStatus
  transformed : ℕ → List ChangedPart → EpistemicStatus → EpistemicStatus

abbrev pub max_transformed_depth : ℕ
max_transformed_depth = 64

unfoldable pub is_derived : EpistemicStatus → Bool
is_derived (derived d) = true
is_derived s = false

abbrev part_item : ChangedPart → Bytes
part_item c = text_item (as_str c)

unfoldable pub encode : EpistemicStatus → Bytes
encode stated = uvarint_value 0 ++ record_bytes []
encode (derived d) = uvarint_value 1 ++ Derivation.encode d
encode (transformed step changed prior) =
    uvarint_value 2
    ++ record_bytes (
        in_turn (
          field 1 true (uvarint_value step)
          ∷ field 2 true (list_value (map part_item changed))
          ∷ field 3 true (encode prior)
          ∷ []))

record Vars : Type 0 where
  step : Option ℕ
  changed : List ChangedPart
  prior : Option EpistemicStatus

abbrev start : Vars
start = record { step = none; changed = []; prior = none }

-- The fields of `Transformed`; `decode_prior` is the decoder one level deeper.
handle : Read EpistemicStatus → Handler Vars
handle decode_prior s id len =
    if id == 1
    then (do x ← uvarint; recognized (record s { step = some x }))
    else if id == 2
    then (do x ← list read_part; recognized (record s { changed = x }))
    else if id == 3
    then (do x ← decode_prior; recognized (record s { prior = some x }))
    else declined s

unfoldable pub less_part : ChangedPart → ChangedPart → Bool
less_part a b = text_ltb (as_str a) (as_str b)

-- Where the prior status is a transform's too, its step is less.
unfoldable pub steps_fall : ℕ → EpistemicStatus → Bool
steps_fall step (transformed prior_step changed prior) = ltb prior_step step
steps_fall step s = true

pub decode_transformed : Read EpistemicStatus → Read EpistemicStatus
decode_transformed decode_prior = do
  s ← record_fields "EpistemicStatus::Transformed" (handle decode_prior) start
  step ← required s.step (non_canonical "EpistemicStatus::Transformed missing field 1 (step)")
  non_empty_list "EpistemicStatus::Transformed missing field 2 (changed), or it is empty" s.changed
  ensure (ascending less_part s.changed)
      (non_canonical "EpistemicStatus::Transformed.changed is not strictly ascending")
  prior ← required s.prior (non_canonical "EpistemicStatus::Transformed missing field 3 (prior)")
  ensure (steps_fall step prior)
      (non_canonical "EpistemicStatus::Transformed's prior step is not strictly less than its own")
  pure (transformed step s.changed prior)

pub by_variant : Read EpistemicStatus → ℕ → Read EpistemicStatus
by_variant on_transformed v =
    if v == 0
    then (do record_fields "EpistemicStatus::Stated" decline tt; pure stated)
    else if v == 1
    then (do d ← Derivation.decode; pure (derived d))
    else if v == 2
    then on_transformed
    else fail (Error.decode "unknown EpistemicStatus variant")

-- The argument is the number of levels that may still be entered, `MAX_TRANSFORMED_DEPTH - depth`.
pub decode_levels : ℕ → Read EpistemicStatus
decode_levels zero = do
  v ← uvarint
  by_variant (fail (non_canonical "EpistemicStatus::Transformed nests more priors deep")) v
decode_levels (suc levels) = do
  v ← uvarint
  by_variant (decode_transformed (decode_levels levels)) v

pub decode_at : ℕ → Read EpistemicStatus
decode_at depth = decode_levels (max_transformed_depth - depth)

-- Every call from outside is at depth 0.
pub decode : Read EpistemicStatus
decode = decode_at 0

-- How many transforms are nested.
unfoldable pub depth : EpistemicStatus → ℕ
depth (transformed step changed prior) = suc (depth prior)
depth s = 0

abbrev pub Steps : EpistemicStatus → Type 0
Steps stated = Unit
Steps (derived d) = Derivation.IsWf d
Steps (transformed step changed prior) =
    (step < 2 ^ 64)
    × (changed ≢ [])
    × (length changed < 2 ^ 64)
    × (ascending less_part changed ≡ true)
    × (steps_fall step prior ≡ true)
    × Steps prior

-- A chain of transforms whose steps fall, with a non-empty ascending list of parts at each, over a stated
-- or a well-formed derived status; the chain is at most 64 long.
pub record IsWf (s : EpistemicStatus) : Type 0 where
  pub steps : Steps s
  pub levels : depth s ≤ 64

parts-read :
    (cs : List ChangedPart) → All (λ c. Fits (part_item c) → Reads read_part (part_item c) c) cs
parts-read [] = tt
parts-read (c ∷ cs) = ((λ _. read_part-text_item c), parts-read cs)

decode_transformed-encode :
    (decode_prior : Read EpistemicStatus) (step : ℕ) (changed : List ChangedPart)
    (prior : EpistemicStatus)
    → Steps (transformed step changed prior)
    → (Fits (encode prior) → Reads decode_prior (encode prior) prior)
    → Fits (
        record_bytes (
          in_turn (
            field 1 true (uvarint_value step)
            ∷ field 2 true (list_value (map part_item changed))
            ∷ field 3 true (encode prior)
            ∷ [])))
    → Reads
        (decode_transformed decode_prior)
        (record_bytes (
          in_turn (
            field 1 true (uvarint_value step)
            ∷ field 2 true (list_value (map part_item changed))
            ∷ field 3 true (encode prior)
            ∷ [])))
        (transformed step changed prior)
unfolding decode_transformed handle
decode_transformed-encode decode_prior step changed prior (hstep, ne, hn, up, fall, hs) deeper
      fits =
    Reads-last (record_fields _ (handle decode_prior) start) _
      (record_fields-record_bytes _ (handle decode_prior)
        (Handles-field (handle decode_prior) 0 1 (uvarint_value step) (omega arith) (omega arith)
          (λ _. Reads-last uvarint _ (uvarint-uvarint_value step hstep) (Reads-pure _))
          (Handles-field (handle decode_prior) 2 2 (list_value (map part_item changed))
            (omega arith) (omega arith)
            (λ f.
              Reads-last (list read_part) _
                (list-list_value read_part part_item changed hn (parts-read changed) f)
                (Reads-pure _))
            (Handles-field (handle decode_prior) 3 3 (encode prior) (omega arith) (omega arith)
              (λ f. Reads-last decode_prior _ (deeper f) (Reads-pure _)) (done 4 _))))
        fits)
      (Reads-then (non_empty_list _ changed) _ (Reads-non_empty _ changed ne) (
        Reads-then (ensure (ascending less_part changed) _) _ (Reads-ensure _ _ up) (
          Reads-then (ensure (steps_fall step prior) _) _ (Reads-ensure _ _ fall)
            (Reads-pure (transformed step changed prior)))))

inner-Fits : (front bs : Bytes) → Fits (front ++ bs) → Fits bs
inner-Fits front bs h = omega (arith, length-append front bs)

derived-Reads :
    (d : Derivation) (on_transformed : Read EpistemicStatus)
    → Derivation.IsWf d
    → Fits (encode (derived d))
    → Reads (uvarint >>= by_variant on_transformed) (encode (derived d)) (derived d)
unfolding by_variant encode
derived-Reads d on_transformed h fits =
    Reads-bind uvarint _ (uvarint-uvarint_value 1 (omega arith)) (
      Reads-last Derivation.decode _
        (Derivation.decode-encode_derivation d h (inner-Fits (uvarint_value 1) _ fits))
        (Reads-pure (derived d)))

decode_levels-encode :
    (s : EpistemicStatus) (levels : ℕ)
    → Steps s
    → depth s ≤ levels
    → Fits (encode s)
    → Reads (decode_levels levels) (encode s) s
unfolding decode_levels by_variant encode depth
decode_levels-encode stated zero h d fits =
    Reads-plain 0 _ (omega arith) (Reads-empty _ (λ _. pure stated) (Reads-pure stated))
decode_levels-encode stated (suc n) h d fits =
    Reads-plain 0 _ (omega arith) (Reads-empty _ (λ _. pure stated) (Reads-pure stated))
decode_levels-encode (derived x) zero h d fits = derived-Reads x _ h fits
decode_levels-encode (derived x) (suc n) h d fits = derived-Reads x _ h fits
decode_levels-encode (transformed step changed prior) zero h d fits = absurd (omega arith)
decode_levels-encode (transformed step changed prior) (suc n) h d fits =
    Reads-bind uvarint _ (uvarint-uvarint_value 2 (omega arith)) (
      decode_transformed-encode (decode_levels n) step changed prior h
        (decode_levels-encode prior n h.5 (omega arith)) (inner-Fits (uvarint_value 2) _ fits))

-- Every well-formed status, with up to 64 nested transforms, is read back from what `encode` writes for it, if
-- that is shorter than 2 ^ 64 bytes; no byte more is taken.
pub decode-encode_epistemic_status :
    (s : EpistemicStatus) → IsWf s → Fits (encode s) → Reads decode (encode s) s
unfolding decode decode_at
decode-encode_epistemic_status s wf fits = decode_levels-encode s 64 wf.steps wf.levels fits
