-- ===== src/Ir/Canon/Unknown.antt =====
-- Records: what the driver does with a field whose id the handler does not know, or whose id is out of
-- order. Such a field is skipped or refused by its critical bit.
use brygge.Prelude.{ℕ, ◌+◌, ◌/◌, ◌%◌, ◌<◌, ◌≤◌, ◌^◌, ◌≡◌, refl, ap, ◌∙◌, arith, if◌then◌else◌}
use brygge.Prelude.{Bool, true, false, String, ◌++◌, append_assoc, leb, le→leb, ltb-false}
use brygge.Prelude.{Option, some, Bytes, length, length-append, drop-append, ok, err, ◌==◌, ==_refl}
use brygge.Prelude.Bits.{bit_or_above}
use brygge.Ir.Error.{non_canonical, unknown_critical_field}
use brygge.Ir.Canon.Writer.{uvarint_value, critical_bit, tag, field_bytes}
use brygge.Ir.Canon.Reader.{
  Reader, Read, and_then, ◌>>=◌, ◌>>◌, pure, uvarint, uvarint_len, remaining_at_least, position,
  settle, skip, Handler, id_ascends, field_step,
}
use brygge.Ir.Canon.Reads.{at, Reads}
use brygge.Ir.Canon.Varint.{uvarint-uvarint_value}
use brygge.Ir.Canon.Lists.{Fits}

tag_bits :
    (id : ℕ) (critical : Bool)
    → id < 2 ^ 63
    → (tag id critical < 2 ^ 64)
      × (tag id critical / 2 ≡ id)
      × (tag id critical % 2 ≡ critical_bit critical)
unfolding tag
tag_bits id true h = ground (arith, bit_or_above 1 1 id)
tag_bits id false h = ground (arith, bit_or_above 1 0 id)

-- The step behind one that reads `bs`.
after :
    {A B : Type 0} (m : Read A) (f : A → Read B) (bs cs : Bytes) (a : A)
    → Reads m bs a
    → (pos sk : ℕ) → (m >>= f) (at (bs ++ cs) pos sk) ≡ f a (at cs (pos + length bs) sk)
after m f bs cs a r pos sk = ap (and_then f) (r.run cs pos sk)

after_length :
    {B : Type 0} (f : ℕ → Read B) (value rest : Bytes)
    → Fits value
    → (pos sk : ℕ)
    → (uvarint_len >>= f) (at (uvarint_value (length value) ++ (value ++ rest)) pos sk)
      ≡ f (length value) (at (value ++ rest) (pos + length (uvarint_value (length value))) sk)
unfolding uvarint_len remaining_at_least
after_length f value rest fits pos sk =
    let there : leb (length value) (length (value ++ rest)) ≡ true =
      le→leb (length value) (length (value ++ rest)) (omega (arith, length-append value rest)) in
    let got : uvarint_len (at (uvarint_value (length value) ++ (value ++ rest)) pos sk)
        ≡ ok (length value, at (value ++ rest) (pos + length (uvarint_value (length value))) sk) =
      after uvarint _ (uvarint_value (length value)) (value ++ rest) (length value)
        (uvarint-uvarint_value (length value) fits) pos sk
      ∙ rw there refl in
    ap (and_then f) got

field_parts :
    (t : ℕ) (value rest : Bytes)
    → field_bytes (t, value) ++ rest
      ≡ uvarint_value t ++ (uvarint_value (length value) ++ (value ++ rest))
unfolding field_bytes
field_parts t value rest = simp append_assoc

field_length :
    (t : ℕ) (value : Bytes)
    → length (field_bytes (t, value))
      ≡ length (uvarint_value t) + length (uvarint_value (length value)) + length value
unfolding field_bytes
field_length t value = omega (
  arith,
  length-append (uvarint_value t) (uvarint_value (length value) ++ value),
  length-append (uvarint_value (length value)) value,
)

bit_set : (critical : Bool) → (critical_bit critical == 1) ≡ critical
bit_set true = refl
bit_set false = refl

module _ {S : Type 0} (name : String) (handle : Handler S) where
  -- A field whose id, below 2 ^ 63, is that of the last field read or is less than it is refused as non-canonical
  -- at its tag, whatever follows and whatever the handler is.
  pub field_step_order :
      (last : ℕ) (s : S) (id : ℕ) (critical : Bool) (rest : Bytes) (pos sk : ℕ)
      → id < 2 ^ 63
      → id ≤ last
      → field_step name handle (some last) s (at (uvarint_value (tag id critical) ++ rest) pos sk)
        ≡ err (non_canonical "field tags are not strictly ascending")
  unfolding field_step id_ascends
  field_step_order last s id critical rest pos sk small down =
      let bits = tag_bits id critical small in
      after uvarint _ (uvarint_value (tag id critical)) rest (tag id critical)
        (uvarint-uvarint_value (tag id critical) bits.0) pos sk
      ∙ rw (bits.1, ltb-false last id down) refl

  -- What `field_step` does behind the field's length.
  abbrev tail : ℕ → Bool → S → ℕ → Read (ℕ × S)
  tail id critical s len = do
    start ← position
    answer ← handle s id len
    settle name critical id start len answer.0
    pure (id, answer.1)

  settle_declined :
      (s : S) (id : ℕ) (critical : Bool) (value rest : Bytes) (pos sk : ℕ)
      → ((r : Reader) → handle s id (length value) r ≡ ok ((false, s), r))
      → tail id critical s (length value) (at (value ++ rest) pos sk) ≡ (
          if critical
          then err (unknown_critical_field name id)
          else ok ((id, s), at rest (pos + length value) (sk + 1)))
  unfolding position settle skip
  settle_declined s id true value rest pos sk d =
      rw (d (at (value ++ rest) pos sk), ==_refl pos) refl
  settle_declined s id false value rest pos sk d =
      rw (d (at (value ++ rest) pos sk), ==_refl pos, drop-append value rest) refl

  -- A field of ascending id below 2 ^ 63 that the handler declines without taking a byte ends the record with an
  -- error that names it where it is critical; else its value is passed over whole and it is counted as skipped.
  pub field_step_unknown :
      (last : Option ℕ) (s : S) (id : ℕ) (critical : Bool) (value rest : Bytes) (pos sk : ℕ)
      → id < 2 ^ 63
      → Fits value
      → id_ascends last id ≡ true
      → ((r : Reader) → handle s id (length value) r ≡ ok ((false, s), r))
      → field_step name handle last s (at (field_bytes (tag id critical, value) ++ rest) pos sk) ≡ (
          if critical
          then err (unknown_critical_field name id)
          else ok ((id, s), at rest (pos + length (field_bytes (tag id critical, value))) (sk + 1)))
  unfolding field_step
  field_step_unknown last s id critical value rest pos sk small fits up d =
      let bits = tag_bits id critical small in
      let len : Bytes = uvarint_value (length value) in
      let p : ℕ = pos + length (uvarint_value (tag id critical)) in
      ap (λ (x : Bytes). field_step name handle last s (at x pos sk))
        (field_parts (tag id critical) value rest)
      ∙ after uvarint _ (uvarint_value (tag id critical)) (len ++ (value ++ rest)) (tag id critical)
          (uvarint-uvarint_value (tag id critical) bits.0) pos sk
      ∙ rw (bits.1, bits.2, bit_set critical, up)
          (after_length (tail id critical s) value rest fits p sk
            ∙ settle_declined s id critical value rest (p + length len) sk d
            ∙ ap
                (λ (n : ℕ).
                  if critical
                  then err (unknown_critical_field name id)
                  else ok ((id, s), at rest n (sk + 1)))
                (omega (arith, field_length (tag id critical) value)))
