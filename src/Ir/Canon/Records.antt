-- ===== src/Ir/Canon/Records.antt =====
-- Records: fields written in ascending order are read back through a handler that reads each of them.
use brygge.Prelude.{ℕ, suc, ◌+◌, ◌*◌, ◌/◌, ◌%◌, ◌≤◌, ◌<◌, ◌^◌, ◌≡◌, ◌≢◌, refl, ap, ◌∙◌, arith}
use brygge.Prelude.{Bool, true, String, List, [], ◌∷◌, ◌++◌}
use brygge.Prelude.{Option, none, some, Bytes, length, length-append, ◌==◌, ==_refl, lt→ltb}
use brygge.Prelude.Bits.{bit_or_above}
use brygge.Ir.Canon.Writer.{
  uvarint_value, Fields, tag, field, optional, unless_empty, field_bytes, fields_bytes,
  record_bytes,
}
use brygge.Ir.Canon.Reader.{
  and_then, ◌>>=◌, ◌>>◌, pure, ensure, uvarint, position, settle, Handler, id_ascends, field_step,
  fields_loop, record_fields,
}
use brygge.Ir.Canon.Reads.{Reads, Reads-bind, Reads-then, Reads-pure, Reads-ensure}
use brygge.Ir.Canon.Varint.{uvarint-uvarint_value, uvarint_value-nonempty}
use brygge.Ir.Canon.Lists.{Fits, Reads-uvarint_len}

-- From the state `s` the handler reads the fields in turn and ends in the state `t`; the ids ascend
-- from `lo` on, and every field is critical.
pub data Handles {S : Type 0} (handle : Handler S) : ℕ → S → Fields → S → Type 0 where
  done : (lo : ℕ) (s : S) → Handles handle lo s [] s
  more :
      {lo : ℕ} {s t u : S} {value : Bytes} {fs : Fields} (id : ℕ)
      → lo ≤ id
      → id < 2 ^ 63
      → (Fits value → Reads (handle s id (length value)) value (true, t))
      → Handles handle (suc id) t fs u
      → Handles handle lo s ((tag id true, value) ∷ fs) u

tag_lem : (id : ℕ) → id < 2 ^ 63 → tag id true ≡ 2 * id + 1
unfolding tag
tag_lem id h = ground (arith, bit_or_above 1 1 id)

abbrev Below : Option ℕ → ℕ → Type 0
Below none lo = Unit
Below (some last) lo = last < lo

Below-id_ascends :
    (last : Option ℕ) (lo id : ℕ) → Below last lo → lo ≤ id → id_ascends last id ≡ true
unfolding id_ascends
Below-id_ascends none lo id b h = refl
Below-id_ascends (some l) lo id b h = lt→ltb l id (omega arith)

value-le-field_bytes : (t : ℕ) (value : Bytes) → length value ≤ length (field_bytes (t, value))
unfolding field_bytes
value-le-field_bytes t value = omega (
  arith,
  length-append (uvarint_value t) (uvarint_value (length value) ++ value),
  length-append (uvarint_value (length value)) value,
)

length-le-fields_bytes : (fs : Fields) → length fs ≤ length (fields_bytes fs)
unfolding fields_bytes field_bytes
length-le-fields_bytes [] = omega arith
length-le-fields_bytes ((t, value) ∷ fs) = omega (
  arith,
  length-le-fields_bytes fs,
  uvarint_value-nonempty t,
  length-append (uvarint_value t ++ (uvarint_value (length value) ++ value)) (fields_bytes fs),
  length-append (uvarint_value t) (uvarint_value (length value) ++ value),
)

module _ {S : Type 0} (name : String) (handle : Handler S) where
  -- A recognised field that took exactly its declared length.
  settled :
      (s t : S) (id : ℕ) (critical : Bool) (value : Bytes)
      → Reads (handle s id (length value)) value (true, t)
      → Reads {A = ℕ × S}
          (position >>= λ start. handle s id (length value) >>= λ answer.
            settle name critical id start (length value) answer.0 >> pure (id, answer.1))
          value
          (id, t)
  unfolding position settle
  settled s t id critical value r = record {
    run = λ rest pos sk.
        ap
          (and_then
            λ answer. settle name critical id pos (length value) answer.0 >> pure (id, answer.1))
          (r.run rest pos sk)
        ∙ rw (==_refl (pos + length value)) refl;
  }

  field_step-field :
      (last : Option ℕ) (s t : S) (lo id : ℕ) (value : Bytes)
      → Below last lo
      → lo ≤ id
      → id < 2 ^ 63
      → Fits value
      → Reads (handle s id (length value)) value (true, t)
      → Reads (field_step name handle last s) (field_bytes (tag id true, value)) (id, t)
  unfolding field_step field_bytes
  field_step-field last s t lo id value below up small fits r =
      let e : tag id true ≡ 2 * id + 1 = tag_lem id small in
      let half : tag id true / 2 ≡ id = omega arith in
      Reads-bind uvarint _ (uvarint-uvarint_value (tag id true) (omega arith)) (
        rw half (
          Reads-then (ensure (id_ascends last id) _) _
            (Reads-ensure _ _ (Below-id_ascends last lo id below up))
            (Reads-uvarint_len _ fits (omega arith)
              (settled s t id (tag id true % 2 == 1) value r))))

  fields_loop-fields_bytes :
      (last : Option ℕ) {lo : ℕ} {s u : S} {fs : Fields}
      → Below last lo
      → Handles handle lo s fs u
      → Fits (fields_bytes fs)
      → Reads (fields_loop name handle (length fs) last s) (fields_bytes fs) u
  unfolding fields_loop fields_bytes
  fields_loop-fields_bytes last b (done lo s) fits = Reads-pure s
  fields_loop-fields_bytes last {lo} {s} {u} b
        (more {t = t} {value = value} {fs = fs} id up small r hs) fits =
      let total : length (field_bytes (tag id true, value) ++ fields_bytes fs)
          ≡ length (field_bytes (tag id true, value)) + length (fields_bytes fs) =
        length-append (field_bytes (tag id true, value)) (fields_bytes fs) in
      let inside : length value ≤ length (field_bytes (tag id true, value)) =
        value-le-field_bytes (tag id true) value in
      Reads-bind (field_step name handle last s) _
        (field_step-field last s t lo id value b up small (omega arith) (r (omega arith)))
        (fields_loop-fields_bytes (some id) (omega arith) hs (omega arith))

  -- Where a handler reads fields of ascending ids one by one from a state to another, `record_fields` reads the
  -- framed record of those fields from the one state to the other, if the record is shorter than 2 ^ 64 bytes.
  pub record_fields-record_bytes :
      {s u : S} {fs : Fields}
      → Handles handle 0 s fs u
      → Fits (record_bytes fs)
      → Reads (record_fields name handle s) (record_bytes fs) u
  unfolding record_fields record_bytes
  record_fields-record_bytes {s} {u} {fs} hs fits =
      let total : length (uvarint_value (length fs) ++ fields_bytes fs)
          ≡ length (uvarint_value (length fs)) + length (fields_bytes fs) =
        length-append (uvarint_value (length fs)) (fields_bytes fs) in
      Reads-bind uvarint _
        (uvarint-uvarint_value (length fs) (omega (arith, length-le-fields_bytes fs)))
        (fields_loop-fields_bytes none tt hs (omega arith))

-- Building `Handles` along an encoder: one field, and a field that may be left out.
module _ {S : Type 0} (handle : Handler S) where
  pub Handles-field :
      {s t u : S} {fs : Fields} (lo id : ℕ) (value : Bytes)
      → lo ≤ id
      → id < 2 ^ 63
      → (Fits value → Reads (handle s id (length value)) value (true, t))
      → Handles handle (suc id) t fs u
      → Handles handle lo s (field id true value ++ fs) u
  unfolding field
  Handles-field lo id value up small r hs = more id up small r hs

  pub Handles-weaken :
      {s u : S} {fs : Fields} {hi : ℕ} (lo : ℕ)
      → lo ≤ hi
      → Handles handle hi s fs u
      → Handles handle lo s fs u
  Handles-weaken lo h (done _ s) = done lo s
  Handles-weaken lo h (more id up small r hs) = more id (omega arith) small r hs

  pub Handles-optional :
      {A : Type 0} {u : S} {fs : Fields} (lo id : ℕ) (o : Option A) (enc : A → Bytes)
      (at_state : Option A → S)
      → lo ≤ id
      → id < 2 ^ 63
      → ((a : A)
          → o ≡ some a
          → Fits (enc a)
          → Reads (handle (at_state none) id (length (enc a))) (enc a) (true, at_state (some a)))
      → Handles handle (suc id) (at_state o) fs u
      → Handles handle lo (at_state none) (optional (λ a. field id true (enc a)) o ++ fs) u
  Handles-optional lo id none enc at_state up small r hs = Handles-weaken lo (omega arith) hs
  Handles-optional lo id (some a) enc at_state up small r hs =
      Handles-field lo id (enc a) up small (r a refl) hs

  -- A list that is left out when it is empty.
  pub Handles-list :
      {A : Type 0} {u : S} {fs : Fields} (lo id : ℕ) (xs : List A) (enc : List A → Bytes)
      (at_state : List A → S)
      → lo ≤ id
      → id < 2 ^ 63
      → (xs ≢ []
          → Fits (enc xs)
          → Reads (handle (at_state []) id (length (enc xs))) (enc xs) (true, at_state xs))
      → Handles handle (suc id) (at_state xs) fs u
      → Handles handle lo (at_state []) (unless_empty (λ ys. field id true (enc ys)) xs ++ fs) u
  Handles-list lo id [] enc at_state up small r hs = Handles-weaken lo (omega arith) hs
  Handles-list lo id (x ∷ xs) enc at_state up small r hs =
      Handles-field lo id (enc (x ∷ xs)) up small (r (λ e. cc)) hs
