-- ===== src/Ir/Canon/Reader.antt =====
-- crates/brygge-ir/src/canon.rs: the reading half of the canonical codec. A reader is the part of its
-- slice that is not yet consumed, with the count of the bytes consumed; a slice is shorter than 2 ^ 64,
-- on a platform with a 64-bit usize. `?` is the bind of `Read`: a reader is not used after an error.
use brygge.Prelude.{ℕ, zero, suc, ◌+◌, ◌*◌, ◌/◌, ◌%◌, ◌^◌, bit_and, bit_or, String}
use brygge.Prelude.{Bool, true, false, ◌&&◌, not, List, [], ◌∷◌, Option, none, some, Bytes, length}
use brygge.Prelude.{ltb, leb, ◌==◌, if◌then◌else◌, Result, ok, err}
use brygge.Prelude.{take as list_take, drop as list_drop}
use brygge.Prelude.Utf8.{is_utf8, text_ltb}
use brygge.Ir.Error.{Error, decode, non_canonical, unknown_critical_field}

pub record Reader : Type 0 where
  pub rest : Bytes
  pub pos : ℕ
  pub skipped : ℕ

abbrev pub start_of : Bytes → Reader
start_of buf = record { rest = buf; pos = 0; skipped = 0 }

abbrev pub Read : Type 0 → Type 0
Read A = Reader → Result Error (A × Reader)

abbrev pub and_then :
    {A B : Type 0} → (A → Read B) → Result Error (A × Reader) → Result Error (B × Reader)
and_then f (ok (a, r)) = f a r
and_then f (err e) = err e

infixl 5 ◌>>=◌ ◌>>◌
abbrev pub ◌>>=◌ : {A B : Type 0} → Read A → (A → Read B) → Read B
◌>>=◌ m f r = and_then f (m r)

abbrev pub ◌>>◌ : {B : Type 0} → Read (Unit {0}) → Read B → Read B
m >> k = m >>= λ _. k

abbrev pub pure : {A : Type 0} → A → Read A
pure a r = ok (a, r)

abbrev pub fail : {A : Type 0} → Error → Read A
fail e r = err e

-- `Err(e)` unless the test holds
abbrev pub ensure : Bool → Error → Read (Unit {0})
ensure true e r = ok (tt, r)
ensure false e r = err e

-- `field.ok_or_else(...)?`
abbrev pub required : {A : Type 0} → Option A → Error → Read A
required (some a) e r = ok (a, r)
required none e r = err e

-- A slice has `n` bytes left or it has not; where `pos + n` overflows it has not, so that test, which
-- only chooses the message, comes second here.
unfoldable pub take : ℕ → Read Bytes
take n r =
    if leb n (length r.rest)
    then ok (list_take n r.rest, record r { rest = list_drop n r.rest; pos = r.pos + n })
    else if leb (2 ^ 64) (r.pos + n)
    then err (decode "length overflow")
    else err (decode "unexpected end of input")

-- The loop takes a byte a round by `u8`, and returns what is left with the number of bytes taken. In a
-- round below shift 64 `checked_shl` has a value, which keeps the low 64 bits.
unfoldable pub uvarint_loop : Bytes → ℕ → ℕ → ℕ → Result Error (ℕ × Bytes × ℕ)
uvarint_loop [] result shift nbytes = err (decode "unexpected end of input")
uvarint_loop (byte ∷ rest) result shift nbytes =
    let result' = bit_or result (bit_and byte 0x7f * 2 ^ shift % 2 ^ 64) in
    let more = uvarint_loop rest result' (shift + 7) (nbytes + 1) in
    if leb 64 shift
    then err (decode "varint too long")
    else if bit_and byte 0x80 == 0
    then (if byte == 0 && ltb 1 (nbytes + 1)
        then err (non_canonical "overlong varint")
        else ok (result', rest, nbytes + 1))
    else more

unfoldable pub advance : Reader → Result Error (ℕ × Bytes × ℕ) → Result Error (ℕ × Reader)
advance r (ok (v, rest, nbytes)) = ok (v, record r { rest = rest; pos = r.pos + nbytes })
advance r (err e) = err e

unfoldable pub uvarint : Read ℕ
unfolding advance
uvarint r = advance r (uvarint_loop r.rest 0 0 0)

unfoldable pub raw : ℕ → Read Bytes
raw n r = if ltb (length r.rest) n then err (decode "declared length exceeds input") else take n r

unfoldable pub raw32 : Read Bytes
raw32 = take 32

unfoldable pub list_items : {A : Type 0} → ℕ → Read A → Read (List A)
list_items zero item = pure []
list_items (suc n) item = do a ← item; rest ← list_items n item; pure (a ∷ rest)

unfoldable pub list : {A : Type 0} → Read A → Read (List A)
list item = do n ← uvarint; list_items n item

unfoldable pub remaining_at_least : ℕ → Read (Unit {0})
remaining_at_least len r =
    ensure (leb len (length r.rest)) (decode "declared length exceeds input") r

unfoldable pub uvarint_len : Read ℕ
unfolding remaining_at_least
uvarint_len = do len ← uvarint; remaining_at_least len; pure len

unfoldable pub text : ℕ → Read Bytes
text len = do b ← raw len; ensure (is_utf8 b) (decode "invalid UTF-8"); pure b

unfoldable pub bytes_exact : ℕ → Read Bytes
bytes_exact = raw

-- `last_key.is_some_and(|last| key <= last)` fails
unfoldable pub ascends : Option Bytes → Bytes → Bool
ascends none key = true
ascends (some last) key = text_ltb last key

-- The keys ascend, so the entries of the map are in the order of their insertion.
unfoldable pub map_entries : ℕ → Option Bytes → Read (List (Bytes × Bytes))
map_entries zero last_key = pure []
map_entries (suc n) last_key = do
  klen ← uvarint_len
  key ← text klen
  vlen ← uvarint_len
  value ← text vlen
  ensure (ascends last_key key) (non_canonical "map keys are not strictly ascending")
  rest ← map_entries n (some key)
  pure ((key, value) ∷ rest)

unfoldable pub read_map : Read (List (Bytes × Bytes))
read_map = do n ← uvarint; map_entries n none

unfoldable pub position : Read ℕ
position r = ok (r.pos, r)

-- `self.pos = end`, for a field that was not consumed
unfoldable pub skip : ℕ → Read (Unit {0})
skip len r =
    ok (tt, record r { rest = list_drop len r.rest; pos = r.pos + len; skipped = r.skipped + 1 })

-- `last_id.is_some_and(|last| id <= last)` fails
unfoldable pub id_ascends : Option ℕ → ℕ → Bool
id_ascends none id = true
id_ascends (some last) id = ltb last id

-- What a field's handler answers: whether it took the field, and the variables it has set so far.
abbrev pub Handler : Type 0 → Type 0
Handler S = S → ℕ → ℕ → Read (Bool × S)

abbrev pub recognized : {S : Type 0} → S → Read (Bool × S)
recognized s = pure (true, s)

abbrev pub declined : {S : Type 0} → S → Read (Bool × S)
declined s = pure (false, s)

-- The checks behind the handler's call, for a field that began at `start`.
unfoldable pub settle : String → Bool → ℕ → ℕ → ℕ → Bool → Read (Unit {0})
settle name critical id start len true = do
  here ← position
  ensure (here == start + len) (non_canonical "field value length mismatch")
settle name critical id start len false = do
  here ← position
  ensure (here == start) (non_canonical "field was not consumed cleanly")
  ensure (not critical) (unknown_critical_field name id)
  skip len

unfoldable pub field_step : {S : Type 0} → String → Handler S → Option ℕ → S → Read (ℕ × S)
field_step name handle last_id s = do
  raw_tag ← uvarint
  ensure (id_ascends last_id (raw_tag / 2)) (non_canonical "field tags are not strictly ascending")
  len ← uvarint_len
  start ← position
  answer ← handle s (raw_tag / 2) len
  settle name (raw_tag % 2 == 1) (raw_tag / 2) start len answer.0
  pure (raw_tag / 2, answer.1)

unfoldable pub fields_loop : {S : Type 0} → String → Handler S → ℕ → Option ℕ → S → Read S
fields_loop name handle zero last_id s = pure s
fields_loop name handle (suc n) last_id s = do
  next ← field_step name handle last_id s
  fields_loop name handle n (some next.0) next.1

unfoldable pub record_fields : {S : Type 0} → String → Handler S → S → Read S
record_fields name handle s = do n ← uvarint; fields_loop name handle n none s
