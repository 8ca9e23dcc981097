-- ===== src/Ir/Canon/Writer.antt =====
-- crates/brygge-ir/src/canon.rs: the writing half of the canonical codec. A writer is the list of the
-- bytes it has written, and what an operation appends is a list.
use brygge.Prelude.{ℕ, zero, suc, ◌-◌, ◌*◌, ◌/◌, ◌%◌, ◌^◌, bit_and, bit_or, bit_xor}
use brygge.Prelude.{
  Bool, true, false, Option, none, some, List, [], ◌∷◌, ◌++◌, Bytes, length, ltb, ◌==◌,
  if◌then◌else◌,
}

-- CanonWriter::uvarint: seven bits a byte, lowest first, the top bit on every byte but the last. The
-- loop of a u64 takes ten rounds at most.
unfoldable pub put_uvarint : ℕ → ℕ → Bytes
put_uvarint zero v = []
put_uvarint (suc f) v =
    let byte = bit_and v 0x7f in
    let rest = put_uvarint f (v / 128) in
    if v / 128 == 0 then byte ∷ [] else bit_or byte 0x80 ∷ rest

unfoldable pub uvarint_value : ℕ → Bytes
unfolding put_uvarint
uvarint_value v = put_uvarint 10 v

-- An i64 is its two's complement bit pattern: `v << 1` drops the sign, and `v >> 63` copies it.
unfoldable pub zigzag : ℕ → ℕ
zigzag v = bit_xor (v * 2 % 2 ^ 64) (if ltb v (2 ^ 63) then 0 else 2 ^ 64 - 1)

unfoldable pub unzigzag : ℕ → ℕ
unzigzag v = bit_xor (v / 2) (if bit_and v 1 == 0 then 0 else 2 ^ 64 - 1)

unfoldable pub svarint_value : ℕ → Bytes
svarint_value v = uvarint_value (zigzag v)

-- RecordWriter: the fields added so far, each as its tag and its value.
abbrev pub Fields : Type 0
Fields = List (ℕ × Bytes)

abbrev pub critical_bit : Bool → ℕ
critical_bit true = 1
critical_bit false = 0

-- `tag = (id << 1) | critical`, on a u64
unfoldable pub tag : ℕ → Bool → ℕ
tag id critical = bit_or (critical_bit critical) (id * 2 % 2 ^ 64)

unfoldable pub field : ℕ → Bool → Bytes → Fields
field id critical value = (tag id critical, value) ∷ []

-- The calls of `RecordWriter::field` in an encoder, in turn; `if let Some(x)` and `if !xs.is_empty()`.
abbrev pub in_turn : List Fields → Fields
in_turn [] = []
in_turn (fs ∷ rest) = fs ++ in_turn rest

abbrev pub optional : {A : Type 0} → (A → Fields) → Option A → Fields
optional f none = []
optional f (some a) = f a

abbrev pub unless_empty : {A : Type 0} → (List A → Fields) → List A → Fields
unless_empty f [] = []
unless_empty f (x ∷ xs) = f (x ∷ xs)

unfoldable pub field_bytes : ℕ × Bytes → Bytes
field_bytes (t, value) = uvarint_value t ++ (uvarint_value (length value) ++ value)

unfoldable pub fields_bytes : Fields → Bytes
fields_bytes [] = []
fields_bytes (f ∷ fs) = field_bytes f ++ fields_bytes fs

-- RecordWriter::finish_into and into_bytes
unfoldable pub record_bytes : Fields → Bytes
record_bytes fs = uvarint_value (length fs) ++ fields_bytes fs

unfoldable pub concat : List Bytes → Bytes
concat [] = []
concat (b ∷ bs) = b ++ concat bs

unfoldable pub list_value : List Bytes → Bytes
list_value items = uvarint_value (length items) ++ concat items

unfoldable pub entry_bytes : Bytes × Bytes → Bytes
entry_bytes (k, v) = uvarint_value (length k) ++ (k ++ (uvarint_value (length v) ++ v))

unfoldable pub entries_bytes : List (Bytes × Bytes) → Bytes
entries_bytes [] = []
entries_bytes (e ∷ es) = entry_bytes e ++ entries_bytes es

unfoldable pub map_value : List (Bytes × Bytes) → Bytes
map_value es = uvarint_value (length es) ++ entries_bytes es
