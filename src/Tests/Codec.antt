-- ===== src/Tests/Codec.antt =====
-- The codec: runs at fixed inputs, and its theorems at concrete ones.
use brygge.Prelude.{
  ℕ, ◌==◌, ◌<◌, ◌^◌, ◌≡◌, ◌≢◌, ◌+◌, ◌-◌, ◌*◌, ◌%◌, refl, arith, true, false, List, [], ◌∷◌, ◌++◌,
  map,
}
use brygge.Prelude.{Option, none, some, Bytes, length, ok, err, ltb→lt, if◌then◌else◌}
use brygge.Prelude.Utf8.{is_utf8, text_ltb, codes}
use brygge.Ir.Error.{non_canonical, unknown_critical_field}
use brygge.Ir.Canon.Writer.{
  uvarint_value, put_uvarint, zigzag, svarint_value, tag, field, field_bytes, fields_bytes,
  record_bytes, list_value, concat, map_value, entries_bytes, entry_bytes,
}
use brygge.Ir.Canon.Reader.{
  Handler, ◌>>=◌, recognized, declined, uvarint, uvarint_loop, read_map, record_fields, field_step,
  id_ascends, ascends,
}
use brygge.Ir.Canon.Reads.{Reads, Reads-last, Reads-pure, at}
use brygge.Ir.Canon.Varint
use brygge.Ir.Canon.Minimal
use brygge.Ir.Canon.Minimal.{nine_zeros}
use brygge.Ir.Canon.Zigzag
use brygge.Ir.Canon.Zigzag.{svarint}
use brygge.Ir.Canon.Lists
use brygge.Ir.Canon.Records
use brygge.Ir.Canon.Records.{Handles}
use brygge.Ir.Canon.Unknown
use brygge.Ir.Version
use brygge.Ir.Status.EpistemicStatus
use brygge.Ir.Model.PathOp
use brygge.Tests.Sample.{zeros, small_ir, constant_hash}
use brygge.Tests.WellFormed.{some_holds, metadata-IsWf, metadata-Fits}
use brygge.Ir.Model.Metadata.RoundTrip

-- 300 takes two bytes, and its encoding with a third is refused.
two_bytes : uvarint_value 300 ≡ 0xac ∷ 0x02 ∷ []
unfolding uvarint_value put_uvarint
two_bytes = refl

overlong : uvarint_loop (0x80 ∷ 0x00 ∷ []) 0 0 0 ≡ err (non_canonical "overlong varint")
unfolding uvarint_loop
overlong = refl

minus_one : zigzag (2 ^ 64 - 1) ≡ 1
unfolding zigzag
minus_one = refl

uvarint-uvarint_value_example : Reads uvarint (uvarint_value 300) 300
uvarint-uvarint_value_example = Varint.uvarint-uvarint_value 300 (omega arith)

taken : uvarint_loop (0xac ∷ 0x02 ∷ 9 ∷ []) 0 0 0 ≡ ok (300, 9 ∷ [], 2)
unfolding uvarint_loop
taken = refl

uvarint_minimal_example : 0xac ∷ 0x02 ∷ 9 ∷ [] ≡ uvarint_value 300 ++ (9 ∷ [])
uvarint_minimal_example =
    Minimal.uvarint_minimal (0xac ∷ 0x02 ∷ 9 ∷ []) 300 (9 ∷ []) 2
      (omega arith, (omega arith, (omega arith, tt))) taken (omega arith)

uvarint_tenth_byte_example :
    (uvarint_loop (nine_zeros (2 ∷ [])) 0 0 0 ≡ ok (2 % 2 * 2 ^ 63, [], 10))
    × (uvarint_value (2 % 2 * 2 ^ 63) ≢ nine_zeros (2 ∷ []))
uvarint_tenth_byte_example = Minimal.uvarint_tenth_byte 2 (omega arith) (omega arith)

svarint-svarint_value_example : Reads svarint (svarint_value (2 ^ 64 - 1)) (2 ^ 64 - 1)
svarint-svarint_value_example = Zigzag.svarint-svarint_value (2 ^ 64 - 1) (omega arith)

abbrev two_numbers : List ℕ
two_numbers = 300 ∷ 7 ∷ []

numbers-Fits : Lists.Fits (list_value (map uvarint_value two_numbers))
unfolding list_value concat uvarint_value put_uvarint
numbers-Fits = ltb→lt (length (list_value (map uvarint_value two_numbers))) (2 ^ 64) refl

abbrev two_entries : List (Bytes × Bytes)
two_entries = (codes "a", codes "x") ∷ (codes "b", []) ∷ []

Entries-ascend : Lists.Entries none two_entries
unfolding ascends is_utf8 text_ltb
Entries-ascend = (refl, refl, refl, (refl, refl, refl, tt))

entries-Fits : Lists.Fits (map_value two_entries)
unfolding map_value entries_bytes entry_bytes uvarint_value put_uvarint
entries-Fits = ltb→lt (length (map_value two_entries)) (2 ^ 64) refl

read_map-map_value_example : Reads read_map (map_value two_entries) two_entries
read_map-map_value_example =
    Lists.read_map-map_value two_entries (omega arith) Entries-ascend entries-Fits

-- A record of one number, field 3.
number_handle : Handler (Option ℕ)
number_handle s id len = if id == 3 then (do x ← uvarint; recognized (some x)) else declined s

number_handled : Handles number_handle 0 none ((tag 3 true, uvarint_value 300) ∷ []) (some 300)
unfolding number_handle
number_handled =
    Records.more 3 (omega arith) (omega arith)
      (λ _. Reads-last uvarint _ (Varint.uvarint-uvarint_value 300 (omega arith)) (Reads-pure _))
      (Records.done 4 (some 300))

record-Fits : Lists.Fits (record_bytes ((tag 3 true, uvarint_value 300) ∷ []))
unfolding record_bytes fields_bytes field_bytes tag uvarint_value put_uvarint
record-Fits = ltb→lt (length (record_bytes ((tag 3 true, uvarint_value 300) ∷ []))) (2 ^ 64) refl

record_fields-record_bytes_example :
    Reads
      (record_fields "Number" number_handle none)
      (record_bytes ((tag 3 true, uvarint_value 300) ∷ []))
      (some 300)
record_fields-record_bytes_example =
    Records.record_fields-record_bytes "Number" number_handle number_handled record-Fits

field_step_unknown_example :
    field_step "Number" number_handle
      (some 3)
      none
      (at (field_bytes (tag 4 false, 8 ∷ 9 ∷ []) ++ (1 ∷ [])) 5 0)
    ≡ (if false
        then err (unknown_critical_field "Number" 4)
        else ok
            ((4, none), at (1 ∷ []) (5 + length (field_bytes (tag 4 false, 8 ∷ 9 ∷ []))) (0 + 1)))
field_step_unknown_example =
    Unknown.field_step_unknown "Number" number_handle (some 3) none 4 false (8 ∷ 9 ∷ []) (1 ∷ []) 5
      0 (omega arith) (omega arith) (unfold id_ascends in refl) (λ r. unfold number_handle in refl)

field_step_order_example :
    field_step "Number" number_handle
      (some 3)
      none
      (at (uvarint_value (tag 3 true) ++ (1 ∷ [])) 5 0)
    ≡ err (non_canonical "field tags are not strictly ascending")
field_step_order_example =
    Unknown.field_step_order "Number" number_handle 3 none 3 true (1 ∷ []) 5 0 (omega arith)
      (omega arith)

deletion-Fits : Lists.Fits (
    uvarint_value 2
    ++ PathOp.fields_of (codes "a") (some (zeros 32)) (some 420) EpistemicStatus.stated)
unfolding PathOp.fields_of EpistemicStatus.encode record_bytes fields_bytes field_bytes field tag
    uvarint_value put_uvarint
deletion-Fits =
    ltb→lt
      (length (
        uvarint_value 2
        ++ PathOp.fields_of (codes "a") (some (zeros 32)) (some 420) EpistemicStatus.stated))
      (2 ^ 64) refl

deletion-IsWf : PathOp.IsWfParts (codes "a") (some (zeros 32)) (some 420) EpistemicStatus.stated
unfolding is_utf8 EpistemicStatus.depth
deletion-IsWf = (
  refl,
  (λ b q. some_holds (λ b. length b ≡ 32) refl b q),
  (λ m q. some_holds (λ m. m < 2 ^ 32) (omega arith) m q),
  record { steps = tt; levels = omega arith },
)

decode_delete_extra_example :
    Reads PathOp.decode
      (uvarint_value 2
        ++ PathOp.fields_of (codes "a") (some (zeros 32)) (some 420) EpistemicStatus.stated)
      (PathOp.delete (codes "a") EpistemicStatus.stated)
    × (length (PathOp.encode (PathOp.delete (codes "a") EpistemicStatus.stated))
        < length (
            uvarint_value 2
            ++ PathOp.fields_of (codes "a") (some (zeros 32)) (some 420) EpistemicStatus.stated))
decode_delete_extra_example =
    PathOp.decode_delete_extra (codes "a") (zeros 32) 420 EpistemicStatus.stated deletion-IsWf
      deletion-Fits

abbrev one_two : Bytes
one_two = 1 ∷ 2 ∷ []

encode_metadata_prefix_free_example : (small_ir ≡ small_ir) × (one_two ≡ one_two)
encode_metadata_prefix_free_example =
    RoundTrip.encode_metadata_prefix_free constant_hash small_ir small_ir one_two one_two
      metadata-IsWf metadata-IsWf metadata-Fits metadata-Fits refl
