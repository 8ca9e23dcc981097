-- ===== src/Ir/Model/Time.antt =====
-- model.rs: `Time`, seconds since the epoch with the offset that the source gave. An i64 and an i16
-- are their two's complement bit patterns.
use brygge.Prelude.{ℕ, ◌+◌, ◌<◌, ◌^◌, ◌≡◌, true, arith, ◌==◌, ltb, leb, if◌then◌else◌}
use brygge.Prelude.{[], ◌∷◌, Option, none, some, Bytes}
use brygge.Ir.Error.{non_canonical}
use brygge.Ir.Canon.Writer.{field, in_turn, optional, record_bytes, svarint_value}
use brygge.Ir.Canon.Reader.{
  Read, Handler, ◌>>=◌, pure, required, recognized, declined, record_fields,
}
use brygge.Ir.Canon.Zigzag.{svarint, svarint-svarint_value}
use brygge.Ir.Canon.Reads.{Reads, Reads-last, Reads-pure}
use brygge.Ir.Canon.Lists.{Fits}
use brygge.Ir.Canon.Records.{done, Handles-field, Handles-optional, record_fields-record_bytes}
use brygge.Prelude.{◌-◌}

pub record Time : Type 0 where
  pub seconds : ℕ
  pub offset_minutes : Option ℕ

-- `i64::from(i16)`, and `i16::try_from(i64)`
unfoldable pub i64_of_i16 : ℕ → ℕ
i64_of_i16 x = if ltb x (2 ^ 15) then x else x + (2 ^ 64 - 2 ^ 16)

unfoldable pub i16_of_i64 : ℕ → Option ℕ
i16_of_i64 v =
    if ltb v (2 ^ 15)
    then some v
    else if leb (2 ^ 64 - 2 ^ 15) v
    then some (v - (2 ^ 64 - 2 ^ 16))
    else none

i16_of_i64-i64_of_i16 : (x : ℕ) → x < 2 ^ 16 → i16_of_i64 (i64_of_i16 x) ≡ some x
unfolding i16_of_i64 i64_of_i16
i16_of_i64-i64_of_i16 x h = ground arith

i64_of_i16-lt : (x : ℕ) → x < 2 ^ 16 → i64_of_i16 x < 2 ^ 64
unfolding i64_of_i16
i64_of_i16-lt x h = ground arith

-- The value of field 2.
unfoldable pub read_offset : Read ℕ
read_offset = do
  v ← svarint
  required (i16_of_i64 v) (non_canonical "Time.offset_minutes does not fit i16")

read_offset_lem : (x : ℕ) → x < 2 ^ 16 → Reads read_offset (svarint_value (i64_of_i16 x)) x
unfolding read_offset
read_offset_lem x h =
    Reads-last svarint _ (svarint-svarint_value (i64_of_i16 x) (i64_of_i16-lt x h))
      (rw (i16_of_i64-i64_of_i16 x h) (Reads-pure x))

unfoldable pub encode : Time → Bytes
encode t = record_bytes (
    in_turn (
      field 1 true (svarint_value t.seconds)
      ∷ optional (λ x. field 2 true (svarint_value (i64_of_i16 x))) t.offset_minutes
      ∷ []))

record Vars : Type 0 where
  seconds : Option ℕ
  offset_minutes : Option ℕ

handle : Handler Vars
handle s id len =
    if id == 1
    then (do x ← svarint; recognized (record s { seconds = some x }))
    else if id == 2
    then (do x ← read_offset; recognized (record s { offset_minutes = some x }))
    else declined s

abbrev start : Vars
start = record { seconds = none; offset_minutes = none }

unfoldable pub decode : Read Time
unfolding handle
decode = do
  s ← record_fields "Time" handle start
  seconds ← required s.seconds (non_canonical "Time missing field 1 (seconds)")
  pure (record { seconds = seconds; offset_minutes = s.offset_minutes })

-- The patterns are of 64 and of 16 bits.
pub record IsWf (t : Time) : Type 0 where
  pub seconds : t.seconds < 2 ^ 64
  pub offset_minutes : (x : ℕ) → t.offset_minutes ≡ some x → x < 2 ^ 16

-- Every well-formed time is read back from what `encode` writes for it, if that is shorter than 2 ^ 64 bytes; no
-- byte more is taken.
pub decode-encode_time : (t : Time) → IsWf t → Fits (encode t) → Reads decode (encode t) t
unfolding decode encode
decode-encode_time t wf fits =
    Reads-last (record_fields "Time" handle start) _
      (record_fields-record_bytes "Time" handle
        (Handles-field handle 0 1 (svarint_value t.seconds) (omega arith) (omega arith)
          (λ _. Reads-last svarint _ (svarint-svarint_value t.seconds wf.seconds) (Reads-pure _))
          (Handles-optional handle 2 2 t.offset_minutes (λ x. svarint_value (i64_of_i16 x))
            (λ x. record { seconds = some t.seconds; offset_minutes = x }) (omega arith)
            (omega arith)
            (λ x q _.
              Reads-last read_offset _ (read_offset_lem x (wf.offset_minutes x q)) (Reads-pure _))
            (done 3 _)))
        fits)
      (Reads-pure t)
