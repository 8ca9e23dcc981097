-- ===== src/Ir/Canon/Varint.antt =====
-- The variable-length integers: what the writer writes, the reader reads back, and the forms that the
-- reader takes besides.
use brygge.Prelude.{ℕ, zero, suc, ◌+◌, ◌*◌, ◌/◌, ◌%◌, ◌^◌, ◌≤◌, ◌<◌, ◌≡◌, refl, ◌∙◌, ◌⊎◌, arith}
use brygge.Prelude.{[], ◌∷◌, ◌++◌, Bytes, length, ltb, if◌then◌else◌, ok}
use brygge.Prelude.Bits.{low_seven, top_bit, set_top_bit, bit_or_above}
use brygge.Ir.Canon.Writer.{put_uvarint, uvarint_value}
use brygge.Ir.Canon.Reader.{uvarint_loop, uvarint}
use brygge.Ir.Canon.Reads.{Reads}
use native.Mathlib.Numerals.{towards_suc}

-- The groups of seven bits, lowest first, in plain arithmetic.
abbrev pub groups : ℕ → ℕ → Bytes
groups zero v = v ∷ []
groups (suc k) v =
    let rest = groups k (v / 128) in if ltb v 128 then v ∷ [] else (v % 128 + 128) ∷ rest

loop-groups : (k v : ℕ) → v < 128 ^ suc k → put_uvarint (suc k) v ≡ groups k v
unfolding put_uvarint
loop-groups zero v h = ground (arith, low_seven v)
loop-groups (suc k) v h =
    ground (arith, low_seven v, set_top_bit (v % 128), loop-groups k (v / 128) (omega arith))

pub value-groups : (v : ℕ) → v < 2 ^ 64 → uvarint_value v ≡ groups 9 v
unfolding uvarint_value
value-groups v h = loop-groups 9 v (omega arith)

pub uvarint_value-nonempty : (v : ℕ) → 1 ≤ length (uvarint_value v)
unfolding uvarint_value put_uvarint
uvarint_value-nonempty v = ground arith

pub pow_seven : (s : ℕ) → 2 ^ (s + 7) ≡ 128 * 2 ^ s
pow_seven s = simp towards_suc (omega arith)

-- One round of the reader's loop on a last byte, and on a byte with the top bit set.
last_byte :
    (w acc shift nbytes : ℕ) (rest : Bytes)
    → w < 128
    → shift ≤ 63
    → acc < 2 ^ shift
    → w * 2 ^ shift < 2 ^ 64
    → (0 < w) ⊎ (nbytes ≡ 0)
    → uvarint_loop (w ∷ rest) acc shift nbytes ≡ ok (acc + w * 2 ^ shift, rest, nbytes + 1)
unfolding uvarint_loop
last_byte w acc shift nbytes rest hw hs ha fits nz =
    ground (arith, low_seven w, top_bit w, bit_or_above shift acc w)

inner_byte :
    (g acc shift nbytes : ℕ) (rest : Bytes)
    → g < 128
    → shift ≤ 63
    → acc < 2 ^ shift
    → g * 2 ^ shift < 2 ^ 64
    → uvarint_loop ((g + 128) ∷ rest) acc shift nbytes
      ≡ uvarint_loop rest (acc + g * 2 ^ shift) (shift + 7) (nbytes + 1)
unfolding uvarint_loop
inner_byte g acc shift nbytes rest hg hs ha fits =
    ground (arith, low_seven (g + 128), top_bit (g + 128), bit_or_above shift acc g)

collect : (low high unit : ℕ) → low * unit + high * (128 * unit) ≡ (low + high * 128) * unit
collect low high unit = grind arith

-- A number of units is its lowest seven bits in units, with what is above them in units 128 times as large.
in_units : (unit v : ℕ) → v % 128 * unit + v / 128 * (128 * unit) ≡ v * unit
in_units unit v =
    let whole : v % 128 + v / 128 * 128 ≡ v = omega arith in
    collect (v % 128) (v / 128) unit ∙ rw whole refl

shift_up : (v shift : ℕ) → v % 128 * 2 ^ shift + v / 128 * 2 ^ (shift + 7) ≡ v * 2 ^ shift
shift_up v shift = rw (pow_seven shift) (in_units (2 ^ shift) v)

pub group_fits : (g acc s : ℕ) → g < 128 → acc < 2 ^ s → acc + g * 2 ^ s < 2 ^ (s + 7)
group_fits g acc s hg ha = rw pow_seven (grind arith)

loop_reads :
    (k v acc shift nbytes : ℕ) (rest : Bytes)
    → v < 128 ^ suc k
    → shift + 7 * k ≤ 63
    → acc < 2 ^ shift
    → v * 2 ^ shift < 2 ^ 64
    → (0 < v) ⊎ (nbytes ≡ 0)
    → uvarint_loop (groups k v ++ rest) acc shift nbytes
      ≡ ok (acc + v * 2 ^ shift, rest, nbytes + length (groups k v))
loop_reads zero v acc shift nbytes rest hv hs ha fits nz =
    last_byte v acc shift nbytes rest (omega arith) (omega arith) ha fits nz
loop_reads (suc k) v acc shift nbytes rest hv hs ha fits nz = ground (
  arith,
  last_byte v acc shift nbytes rest,
  shift_up v shift,
  group_fits (v % 128) acc shift (omega arith) ha,
  inner_byte (v % 128) acc shift nbytes (groups k (v / 128) ++ rest),
  loop_reads k (v / 128) (acc + v % 128 * 2 ^ shift) (shift + 7) (nbytes + 1) rest (omega arith),
)

-- Every number below 2 ^ 64 is read back from the bytes that `uvarint_value` writes for it, at the front of any
-- input; no byte more is taken.
pub uvarint-uvarint_value : (v : ℕ) → v < 2 ^ 64 → Reads uvarint (uvarint_value v) v
unfolding uvarint uvarint_value
uvarint-uvarint_value v h = record {
  run = λ rest pos skipped.
      rw (loop-groups 9 v (omega arith)) (ground (arith, loop_reads 9 v 0 0 0 rest));
}
