-- ===== src/Ir/Canon/Zigzag.antt =====
-- Signed integers: the zig-zag map on the 64-bit patterns, and the round trip of `svarint`.
use brygge.Prelude.{ℕ, ◌-◌, ◌*◌, ◌/◌, ◌%◌, ◌^◌, ◌<◌, ◌≡◌, arith, ltb, ◌==◌, if◌then◌else◌}
use brygge.Prelude.Bits.{bit_xor-zero, bit_xor_ones, low_bit}
use brygge.Ir.Canon.Writer.{zigzag, unzigzag, svarint_value}
use brygge.Ir.Canon.Reader.{Read, uvarint, ◌>>=◌, pure}
use brygge.Ir.Canon.Reads.{Reads, Reads-last, Reads-pure}
use brygge.Ir.Canon.Varint.{uvarint-uvarint_value}
use native.Mathlib.Nat.{le_refl}

-- CanonReader::svarint
unfoldable pub svarint : Read ℕ
svarint = do v ← uvarint; pure (unzigzag v)

-- A non-negative number doubles, and the pattern of a negative one, -m, goes to 2 * m - 1.
pub zigzag_cases :
    (v : ℕ) → v < 2 ^ 64 → zigzag v ≡ (if ltb v (2 ^ 63) then 2 * v else 2 * (2 ^ 64 - v) - 1)
unfolding zigzag
zigzag_cases v h = ground (
  arith,
  bit_xor-zero (v * 2 % 2 ^ 64) (v * 2 % 2 ^ 64) (le_refl _),
  bit_xor_ones 64 (v * 2 % 2 ^ 64),
)

unzigzag_cases :
    (v : ℕ) → v < 2 ^ 64 → unzigzag v ≡ (if v % 2 == 0 then v / 2 else 2 ^ 64 - 1 - v / 2)
unfolding unzigzag
unzigzag_cases v h =
    ground (arith, low_bit v, bit_xor-zero (v / 2) (v / 2) (le_refl _), bit_xor_ones 64 (v / 2))

pub zigzag-lt : (v : ℕ) → v < 2 ^ 64 → zigzag v < 2 ^ 64
zigzag-lt v h = ground (arith, zigzag_cases v)

-- `unzigzag` undoes `zigzag` on every pattern of 64 bits.
pub unzigzag-zigzag : (v : ℕ) → v < 2 ^ 64 → unzigzag (zigzag v) ≡ v
unzigzag-zigzag v h = ground (arith, zigzag_cases v, zigzag-lt v, unzigzag_cases (zigzag v))

-- Every pattern of 64 bits is read back from the bytes that `svarint_value` writes for it; no byte more is
-- taken.
pub svarint-svarint_value : (v : ℕ) → v < 2 ^ 64 → Reads svarint (svarint_value v) v
unfolding svarint svarint_value
svarint-svarint_value v h =
    Reads-last uvarint (λ w. pure (unzigzag w)) (uvarint-uvarint_value (zigzag v) (zigzag-lt v h))
      (rw (unzigzag-zigzag v h) (Reads-pure v))
