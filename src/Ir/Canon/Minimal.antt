-- ===== src/Ir/Canon/Minimal.antt =====
-- Which varints the reader takes: up to nine bytes only the form that the writer writes, and at the
-- tenth byte also forms that the writer never writes.
use brygge.Prelude.{
  ℕ, zero, suc, ◌+◌, ◌*◌, ◌/◌, ◌%◌, ◌^◌, ◌≤◌, ◌<◌, ◌≡◌, ◌≢◌, refl, ap, ◌⊎◌, inl, arith,
}
use brygge.Prelude.{[], ◌∷◌, ◌++◌, Bytes, All, ok}
use brygge.Prelude.{bit_and, bit_or}
use brygge.Prelude.Bits.{low_seven, top_bit, bit_or_above, zero-bit_or}
use brygge.Ir.Canon.Writer.{uvarint_value}
use brygge.Ir.Canon.Reader.{uvarint_loop}
use brygge.Ir.Canon.Varint.{groups, value-groups, pow_seven, group_fits}
use native.Mathlib.Decide.{dec_lt}
use native.Mathlib.Nat.{pow-suc, one-le-pow, mul-le-mul_right}

-- What a successful run of the loop has read, when it ends within nine bytes: the bytes are the groups
-- of a number, which is not 0 in the last byte unless that is the first.
record Took (k : ℕ) (src : Bytes) (acc shift nbytes v : ℕ) (rest : Bytes) : Type 0 where
  word : ℕ
  value : v ≡ acc + word * 2 ^ shift
  bound : word < 128 ^ k
  nonzero : (0 < word) ⊎ (nbytes ≡ 0)
  bytes : src ≡ groups k word ++ rest

loop_counts :
    (src : Bytes) (acc shift nbytes v : ℕ) (rest : Bytes) (n : ℕ)
    → uvarint_loop src acc shift nbytes ≡ ok (v, rest, n)
    → nbytes < n
unfolding uvarint_loop
loop_counts [] acc shift nbytes v rest n e = cc
loop_counts (b ∷ bs) acc shift nbytes v rest n e = ground (
  arith,
  loop_counts bs (bit_or acc (bit_and b 0x7f * 2 ^ shift % 2 ^ 64)) (shift + 7) (nbytes + 1) v rest
      n,
)

-- One round, where the group fits below bit 63.
module _ (b : ℕ) (hb : b < 256) (acc shift nbytes : ℕ) (ha : acc < 2 ^ shift) (hs : shift < 63)
    (fits : 128 * 2 ^ shift ≤ 2 ^ 63) where
  round_group : bit_or acc (bit_and b 0x7f * 2 ^ shift % 2 ^ 64) ≡ acc + b % 128 * 2 ^ shift
  round_group =
      let small : b % 128 * 2 ^ shift < 2 ^ 64 = grind arith in
      ground (arith, low_seven b, bit_or_above shift acc (b % 128))

  loop_last :
      (bs : Bytes) (v : ℕ) (rest : Bytes) (n : ℕ)
      → b < 128
      → uvarint_loop (b ∷ bs) acc shift nbytes ≡ ok (v, rest, n)
      → (v ≡ acc + b * 2 ^ shift) × ((0 < b) ⊎ (nbytes ≡ 0)) × (bs ≡ rest)
  unfolding uvarint_loop
  loop_last bs v rest n small e = ground (arith, round_group, top_bit b)

  loop_inner :
      (bs : Bytes) (v : ℕ) (rest : Bytes) (n : ℕ)
      → 128 ≤ b
      → uvarint_loop (b ∷ bs) acc shift nbytes ≡ ok (v, rest, n)
      → uvarint_loop bs (acc + b % 128 * 2 ^ shift) (shift + 7) (nbytes + 1) ≡ ok (v, rest, n)
  unfolding uvarint_loop
  loop_inner bs v rest n large e = ground (arith, round_group, top_bit b)

Took-last :
    (k b acc shift nbytes v : ℕ) (bs rest : Bytes)
    → b < 128
    → (v ≡ acc + b * 2 ^ shift) × ((0 < b) ⊎ (nbytes ≡ 0)) × (bs ≡ rest)
    → Took (suc k) (b ∷ bs) acc shift nbytes v rest
Took-last k b acc shift nbytes v bs rest small (hv, nz, hr) = record {
  word = b;
  value = hv;
  bound = omega (arith, pow-suc 128 k, one-le-pow k 128);
  nonzero = nz;
  bytes = ground arith;
}

Took-inner :
    (k b acc shift nbytes v : ℕ) (bs rest : Bytes)
    → b < 256
    → 128 ≤ b
    → Took k bs (acc + b % 128 * 2 ^ shift) (shift + 7) (nbytes + 1) v rest
    → Took (suc k) (b ∷ bs) acc shift nbytes v rest
Took-inner k b acc shift nbytes v bs rest hb large t =
    let w : ℕ = t.word in
    let high : 0 < w = ground (arith, t.nonzero) in
    let quotient : (b % 128 + 128 * w) / 128 ≡ w = omega arith in
    record {
      word = b % 128 + 128 * w;
      value = omega (arith, t.value, ap (λ (x : ℕ). w * x) (pow_seven shift));
      bound = omega (arith, t.bound, pow-suc 128 k);
      nonzero = inl (omega arith);
      bytes = ground (arith, t.bytes, quotient);
    }

room : (k s : ℕ) → 128 ^ suc k * 2 ^ s ≡ 2 ^ 63 → 128 * 2 ^ s ≤ 2 ^ 63
room k s h =
    let p : 1 * (128 * 2 ^ s) ≤ 128 ^ k * (128 * 2 ^ s) =
      mul-le-mul_right _ (one-le-pow k 128 (omega arith)) in
    omega (arith, p, ap (λ (t : ℕ). t * 2 ^ s) (pow-suc 128 k))

carried : (k s : ℕ) → 128 ^ suc k * 2 ^ s ≡ 2 ^ 63 → 128 ^ k * 2 ^ (s + 7) ≡ 2 ^ 63
carried k s h =
    omega
      (arith, ap (λ (t : ℕ). t * 2 ^ s) (pow-suc 128 k), ap (λ (t : ℕ). 128 ^ k * t) (pow_seven s))

-- `k` rounds are left until the tenth byte.
loop-Took :
    (k : ℕ) (src : Bytes) (acc shift nbytes v : ℕ) (rest : Bytes) (n : ℕ)
    → All (λ b. b < 256) src
    → shift + 7 * k ≡ 63
    → nbytes + k ≡ 9
    → acc < 2 ^ shift
    → 128 ^ k * 2 ^ shift ≡ 2 ^ 63
    → n ≤ 9
    → uvarint_loop src acc shift nbytes ≡ ok (v, rest, n)
    → Took k src acc shift nbytes v rest
loop-Took k [] acc shift nbytes v rest n hb hs hn ha hp h9 e = unfold uvarint_loop in cc
loop-Took zero (b ∷ bs) acc shift nbytes v rest n hb hs hn ha hp h9 e =
    absurd (omega (arith, loop_counts (b ∷ bs) acc shift nbytes v rest n e))
loop-Took (suc k) (b ∷ bs) acc shift nbytes v rest n (hb, hbs) hs hn ha hp h9 e =
    elim (dec_lt b 128) [
      | yes small ↦
          Took-last k b acc shift nbytes v bs rest small
            (loop_last b hb acc shift nbytes ha (omega arith) (room k shift hp) bs v rest n small e)
      | no large ↦ Took-inner k b acc shift nbytes v bs rest hb (omega arith) (
          loop-Took k bs (acc + b % 128 * 2 ^ shift) (shift + 7) (nbytes + 1) v rest n hbs
            (omega arith) (omega arith) (group_fits (b % 128) acc shift (omega arith) ha)
            (carried k shift hp) h9
            (loop_inner b hb acc shift nbytes ha (omega arith) (room k shift hp) bs v rest n
              (omega arith) e))
    ]

-- Where the reader takes a number in nine bytes or fewer, the input begins with exactly the bytes that the
-- writer writes for that number.
pub uvarint_minimal :
    (src : Bytes) (v : ℕ) (rest : Bytes) (n : ℕ)
    → All (λ b. b < 256) src
    → uvarint_loop src 0 0 0 ≡ ok (v, rest, n)
    → n ≤ 9
    → src ≡ uvarint_value v ++ rest
uvarint_minimal src v rest n hb e h9 =
    let t : Took 9 src 0 0 0 v rest =
      loop-Took 9 src 0 0 0 v rest n hb (omega arith) (omega arith) (omega arith) refl h9 e in
    let word : t.word ≡ v = omega (arith, t.value) in
    ground (arith, t.bytes, t.bound, word, value-groups v)

abbrev pub nine_zeros : Bytes → Bytes
nine_zeros t = 0x80 ∷ 0x80 ∷ 0x80 ∷ 0x80 ∷ 0x80 ∷ 0x80 ∷ 0x80 ∷ 0x80 ∷ 0x80 ∷ t

tenth_byte :
    (g : ℕ)
    → 1 ≤ g
    → g < 128
    → uvarint_loop (nine_zeros (g ∷ [])) 0 0 0 ≡ ok (g % 2 * 2 ^ 63, [], 10)
unfolding uvarint_loop
tenth_byte g h1 h2 =
    ground (arith, low_seven g, top_bit g, zero-bit_or (bit_and g 0x7f * 2 ^ 63 % 2 ^ 64))

value_zero : uvarint_value 0 ≡ 0 ∷ []
unfolding uvarint_value
value_zero = refl

value_top : uvarint_value (2 ^ 63) ≡ nine_zeros (1 ∷ [])
unfolding uvarint_value
value_top = refl

tenth_bit : (g d : ℕ) → 2 ≤ g → d < 2 → uvarint_value (d * 2 ^ 63) ≢ nine_zeros (g ∷ [])
tenth_bit g zero hg hd e = cc (value_zero, e)
tenth_bit g (suc zero) hg hd e = ground (arith, value_top, e)
tenth_bit g (suc (suc d)) hg hd e = absurd (omega arith)

-- Nine bytes 0x80 and a tenth byte g from 2 to 127 are taken for 0 or 2 ^ 63, by the lowest bit of g, and
-- they are not what the writer writes for that value.
pub uvarint_tenth_byte :
    (g : ℕ)
    → 2 ≤ g
    → g < 128
    → (uvarint_loop (nine_zeros (g ∷ [])) 0 0 0 ≡ ok (g % 2 * 2 ^ 63, [], 10))
      × (uvarint_value (g % 2 * 2 ^ 63) ≢ nine_zeros (g ∷ []))
uvarint_tenth_byte g h1 h2 = (tenth_byte g (omega arith) h2, tenth_bit g (g % 2) h1 (omega arith))
