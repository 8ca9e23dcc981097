-- ===== src/Svn/Svndiff/Cursor.antt =====
-- svndiff.rs: what the cursor's operations and the copies leave.
use brygge.Prelude.{
  ℕ, zero, suc, ◌+◌, ◌*◌, ◌≤◌, ◌<◌, ◌^◌, ◌≡◌, refl, ap, ◌∙◌, arith, inl, inr, Bool-cases,
}
use brygge.Prelude.{
  [], ◌∷◌, ◌++◌, append_assoc, append-nil, sym, some, Bytes, length, length-append, length-take,
  length-drop,
}
use brygge.Prelude.{get_elem?, drop, ok, String, leb, leb→le, bit_and, ◌||◌, ◌==◌, if◌then◌else◌}
use brygge.Prelude.{take as list_take}
use brygge.Svn.Svndiff.{Answer, bad, varint_loop, size, take, slice, copy_target}
use brygge.Svn.Svndiff.Outcome.{Outcome, Outcome-if, Outcome-map}

-- Taking `n` bytes of the cursor or more.
varint_loop_lem :
    (n value : ℕ) (rest : Bytes)
    → Outcome (λ r. suc (length r.1) ≤ length rest) (varint_loop n value rest)
unfolding varint_loop
varint_loop_lem zero value rest = tt
varint_loop_lem (suc n) value [] = tt
varint_loop_lem (suc n) value (b ∷ rest) =
    let value' : ℕ = value * 128 + bit_and b 0x7f in
    let P : ℕ × Bytes → Type 0 = λ r. suc (length r.1) ≤ suc (length rest) in
    let more : Answer (ℕ × Bytes) = varint_loop n value' rest in
    let last : Answer (ℕ × Bytes) = ok (value', rest) in
    Outcome-if P (leb (2 ^ 64) (value * 128) || leb (2 ^ 64) value')
      (bad "an integer does not fit 64 bits") (if bit_and b 0x80 == 0 then last else more) tt
      (Outcome-if P (bit_and b 0x80 == 0) last more (omega arith) (
        Outcome-map (λ r. suc (length r.1) ≤ length rest) P more (λ r h. omega arith)
          (varint_loop_lem n value' rest)))

pub size_lem : (rest : Bytes) → Outcome (λ r. suc (length r.1) ≤ length rest) (size rest)
unfolding size
size_lem rest = varint_loop_lem 10 0 rest

pub take_lem :
    (n : ℕ) (rest : Bytes)
    → Outcome (λ t. (length t.0 ≡ n) × (length t.1 ≤ length rest)) (take n rest)
unfolding take
take_lem n rest = elim (Bool-cases (leb n (length rest))) [
  | inl fits ↦ rw fits (
      let h = leb→le n (length rest) fits in
      (omega (arith, length-take n rest), omega (arith, length-drop n rest)))
  | inr short ↦ rw short tt
]

pub slice_lem :
    (offset len : ℕ) (src : Bytes) (overflows outside : String)
    → Outcome (λ p. length p ≡ len) (slice offset len src overflows outside)
unfolding slice
slice_lem offset len src overflows outside =
    Outcome-if (λ p. length p ≡ len) (leb (2 ^ 64) (offset + len)) (bad overflows)
      (if leb (offset + len) (length src)
        then ok (list_take len (drop offset src))
        else bad outside)
      tt
      (elim (Bool-cases (leb (offset + len) (length src))) [
        | inl fits ↦ rw fits (
            let h = leb→le (offset + len) (length src) fits in
            omega (arith, length-take len (drop offset src), length-drop offset src))
        | inr short ↦ rw short tt
      ])

-- The later output is the earlier one with `k` bytes behind it.
pub record Appends (out longer : Bytes) (k : ℕ) : Type 0 where
  pub piece : Bytes
  pub whole : longer ≡ out ++ piece
  pub piece_length : length piece ≡ k

pub Appends-nothing : (out : Bytes) → Appends out out 0
Appends-nothing out = record { piece = []; whole = sym (append-nil out); piece_length = refl }

pub Appends-then :
    (out mid last : Bytes) (j k total : ℕ)
    → j + k ≡ total
    → Appends out mid j
    → Appends mid last k
    → Appends out last total
Appends-then out mid last j k total sum a b = record {
  piece = a.piece ++ b.piece;
  whole = b.whole ∙ ap (λ m. m ++ b.piece) a.whole ∙ append_assoc out a.piece b.piece;
  piece_length = omega (arith, length-append a.piece b.piece, a.piece_length, b.piece_length);
}

pub Appends-length :
    (out longer : Bytes) (k : ℕ) → Appends out longer k → length longer ≡ length out + k
Appends-length out longer k a =
    omega (arith, ap length a.whole, length-append out a.piece, a.piece_length)

record Found (xs : Bytes) (i : ℕ) : Type 0 where
  item : ℕ
  there : get_elem? xs i ≡ some item

found : (xs : Bytes) (i : ℕ) → i < length xs → Found xs i
found [] i h = absurd (omega arith)
found (x ∷ xs) zero h = record { item = x; there = refl }
found (x ∷ xs) (suc i) h =
    let f = found xs i (omega arith) in record { item = f.item; there = f.there }

pub record Copied (n from : ℕ) (out : Bytes) : Type 0 where
  pub result : Bytes
  pub run : copy_target n from out ≡ ok result
  pub appends : Appends out result n

-- A copy from the target that starts before its end never reads past what is built, however long it is: it
-- appends exactly as many bytes as it is asked for.
pub copy_target_lem : (n from : ℕ) (out : Bytes) → from < length out → Copied n from out
unfolding copy_target
copy_target_lem zero from out h = record { result = out; run = refl; appends = Appends-nothing out }
copy_target_lem (suc n) from out h =
    let f = found out from h in
    let longer : Bytes = out ++ f.item ∷ [] in
    let c = copy_target_lem n (from + 1) longer (omega (arith, length-append out (f.item ∷ []))) in
    record {
      result = c.result;
      run = rw f.there c.run;
      appends =
          Appends-then out longer c.result 1 n (suc n) (omega arith)
            (record { piece = f.item ∷ []; whole = refl; piece_length = refl }) c.appends;
    }
