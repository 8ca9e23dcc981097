-- ===== src/Svn/Svndiff/Literal.antt =====
-- svndiff.rs: a delta that is one window of new data gives that data.
use brygge.Prelude.{
  ℕ, ◌+◌, ◌-◌, String, ◌≤◌, ◌<◌, ◌^◌, ◌/◌, true, ◌≡◌, refl, arith, [], ◌∷◌, Bytes, length, ok,
  append-nil, take-append, drop-append,
}
use brygge.Prelude.{le→leb, lt→ltb, leb, ◌==◌}
use brygge.Prelude.{take as list_take, drop as list_drop}
use brygge.Prelude.Bits.{low_seven, top_bit, low_six}
use brygge.Svn.Svndiff.{
  varint_loop, size, take, slice, check_header, check_version, execute, instruction_len,
  instruction, instructions_loop, run_window, window, windows_loop, apply,
}

-- The delta that a writer makes of a text of up to 63 bytes: one instruction and the text.
abbrev pub literal : Bytes → Bytes
literal t = b'S' ∷ b'V' ∷ b'N' ∷ 0 ∷ 0 ∷ 0 ∷ length t ∷ 1 ∷ length t ∷ (128 + length t) ∷ t

size_small : (n : ℕ) (rest : Bytes) → n < 128 → size (n ∷ rest) ≡ ok (n, rest)
unfolding size varint_loop
size_small n rest h = ground (arith, low_seven n, top_bit n)

take_all : (t : Bytes) → take (length t) t ≡ ok (t, [])
unfolding take
take_all t =
    let whole : list_take (length t) t ≡ t = rw (append-nil t) at (take-append t []) in
    let none_left : list_drop (length t) t ≡ [] = rw (append-nil t) at (drop-append t []) in
    rw (le→leb (length t) (length t) (omega arith), whole, none_left) refl

literal_len : (n : ℕ) → 1 ≤ n → n < 64 → instruction_len (128 + n) [] ≡ ok (n, [])
unfolding instruction_len
literal_len n lo hi = ground (arith, low_six (128 + n))

literal_execute : (t source : Bytes) → execute 2 (length t) 0 source [] [] t ≡ ok (t, [], [])
unfolding execute
literal_execute t source = rw (take_all t) refl

literal_instruction :
    (t source : Bytes)
    → 1 ≤ length t
    → length t < 64
    → instruction 0 (length t) source (128 + length t) [] [] t ≡ ok (t, [], [])
unfolding instruction
literal_instruction t source lo hi =
    let code : (128 + length t) / 64 ≡ 2 = omega arith in
    let room : leb (length t) (length t - 0) ≡ true =
      le→leb (length t) (length t - 0) (omega arith) in
    rw (literal_len (length t) lo hi, room, code) (literal_execute t source)

literal_run :
    (t source : Bytes)
    → 1 ≤ length t
    → length t < 64
    → run_window [] source (length t) ((128 + length t) ∷ []) t ≡ ok t
unfolding run_window instructions_loop
literal_run t source lo hi =
    let same : (length t - 0 == length t) ≡ true = ground arith in
    rw (literal_instruction t source lo hi, same) refl

take_first : (b : ℕ) (rest : Bytes) → take 1 (b ∷ rest) ≡ ok (b ∷ [], rest)
unfolding take
take_first b rest = rw (le→leb 1 (length (b ∷ rest)) (omega arith)) refl

no_source : (base : Bytes) (overflows outside : String) → slice 0 0 base overflows outside ≡ ok []
unfolding slice
no_source base overflows outside = rw (le→leb 0 (length base) (omega arith)) refl

window-literal :
    (t base : Bytes) (max_target : ℕ)
    → 1 ≤ length t
    → length t < 64
    → length t ≤ max_target
    → window base max_target [] (list_drop 4 (literal t)) ≡ ok (t, [])
unfolding window
window-literal t base max_target lo hi under =
    let n : ℕ = length t in
    let op : ℕ = 128 + n in
    rw
      (
        size_small 0 (0 ∷ n ∷ 1 ∷ n ∷ op ∷ t) (omega arith),
        size_small 0 (n ∷ 1 ∷ n ∷ op ∷ t) (omega arith),
        size_small n (1 ∷ n ∷ op ∷ t) (omega arith),
        size_small 1 (n ∷ op ∷ t) (omega arith),
        size_small n (op ∷ t) (omega arith),
      )
      (rw
        (
          no_source base "the source view overflows" "the source view is outside the base",
          lt→ltb (0 + n) (2 ^ 64) (omega arith),
          le→leb (0 + n) max_target (omega arith),
          take_first op t,
          take_all t,
          literal_run t [] lo hi,
        )
        refl)

-- The delta that holds a text of 1 to 63 bytes as new data, in one window of one instruction, is applied to
-- that text, on any base, if the ceiling admits it.
pub apply-literal :
    (t base : Bytes) (max_target : ℕ)
    → 1 ≤ length t
    → length t < 64
    → length t ≤ max_target
    → apply (literal t) base max_target ≡ ok t
unfolding apply check_header check_version windows_loop take
apply-literal t base max_target lo hi under =
    rw (le→leb 4 (length (literal t)) (omega arith), window-literal t base max_target lo hi under)
      refl
