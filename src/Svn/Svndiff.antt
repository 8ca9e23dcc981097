-- ===== src/Svn/Svndiff.antt =====
-- crates/brygge-decode-svn/src/svndiff.rs: the svndiff (version 0) reader. A cursor is the bytes that are
-- left. Lengths are below 2 ^ 64, on a platform with a 64-bit usize.
pub mod Outcome
pub mod Cursor
pub mod Window
pub mod Apply
pub mod Literal
use brygge.Prelude.{ℕ, zero, suc, ◌+◌, ◌-◌, ◌*◌, ◌/◌, ◌^◌, bit_and, String}
use brygge.Prelude.{Bool, true, false, ◌||◌, List, [], ◌∷◌, ◌++◌, Option, none, some, Bytes, length}
use brygge.Prelude.{ltb, leb, ◌==◌, if◌then◌else◌, Result, ok, err, get_elem?}
use brygge.Prelude.{take as list_take, drop as list_drop}

pub data DiffError : Type 0 where
  unsupported_version : ℕ → DiffError
  malformed : String → DiffError
  too_large : ℕ → DiffError

-- Why a loop with fuel stops: an error of the code, or the fuel is used up.
pub data Stop : Type 0 where
  failed : DiffError → Stop
  no_fuel : Stop

abbrev pub Answer : Type 0 → Type 0
Answer A = Result Stop A

abbrev pub and_then : {A B : Type 0} → (A → Answer B) → Answer A → Answer B
and_then f (ok a) = f a
and_then f (err e) = err e

infixl 5 ◌>>=◌ ◌>>◌
abbrev pub ◌>>=◌ : {A B : Type 0} → Answer A → (A → Answer B) → Answer B
m >>= f = and_then f m

abbrev pub ◌>>◌ : {B : Type 0} → Answer (Unit {0}) → Answer B → Answer B
m >> k = m >>= λ _. k

abbrev pub bad : {A : Type 0} → String → Answer A
bad what = err (failed (malformed what))

abbrev pub ensure : Bool → DiffError → Answer (Unit {0})
ensure true e = ok tt
ensure false e = err (failed e)

abbrev pub required : {A : Type 0} → Option A → DiffError → Answer A
required (some a) e = ok a
required none e = err (failed e)

-- Cursor::byte
unfoldable pub byte : Bytes → Answer (ℕ × Bytes)
byte [] = bad "truncated"
byte (b ∷ rest) = ok (b, rest)

-- The loop of Cursor::varint, of at most MAX_VARINT_BYTES rounds.
unfoldable pub varint_loop : ℕ → ℕ → Bytes → Answer (ℕ × Bytes)
varint_loop zero value rest = bad "an integer is longer than 64 bits allow"
varint_loop (suc n) value [] = bad "truncated"
varint_loop (suc n) value (b ∷ rest) =
    let value' = value * 128 + bit_and b 0x7f in
    let more = varint_loop n value' rest in
    if leb (2 ^ 64) (value * 128) || leb (2 ^ 64) value'
    then bad "an integer does not fit 64 bits"
    else if bit_and b 0x80 == 0
    then ok (value', rest)
    else more

abbrev pub max_varint_bytes : ℕ
max_varint_bytes = 10

-- Cursor::varint, and Cursor::size, which is the same where a usize has 64 bits.
unfoldable pub size : Bytes → Answer (ℕ × Bytes)
size rest = varint_loop max_varint_bytes 0 rest

-- Cursor::take; the slice is not there either where `pos + n` overflows.
unfoldable pub take : ℕ → Bytes → Answer (Bytes × Bytes)
take n rest =
    if leb n (length rest) then ok (list_take n rest, list_drop n rest) else bad "truncated"

-- The version byte behind `SVN`.
unfoldable pub check_version : ℕ → Answer (Unit {0})
check_version v =
    if v == 0
    then ok tt
    else if v == 1 || v == 2
    then err (failed (unsupported_version v))
    else bad "an unknown svndiff version"

unfoldable pub check_header : Bytes → Answer (Unit {0})
check_header (s ∷ v ∷ n ∷ version ∷ rest) =
    if s == b'S'
    then (if v == b'V'
        then (if n == b'N'
            then check_version version
            else bad "not svndiff (the header is not `SVN`)")
        else bad "not svndiff (the header is not `SVN`)")
    else bad "not svndiff (the header is not `SVN`)"
check_header delta = bad "shorter than the svndiff header"

-- `data.get(from..to)`, where the range is `len` long: an overflow of its end is the first error.
unfoldable pub slice : ℕ → ℕ → Bytes → String → String → Answer Bytes
slice offset len data_ overflows outside =
    if leb (2 ^ 64) (offset + len)
    then bad overflows
    else if leb (offset + len) (length data_)
    then ok (list_take len (list_drop offset data_))
    else bad outside

-- The copy from the target, a byte a round, from index `at` on.
unfoldable pub copy_target : ℕ → ℕ → Bytes → Answer Bytes
copy_target zero at out = ok out
copy_target (suc n) at out = do
  b ← required (get_elem? out at) (malformed "a target copy reads past what is built")
  copy_target n (at + 1) (out ++ b ∷ [])

-- One instruction whose length is read: by its opcode it appends to `out`.
unfoldable pub execute : ℕ → ℕ → ℕ → Bytes → Bytes → Bytes → Bytes → Answer (Bytes × Bytes × Bytes)
execute opcode len start source out ins new =
    if opcode == 0
    then (do
      read ← size ins
      piece ←
          slice read.0 len source "a source copy overflows"
            "a source copy is outside the source view"
      ok (out ++ piece, read.1, new))
    else if opcode == 1
    then (do
      read ← size ins
      ensure (ltb read.0 (length out - start))
          (malformed "a target copy starts at or after the current position")
      out' ← copy_target len (start + read.0) out
      ok (out', read.1, new))
    else if opcode == 2
    then (do taken ← take len new; ok (out ++ taken.0, ins, taken.1))
    else bad "an invalid instruction (opcode 11)"

-- The length in the low six bits, or behind the byte where these are 0.
unfoldable pub instruction_len : ℕ → Bytes → Answer (ℕ × Bytes)
instruction_len op ins = if bit_and op 0x3f == 0 then size ins else ok (bit_and op 0x3f, ins)

unfoldable pub instruction :
    ℕ → ℕ → Bytes → ℕ → Bytes → Bytes → Bytes → Answer (Bytes × Bytes × Bytes)
instruction start target_len source op out ins new = do
  read ← instruction_len op ins
  ensure (leb read.0 (target_len - (length out - start)))
      (malformed "the instructions run past the target view")
  execute (op / 64) read.0 start source out read.1 new

-- The loop of run_window, which takes a byte of the instructions at least in each round.
unfoldable pub instructions_loop :
    ℕ → ℕ → ℕ → Bytes → Bytes → Bytes → Bytes → Answer (Bytes × Bytes)
instructions_loop fuel start target_len source out [] new = ok (out, new)
instructions_loop zero start target_len source out (op ∷ ins) new = err no_fuel
instructions_loop (suc fuel) start target_len source out (op ∷ ins) new = do
  next ← instruction start target_len source op out ins new
  instructions_loop fuel start target_len source next.0 next.1 next.2

unfoldable pub run_window : Bytes → Bytes → ℕ → Bytes → Bytes → Answer Bytes
run_window out source target_len instructions new_data = do
  end ←
      instructions_loop (length instructions) (length out) target_len source out instructions
        new_data
  ensure (length end.0 - length out == target_len)
      (malformed "the instructions do not fill the target view")
  ensure (length end.1 == 0) (malformed "the new-data section is not fully used")
  ok end.0

-- One window: the five integers, the checks, and the run.
unfoldable pub window : Bytes → ℕ → Bytes → Bytes → Answer (Bytes × Bytes)
window base max_target out rest = do
  source_offset ← size rest
  source_len ← size source_offset.1
  target_len ← size source_len.1
  instr_len ← size target_len.1
  new_len ← size instr_len.1
  source ←
      slice source_offset.0 source_len.0 base "the source view overflows"
        "the source view is outside the base"
  ensure (ltb (length out + target_len.0) (2 ^ 64)) (too_large max_target)
  ensure (leb (length out + target_len.0) max_target) (too_large max_target)
  instructions ← take instr_len.0 new_len.1
  new_data ← take new_len.0 instructions.1
  out' ← run_window out source target_len.0 instructions.0 new_data.0
  ok (out', new_data.1)

-- The loop of apply, which takes a byte at least in each round.
unfoldable pub windows_loop : ℕ → Bytes → ℕ → Bytes → Bytes → Answer Bytes
windows_loop fuel base max_target out [] = ok out
windows_loop zero base max_target out (b ∷ rest) = err no_fuel
windows_loop (suc fuel) base max_target out (b ∷ rest) = do
  next ← window base max_target out (b ∷ rest)
  windows_loop fuel base max_target next.0 next.1

unfoldable pub apply : Bytes → Bytes → ℕ → Answer Bytes
apply delta base max_target = do
  check_header delta
  body ← take 4 delta
  windows_loop (length delta) base max_target [] body.1
