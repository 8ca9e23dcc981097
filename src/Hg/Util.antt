-- ===== src/Hg/Util.antt =====
-- util.rs, and reading fixed fields out of a buffer.
use brygge.Prelude.{ℕ, ◌+◌, ◌-◌, ◌*◌, ◌&&◌, [], ◌∷◌}
use brygge.Prelude.{Option, none, some, Bytes, length, leb, ◌==◌, if◌then◌else◌, ok, err, String}
use brygge.Prelude.{take, drop}
use brygge.Hg.{Error, read, Answer}

infixl 5 ◌>>=◌
abbrev pub ◌>>=◌ : {A B : Type 0} → Answer A → (A → Answer B) → Answer B
ok a >>= f = f a
err e >>= f = err e

abbrev pub required : {A : Type 0} → Option A → Error → Answer A
required (some a) e = ok a
required none e = err e

-- hexval
unfoldable pub hexval : ℕ → Answer ℕ
hexval b =
    if leb b'0' b && leb b b'9'
    then ok (b - b'0')
    else if leb b'a' b && leb b b'f'
    then ok (b - b'a' + 10)
    else if leb b'A' b && leb b b'F'
    then ok (b - b'A' + 10)
    else err (read "invalid hex digit")

-- The loop of parse_hex20 over the pairs of characters.
unfoldable pub hex_pairs : Bytes → Answer Bytes
hex_pairs [] = ok []
hex_pairs (hi ∷ []) = ok []
hex_pairs (hi ∷ lo ∷ rest) =
    hexval hi >>= λ h. hexval lo >>= λ l. hex_pairs rest >>= λ out. ok ((h * 16 + l) ∷ out)

-- parse_hex20
unfoldable pub parse_hex20 : Bytes → Answer Bytes
parse_hex20 s =
    if length s == 40 then hex_pairs s else err (read "expected a 40-character hex node")

-- `buf.get(at..at + n)`, or the error.
abbrev pub field : ℕ → ℕ → String → Bytes → Answer Bytes
field at n what buf =
    if leb (at + n) (length buf) then ok (take n (drop at buf)) else err (read what)

-- `from_be_bytes`
abbrev be_loop : ℕ → Bytes → ℕ
be_loop acc [] = acc
be_loop acc (b ∷ bs) = be_loop (acc * 256 + b) bs

abbrev pub be : Bytes → ℕ
be = be_loop 0
