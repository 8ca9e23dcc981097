-- ===== src/Ir/Model/Grammar.antt =====
-- model.rs: the grammars of a transform's name and of what a transform's drop names. Texts are bytes.
use brygge.Prelude.{ℕ, Bool, true, false, ◌&&◌, ◌||◌, ◌==◌, ltb, leb, if◌then◌else◌}
use brygge.Prelude.{[], ◌∷◌, Option, none, some, Bytes, length}
use brygge.Prelude.Utf8.{text_eq, codes}
use mathlib.Core.Option

-- `bytes.iter().all(...)`
unfoldable pub every : (ℕ → Bool) → Bytes → Bool
every p [] = true
every p (b ∷ bs) = p b && every p bs

unfoldable pub strip_prefix : Bytes → Bytes → Option Bytes
strip_prefix [] s = some s
strip_prefix (p ∷ ps) [] = none
strip_prefix (p ∷ ps) (c ∷ cs) = if p == c then strip_prefix ps cs else none

-- `split_once`: at the first separator.
unfoldable pub split_once : ℕ → Bytes → Option (Bytes × Bytes)
split_once sep [] = none
split_once sep (c ∷ cs) =
    let rest = split_once sep cs in
    if c == sep then some ([], cs) else Option.map (λ (front, back). (c ∷ front, back)) rest

unfoldable pub is_digit : ℕ → Bool
is_digit b = leb b'0' b && leb b b'9'

unfoldable pub is_lower_hex_atom_id : Bytes → Bool
is_lower_hex_atom_id s = length s == 64 && every (λ b. is_digit b || (leb b'a' b && leb b b'f')) s

is_some_and : {A : Type 0} → (A → Bool) → Option A → Bool
is_some_and p none = false
is_some_and p (some a) = p a

has_id : Option (Bytes × Bytes) → Bool
has_id none = false
has_id (some (id, rest)) = is_lower_hex_atom_id id

is_ref_kind : Bytes → Bool
is_ref_kind kind =
    text_eq kind (codes "branch")
    || text_eq kind (codes "tag")
    || text_eq kind (codes "bookmark")
    || text_eq kind (codes "named-branch")
    || is_some_and (λ _. true) (strip_prefix (codes "other:") kind)

has_kind : Option (Bytes × Bytes) → Bool
has_kind none = false
has_kind (some (kind, name)) = is_ref_kind kind

-- A chain of `if let Some(rest) = what.strip_prefix(..) { return .. }`
or_else : Option Bytes → (Bytes → Bool) → Bool → Bool
or_else (some rest) test next = test rest
or_else none test next = next

unfoldable pub is_valid_transform_drop_what : Bytes → Bool
unfolding or_else has_id has_kind is_ref_kind is_some_and
is_valid_transform_drop_what what =
    or_else (strip_prefix (codes "atom ") what) is_lower_hex_atom_id (
      or_else (strip_prefix (codes "op ") what) (λ rest. has_id (split_once b' ' rest))
        (or_else (strip_prefix (codes "copy ") what) (λ rest. has_id (split_once b' ' rest))
          (or_else (strip_prefix (codes "ref ") what) (λ rest. has_kind (split_once b' ' rest))
            false)))

is_lower_alnum : ℕ → Bool
is_lower_alnum b = (leb b'a' b && leb b b'z') || is_digit b

starts_alnum : Bytes → Bool
starts_alnum [] = false
starts_alnum (first ∷ rest) =
    is_lower_alnum first && every (λ b. is_lower_alnum b || b == b'-') rest

unfoldable pub is_valid_transform_name : Bytes → Bool
unfolding starts_alnum is_lower_alnum
is_valid_transform_name s = if length s == 0 || ltb 64 (length s) then false else starts_alnum s
