-- ===== src/Hg/Revlog.antt =====
-- revlog.rs: the index of a revlog. A field of type i32 is its pattern of 32 bits; usize has 64 bits.
use brygge.Prelude.{ℕ, zero, suc, ◌+◌, ◌-◌, ◌*◌, ◌/◌, ◌%◌, ◌^◌, Bool, true, false, List, [], ◌∷◌}
use brygge.Prelude.{Option, none, some, Bytes, length, ltb, leb, ◌==◌, if◌then◌else◌, ok, err}
use brygge.Prelude.Utf8.{text_eq}
use brygge.Prelude.{String, get_elem?}
use brygge.Hg.{read, Answer}
use brygge.Hg.Util.{◌>>=◌, required, field, be}

pub record Entry : Type 0 where
  pub flags : ℕ
  pub base_rev : ℕ
  pub link_rev : ℕ
  pub p1 : ℕ
  pub p2 : ℕ
  pub node : Bytes
  pub data_pos : ℕ
  pub comp_len : ℕ
  pub uncomp_len : ℕ

pub record Revlog : Type 0 where
  pub entries : List Entry
  pub inline : Bool
  pub index_buf : Bytes
  pub data_buf : Bytes

-- `usize::try_from` of an i32.
abbrev pub index : ℕ → Option ℕ
index p = if ltb p (2 ^ 31) then some p else none

abbrev pub null_rev : ℕ
null_rev = 2 ^ 32 - 1

-- `p != NULL_REV`, then `usize::try_from(p)`.
unfoldable pub parent_rev : ℕ → Option ℕ
parent_rev p = if p == null_rev then none else index p

abbrev entry_len : ℕ
entry_len = 64

abbrev pub u32_be : Bytes → ℕ → Answer ℕ
u32_be buf at = field at 4 "revlog index truncated" buf >>= λ s. ok (be s)

abbrev pub u64_be : Bytes → ℕ → Answer ℕ
u64_be buf at = field at 8 "revlog index truncated" buf >>= λ s. ok (be s)

-- Revlog::parse_entry
unfoldable pub parse_entry : Bytes → ℕ → ℕ → Answer Entry
parse_entry buf at pos = u64_be buf at >>= λ offset_flags. u32_be buf (at + 8) >>= λ comp.
    u32_be buf (at + 12) >>= λ uncomp. u32_be buf (at + 16) >>= λ base.
    u32_be buf (at + 20) >>= λ link. u32_be buf (at + 24) >>= λ first.
    u32_be buf (at + 28) >>= λ second.
    field (at + 32) 20 "revlog index truncated at node" buf >>= λ id. ok (record {
      flags = offset_flags % 2 ^ 16;
      base_rev = base;
      link_rev = link;
      p1 = first;
      p2 = second;
      node = id;
      data_pos = pos;
      comp_len = comp;
      uncomp_len = uncomp;
    })

-- `checked_add`
abbrev pub checked_add : ℕ → ℕ → String → Answer ℕ
checked_add a b what = if ltb (a + b) (2 ^ 64) then ok (a + b) else err (read what)

-- The loop of Revlog::parse_split, over the entries still to be read.
unfoldable pub split_loop : ℕ → ℕ → ℕ → Bytes → Answer (List Entry)
split_loop zero rev pos buf = ok []
split_loop (suc n) rev pos buf = parse_entry buf (rev * entry_len) pos >>= λ e.
    checked_add pos e.comp_len "revlog data offset overflow" >>= λ next.
    split_loop n (suc rev) next buf >>= λ rest. ok (e ∷ rest)

-- Revlog::parse_split
unfoldable pub parse_split : Bytes → Answer (List Entry)
parse_split buf =
    if length buf % entry_len == 0
    then split_loop (length buf / entry_len) 0 0 buf
    else err (read "revlog index size is not a multiple of 64")

-- The loop of Revlog::parse_inline. A round reads an entry of 64 bytes, so the length of the buffer is enough
-- fuel.
unfoldable pub inline_loop : ℕ → ℕ → Bytes → Answer (List Entry)
inline_loop zero pos buf = ok []
inline_loop (suc fuel) pos buf =
    let entries = checked_add pos entry_len "revlog inline overflow" >>= λ behind.
    parse_entry buf pos behind >>= λ e.
    checked_add behind e.comp_len "revlog inline overflow" >>= λ next.
    if leb next (length buf)
    then (inline_loop fuel next buf >>= λ rest. ok (e ∷ rest))
    else err (read "revlog inline data runs past end of index") in
    if ltb pos (length buf) then entries else ok []

-- Revlog::parse_inline
unfoldable pub parse_inline : Bytes → Answer (List Entry)
parse_inline buf = inline_loop (length buf) 0 buf

-- Revlog::from_bytes, behind the version word.
unfoldable pub from_version : Bytes → Bytes → ℕ → Answer Revlog
from_version index_bytes data_bytes version =
    if version % 2 ^ 16 == 1
    then if version / 2 ^ 16 % 2 == 1
      then (parse_inline index_bytes >>= λ es.
          ok (record { entries = es; inline = true; index_buf = index_bytes; data_buf = [] }))
      else (parse_split index_bytes >>= λ es.
          ok (record {
            entries = es;
            inline = false;
            index_buf = index_bytes;
            data_buf = data_bytes;
          }))
    else err (read "unsupported revlog format")

unfoldable pub from_bytes : Bytes → Bytes → Answer Revlog
from_bytes [] data_bytes =
    ok (record { entries = []; inline = false; index_buf = []; data_buf = [] })
from_bytes (b ∷ bs) data_bytes = u32_be (b ∷ bs) 0 >>= from_version (b ∷ bs) data_bytes

-- Revlog::chunk; a length read from 32 bits does not overflow the sum.
unfoldable pub chunk : Revlog → ℕ → Answer Bytes
chunk log rev = required (get_elem? log.entries rev) (read "revision out of range") >>= λ e.
    field e.data_pos e.comp_len "revlog chunk out of range"
      (if log.inline then log.index_buf else log.data_buf)

-- The map from nodes to revisions that the readers of node lists build; the last revision of a node counts.
unfoldable pub next_rev : Option ℕ → Bool → Option ℕ
next_rev (some rev) same = some (suc rev)
next_rev none true = some 0
next_rev none false = none

unfoldable pub node_to_rev : List Entry → Bytes → Option ℕ
node_to_rev [] id = none
node_to_rev (e ∷ es) id = next_rev (node_to_rev es id) (text_eq e.node id)
