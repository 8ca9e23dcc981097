-- ===== src/Hg/Obsstore.antt =====
-- obsstore.rs: the precursors in the store of obsolescence markers. A position is what is left behind it; a file
-- has less than 2 ^ 64 bytes.
pub mod Tiled
use brygge.Prelude.{
  ℕ, zero, suc, ◌+◌, ◌*◌, ◌/◌, ◌%◌, ◌^◌, Bool, true, false, not, List, [], ◌∷◌, ◌++◌, Bytes,
}
use brygge.Prelude.{length, leb, ltb, ◌==◌, if◌then◌else◌, ok, err, drop}
use brygge.Hg.{Error, read, resource_limit, unsupported_format, Answer}
use brygge.Hg.Util.{◌>>=◌, field, be}
use brygge.Hg.Revision.{ensure}

abbrev format_version : ℕ
format_version = 1

abbrev pub fixed_header_len : ℕ
fixed_header_len = 19

abbrev numpar_unknown : ℕ
numpar_unknown = 3

-- u32_be, u16_be and byte_at
abbrev pub number : ℕ → ℕ → Bytes → Answer ℕ
number at n rest = field at n "obsstore: truncated" rest >>= λ s. ok (be s)

-- The sizes of the keys and of the values.
unfoldable pub meta_bytes : Bytes → ℕ
meta_bytes [] = 0
meta_bytes (k ∷ []) = 0
meta_bytes (k ∷ v ∷ table) = k + v + meta_bytes table

-- The bit `usingsha256` of the flags.
unfoldable pub node_width : ℕ → ℕ
node_width flags = if flags / 2 % 2 == 0 then 20 else 32

unfoldable pub parents_width : ℕ → ℕ → ℕ
parents_width numpar width = if numpar == numpar_unknown then 0 else numpar * width

-- Behind the fixed header: the precursor, unless it is one of SHA-256, if the contents fill the declared size.
unfoldable pub contents : ℕ → ℕ → ℕ → ℕ → ℕ → Bytes → Answer (List Bytes)
contents size width numsuc numpar nummeta rest =
    field fixed_header_len width "obsstore: truncated precursor node" rest >>= λ precursor.
    let pos = fixed_header_len + width + numsuc * width + parents_width numpar width in
    field pos (nummeta * 2) "obsstore: truncated metadata size table" rest >>= λ table.
    ensure (pos + nummeta * 2 + meta_bytes table == size)
      (read "obsstore: record contents do not match its declared size")
    >>= λ _. ok (if width == 20 then precursor ∷ [] else [])

-- One record: its precursor and its size.
unfoldable pub marker : Bytes → Answer (List Bytes × ℕ)
marker rest = number 0 4 rest >>= λ size.
    ensure (not (ltb size fixed_header_len))
      (read "obsstore: record size smaller than its own fixed header")
    >>= λ _.
        ensure (not (ltb (length rest) size)) (read "obsstore: record extends past end of file")
        >>= λ _. number 14 2 rest >>= λ flags. number 16 1 rest >>= λ numsuc.
            number 17 1 rest >>= λ numpar. number 18 1 rest >>= λ nummeta.
            contents size (node_width flags) numsuc numpar nummeta rest >>= λ precursor.
            ok (precursor, size)

-- The loop of parse_bytes. A record takes 19 bytes, so the length of what is left is enough fuel. The set of nodes
-- is a list of them.
unfoldable pub markers_loop : ℕ → Bytes → Answer (List Bytes)
markers_loop fuel [] = ok []
markers_loop zero (b ∷ rest) = ok []
markers_loop (suc fuel) (b ∷ rest) = marker (b ∷ rest) >>= λ m.
    markers_loop fuel (drop m.1 (b ∷ rest)) >>= λ nodes. ok (m.0 ++ nodes)

-- parse_bytes, behind the limit.
unfoldable pub parse_markers : Bytes → Answer (List Bytes)
parse_markers [] = ok []
parse_markers (version ∷ rest) =
    ensure (version == format_version)
      (unsupported_format "obsstore format" "only obsstore format version 1 is implemented")
    >>= λ _. markers_loop (length rest) rest

-- parse_bytes
unfoldable pub parse_bytes : ℕ → Bytes → Answer (List Bytes)
parse_bytes limit bytes =
    ensure (not (ltb limit (length bytes))) (resource_limit "the obsstore file" limit) >>= λ _.
    parse_markers bytes
