-- ===== src/Tests/Hg.antt =====
-- Mercurial: three changesets, the last of them a secret child of the first, and a revlog of one revision.
use brygge.Prelude.{ℕ, ◌≤◌, ◌≡◌, refl, arith, true, false, List, [], ◌∷◌, ◌++◌, none, some, Bytes}
use brygge.Prelude.{length, get_or, ok, err, ◌⊎◌, ◌↔◌, ◌-◌, ◌^◌}
use brygge.Prelude.Utf8.{codes, text_eq, text_ltb}
use brygge.Hg.{read}
use brygge.Hg.Util.{hexval, hex_pairs, parse_hex20}
use brygge.Hg.Revlog.{
  Entry, Revlog, parent_rev, next_rev, node_to_rev, parse_entry, inline_loop, parse_inline,
  from_version, from_bytes, chunk,
}
use brygge.Hg.Revision.{
  Libraries, broken, decompress, mpatch, check_flags, base_chain, patch_chain, rebuild, parent_node,
  check_revision_hash, verify_node, revision_with,
}
use brygge.Hg.Chunks
use brygge.Hg.Chunks.{Laid}
use brygge.Hg.Patch
use brygge.Hg.Patch.{Hunk, encode, splice}
use brygge.Hg.Verified
use brygge.Hg.Verified.{Chained, Genuine}
use brygge.Hg.Ancestry.{Ancestor, ParentsFirst, in_order, in_order-ParentsFirst}
use brygge.Hg.Phases.{Root, declare_at, declare, inherit, compute as phases_compute}
use brygge.Hg.Phases.Roots
use brygge.Hg.Phases.Roots.{Declared}
use brygge.Hg.Published
use brygge.Hg.Published.{Files, PublishedView, compute}
use brygge.Hg.Published.Visible
use brygge.Hg.Published.Visible.{Marked, Seeded}
use brygge.Hg.Published.Closed
use brygge.Hg.Published.Closed.{Whole, Consistent}
use brygge.Tests.Sample.{zeros}

abbrev null : ℕ
null = 2 ^ 32 - 1

abbrev changeset : ℕ → ℕ → Entry
changeset name parent = record {
  flags = 0;
  base_rev = null;
  link_rev = 0;
  p1 = parent;
  p2 = null;
  node = name ∷ zeros 19;
  data_pos = 0;
  comp_len = 0;
  uncomp_len = 0;
}

abbrev three : List Entry
three = changeset 1 null ∷ changeset 2 0 ∷ changeset 3 0 ∷ []

abbrev secret_root : List Root
secret_root = (2, 3 ∷ zeros 19) ∷ (1, 2 ∷ zeros 19) ∷ []

three_first : ParentsFirst three
unfolding in_order parent_rev
three_first = in_order-ParentsFirst three refl

phases_of_three : phases_compute three (some secret_root) ≡ 0 ∷ 1 ∷ 2 ∷ []
unfolding phases_compute declare declare_at inherit node_to_rev next_rev text_eq parent_rev
phases_of_three = refl

compute-greatest_example :
    ((d r : ℕ)
      → Declared three secret_root d r
      → Ancestor three r 2
      → d ≤ get_or (phases_compute three (some secret_root)) 2 0)
    × ((get_or (phases_compute three (some secret_root)) 2 0 ≡ 0)
        ⊎ ((r : ℕ) × Declared three secret_root
              (get_or (phases_compute three (some secret_root)) 2 0)
              r
            × Ancestor three r 2))
compute-greatest_example = Roots.compute-greatest three secret_root 2 three_first

abbrev files : Files
files = record {
  merge_state = false;
  phaseroots = some secret_root;
  precursors = (2 ∷ zeros 19) ∷ [];
  bookmark_list = record { name = codes "here"; node = 1 ∷ zeros 19 } ∷ [];
  dirstate = none;
  localtags = [];
}

no_dirstate : Whole none
unfolding Whole
no_dirstate = tt

compute-Consistent_example : (v : PublishedView) × (compute three files ≡ ok v) × Consistent three v
compute-Consistent_example = Closed.compute-Consistent three files three_first refl no_dirstate

visible_set_iff_example :
    Marked (Published.visible_set three (true ∷ true ∷ true ∷ []) (false ∷ true ∷ false ∷ [])) 0 ↔ (
      (d : ℕ) × Seeded three (true ∷ true ∷ true ∷ []) (false ∷ true ∷ false ∷ []) d
      × Ancestor three 0 d)
visible_set_iff_example =
    Visible.visible_set_iff three (true ∷ true ∷ true ∷ []) (false ∷ true ∷ false ∷ []) three_first
      0

abbrev new_text : List Hunk
new_text =
    record { start = 1; end = 2; new = codes "xy" }
    ∷ record { start = 3; end = 3; new = codes "z" }
    ∷ []

mpatch-splice_example :
    mpatch 10 (codes "abc") (encode new_text) ≡ ok (splice (codes "abc") new_text)
mpatch-splice_example =
    Patch.mpatch-splice 10 (codes "abc") new_text (omega arith)
      (
        omega arith,
        omega arith,
        omega arith,
        omega arith,
        (omega arith, omega arith, omega arith, omega arith, tt),
      )
      (omega arith)

spliced : splice (codes "abc") new_text ≡ codes "axycz"
spliced = refl

-- An inline revlog with one revision, the text "hi" stored raw.
abbrev node_of_hi : Bytes
node_of_hi = 9 ∷ zeros 19

abbrev hi_index : Bytes
hi_index =
    0 ∷ 1 ∷ 0 ∷ 1 ∷ zeros 4
    ++ (0 ∷ 0 ∷ 0 ∷ 3 ∷ 0 ∷ 0 ∷ 0 ∷ 2 ∷ zeros 8
        ++ (255 ∷ 255 ∷ 255 ∷ 255 ∷ 255 ∷ 255 ∷ 255 ∷ 255 ∷ node_of_hi
            ++ (zeros 12 ++ (b'u' ∷ codes "hi"))))

abbrev hi_entry : Entry
hi_entry = record {
  flags = 0;
  base_rev = 0;
  link_rev = 0;
  p1 = null;
  p2 = null;
  node = node_of_hi;
  data_pos = 64;
  comp_len = 3;
  uncomp_len = 2;
}

abbrev hi_log : Revlog
hi_log = record { entries = hi_entry ∷ []; inline = true; index_buf = hi_index; data_buf = [] }

hi_entries : parse_inline hi_index ≡ ok (hi_entry ∷ [])
unfolding parse_inline inline_loop parse_entry
hi_entries = refl

hi_read : from_bytes hi_index [] ≡ ok hi_log
unfolding from_bytes from_version parse_inline inline_loop parse_entry
hi_read = refl

parse_inline-Laid_example : Laid 64 0 (hi_entry ∷ []) (length hi_index)
parse_inline-Laid_example = Chunks.parse_inline-Laid hi_index (hi_entry ∷ []) hi_entries

chunk-from_bytes_example : (s : Bytes) × (chunk hi_log 0 ≡ ok s) × (length s ≡ 3)
chunk-from_bytes_example = Chunks.chunk-from_bytes hi_index [] hi_log 0 hi_entry hi_read refl refl

-- Nothing is compressed, and the digest is always the one of the revision.
abbrev lib : Libraries
lib = record { zlib = λ n b. broken; zstd = λ w n b. broken; sha1 = λ b. some node_of_hi }

hi_text : revision_with lib 100 hi_log 0 ≡ ok (codes "hi")
unfolding revision_with check_flags base_chain rebuild patch_chain chunk decompress verify_node
    parent_node check_revision_hash text_eq text_ltb
hi_text = refl

revision_with-Genuine_example : Genuine lib hi_log 0 (codes "hi")
revision_with-Genuine_example = Verified.revision_with-Genuine lib 100 hi_log 0 (codes "hi") hi_text

abbrev delta_entry : Entry
delta_entry = record hi_entry { base_rev = 0 }

delta_chain : base_chain 2 (hi_entry ∷ delta_entry ∷ []) 0 1 ≡ ok (0 ∷ 1 ∷ [])
unfolding base_chain
delta_chain = refl

base_chain-Chained_example : Chained (hi_entry ∷ delta_entry ∷ []) 1 (0 ∷ 1 ∷ [])
base_chain-Chained_example =
    Verified.base_chain-Chained (hi_entry ∷ delta_entry ∷ []) 1 (0 ∷ 1 ∷ []) delta_chain

hex_node : hex_pairs (codes "0aF9") ≡ ok (10 ∷ 249 ∷ [])
unfolding hex_pairs hexval
hex_node = refl

short_node : parse_hex20 (codes "0a") ≡ err (read "expected a 40-character hex node")
unfolding parse_hex20
short_node = refl
