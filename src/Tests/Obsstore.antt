-- ===== src/Tests/Obsstore.antt =====
-- Mercurial's obsolescence store: a record with a key and a value and one with a SHA-256 precursor.
use brygge.Prelude.{◌≡◌, refl, [], ◌∷◌, ◌++◌, Bytes, ok, err}
use brygge.Hg.{read, resource_limit}
use brygge.Hg.Obsstore.{
  parse_bytes, parse_markers, markers_loop, marker, contents, node_width, parents_width, meta_bytes,
}
use brygge.Hg.Obsstore.Tiled
use brygge.Hg.Obsstore.Tiled.{Tiled}
use brygge.Tests.Sample.{zeros}

abbrev node : Bytes
node = 7 ∷ zeros 19

-- Parents are not recorded, and there is a key and a value of a byte each.
abbrev with_meta : Bytes
with_meta = zeros 3 ++ 43 ∷ zeros 13 ++ 3 ∷ 1 ∷ node ++ 1 ∷ 1 ∷ zeros 2

abbrev with_sha256 : Bytes
with_sha256 = zeros 3 ++ 51 ∷ zeros 11 ++ 2 ∷ zeros 3 ++ zeros 32

two_records : parse_bytes 1000 (1 ∷ with_meta ++ with_sha256) ≡ ok (node ∷ [])
unfolding parse_bytes parse_markers markers_loop marker contents node_width parents_width meta_bytes
two_records = refl

parse_bytes-Tiled_example : Tiled (with_meta ++ with_sha256) (node ∷ [])
parse_bytes-Tiled_example =
    Tiled.parse_bytes-Tiled 1000 1 (with_meta ++ with_sha256) (node ∷ []) two_records

short_record :
    parse_bytes 1000 (1 ∷ zeros 3 ++ 18 ∷ zeros 14)
    ≡ err (read "obsstore: record size smaller than its own fixed header")
unfolding parse_bytes parse_markers markers_loop marker
short_record = refl

too_long : parse_bytes 2 (1 ∷ 2 ∷ 3 ∷ []) ≡ err (resource_limit "the obsstore file" 2)
unfolding parse_bytes
too_long = refl
