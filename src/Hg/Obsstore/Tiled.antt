-- ===== src/Hg/Obsstore/Tiled.antt =====
-- obsstore.rs: a store that parses is records from its version byte to its end.
use brygge.Prelude.{ℕ, zero, suc, ◌+◌, ◌*◌, ◌≤◌, ◌≡◌, ap, arith, List, [], ◌∷◌, ◌++◌, Bytes, String}
use brygge.Prelude.{length, ltb, leb, not, ◌==◌, take, drop, length-drop, if◌then◌else◌, ok}
use brygge.Hg.{read}
use brygge.Hg.Util.{field, be}
use brygge.Hg.Revision.{ensure}
use brygge.Hg.Answers.{Holds, Holds-bind, Holds-then, Holds-ok, ensure-ok, if-ok}
use brygge.Hg.Obsstore.{
  number, node_width, contents, marker, markers_loop, parse_markers, parse_bytes, meta_bytes,
  parents_width,
}
use mathlib.Core.Path.{subst, sym}

abbrev pub declared_size : Bytes → ℕ
declared_size rest = be (take 4 rest)

abbrev pub width_of : Bytes → ℕ
width_of rest = node_width (be (take 2 (drop 14 rest)))

abbrev pub own_node : ℕ → Bytes → List Bytes
own_node width rest = if width == 20 then take width (drop 19 rest) ∷ [] else []

-- Bytes are records, each as long as its first four bytes declare and long enough for its header and its
-- precursor; the nodes are those of the precursors, in order, that are 20 bytes wide.
pub data Tiled : Bytes → List Bytes → Type 0 where
  no_more : Tiled [] []
  record_of :
      (rest : Bytes) (nodes : List Bytes)
      → 19 + width_of rest ≤ declared_size rest
      → declared_size rest ≤ length rest
      → Tiled (drop (declared_size rest) rest) nodes
      → Tiled rest (own_node (width_of rest) rest ++ nodes)

field-slice :
    (at n : ℕ) (what : String) (buf s : Bytes)
    → field at n what buf ≡ ok s
    → s ≡ take n (drop at buf)
field-slice at n what buf s e =
    let c = if-ok (leb (at + n) (length buf)) (ok (take n (drop at buf))) (read what) s e in cc c.1

number-slice :
    (at n : ℕ) (rest : Bytes) → Holds (λ v. v ≡ be (take n (drop at rest))) (number at n rest)
number-slice at n rest =
    Holds-then (λ v. v ≡ be (take n (drop at rest))) (field at n _ rest) _
      (λ s h. ap be (field-slice at n _ rest s h))

abbrev Contents : ℕ → ℕ → Bytes → List Bytes → Type 0
Contents size width rest nodes = (19 + width ≤ size) × (nodes ≡ own_node width rest)

contents_lem :
    (size width numsuc numpar nummeta : ℕ) (rest : Bytes)
    → Holds (Contents size width rest) (contents size width numsuc numpar nummeta rest)
unfolding contents
contents_lem size width numsuc numpar nummeta rest =
    let P = Contents size width rest in
    let pos = 19 + width + numsuc * width + parents_width numpar width in
    Holds-then P (field 19 width _ rest) _ (λ precursor h.
      Holds-then P (field pos (nummeta * 2) _ rest) _ (λ table _.
        let end = pos + nummeta * 2 + meta_bytes table in
        Holds-then P
          (ensure (end == size) (read "obsstore: record contents do not match its declared size")) _
          (λ u same.
            let filled = ensure-ok (end == size) _ u same in
            (
              ground (arith, filled),
              ap (λ s. if width == 20 then s ∷ [] else [])
                  (field-slice 19 width _ rest precursor h),
            ))))

abbrev Marker : Bytes → List Bytes × ℕ → Type 0
Marker rest m =
    (m.1 ≡ declared_size rest) × (m.1 ≤ length rest) × Contents m.1 (width_of rest) rest m.0

marker_lem : (rest : Bytes) → Holds (Marker rest) (marker rest)
unfolding marker
marker_lem rest =
    let P = Marker rest in
    Holds-bind (λ v. v ≡ declared_size rest) P (number 0 4 rest) _ (number-slice 0 4 rest)
      (λ size declared. Holds-then P (ensure (not (ltb size 19)) _) _ (λ _ _.
        Holds-then P (ensure (not (ltb (length rest) size)) _) _ (λ v high.
          Holds-bind (λ f. f ≡ be (take 2 (drop 14 rest))) P (number 14 2 rest) _
            (number-slice 14 2 rest)
            (λ flags hf. Holds-then P (number 16 1 rest) _ (λ numsuc _.
              Holds-then P (number 17 1 rest) _ (λ numpar _.
                Holds-then P (number 18 1 rest) _ (λ nummeta _.
                  Holds-bind (Contents size (node_width flags) rest) P
                    (contents size (node_width flags) numsuc numpar nummeta rest) _
                    (contents_lem size (node_width flags) numsuc numpar nummeta rest)
                    (λ precursor h.
                      let most = ensure-ok (not (ltb (length rest) size)) _ v high in
                      (
                        declared,
                        ground (arith, most),
                        subst (λ f. Contents size (node_width f) rest precursor) hf h,
                      )))))))))

Tiled-record :
    (rest : Bytes) (m : List Bytes × ℕ)
    → Marker rest m
    → (nodes : List Bytes) → Tiled (drop m.1 rest) nodes
    → Tiled rest (m.0 ++ nodes)
Tiled-record rest m (declared, inside, (room, own)) nodes tail =
    subst (λ first. Tiled rest (first ++ nodes)) (sym own)
      (record_of rest nodes (omega (arith, declared, room)) (omega (arith, declared, inside))
        (subst (λ size. Tiled (drop size rest) nodes) declared tail))

markers_loop_lem :
    (fuel : ℕ) (rest : Bytes) → length rest ≤ fuel → Holds (Tiled rest) (markers_loop fuel rest)
unfolding markers_loop
markers_loop_lem fuel [] f = no_more
markers_loop_lem zero (b ∷ rest) f = absurd (omega arith)
markers_loop_lem (suc fuel) (b ∷ rest) f =
    let P = Tiled (b ∷ rest) in
    Holds-bind (Marker (b ∷ rest)) P (marker (b ∷ rest)) _ (marker_lem (b ∷ rest)) (λ m h.
      Holds-bind (Tiled (drop m.1 (b ∷ rest))) P (markers_loop fuel (drop m.1 (b ∷ rest))) _
        (markers_loop_lem fuel (drop m.1 (b ∷ rest)) (omega (arith, length-drop m.1 (b ∷ rest))))
        (λ nodes tail. Tiled-record (b ∷ rest) m h nodes tail))

parse_markers_lem :
    (version : ℕ) (rest : Bytes) → Holds (Tiled rest) (parse_markers (version ∷ rest))
unfolding parse_markers
parse_markers_lem version rest =
    Holds-then (Tiled rest) (ensure (version == 1) _) _
      (λ _ _. markers_loop_lem (length rest) rest (omega arith))

-- A store that is read and is not empty is records from behind its version byte to its end, each as long as it
-- declares, with nothing between them or left over; the nodes returned are the precursors of these records
-- that are 20 bytes wide, in order.
pub parse_bytes-Tiled :
    (limit version : ℕ) (rest : Bytes) (nodes : List Bytes)
    → parse_bytes limit (version ∷ rest) ≡ ok nodes
    → Tiled rest nodes
unfolding parse_bytes
parse_bytes-Tiled limit version rest nodes =
    Holds-ok (Tiled rest) (parse_bytes limit (version ∷ rest)) nodes (
      Holds-then (Tiled rest) (ensure (not (ltb limit (length (version ∷ rest)))) _) _
        (λ _ _. parse_markers_lem version rest))
