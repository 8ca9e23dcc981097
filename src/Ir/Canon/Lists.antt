-- ===== src/Ir/Canon/Lists.antt =====
-- Lists and maps: what the writer frames, the reader reads back.
use brygge.Prelude.{ℕ, ◌+◌, ◌≤◌, ◌<◌, ◌^◌, ◌≡◌, sym, ap, ◌∙◌, arith, true, List, [], ◌∷◌, ◌++◌, map}
use brygge.Prelude.{
  Option, none, some, Bytes, length, length-append, All, length-map, Result, ok, append_assoc,
}
use brygge.Prelude.{leb, le→leb}
use brygge.Prelude.Utf8.{is_utf8}
use brygge.Ir.Error.{Error}
use brygge.Ir.Canon.Writer.{
  uvarint_value, concat, list_value, entry_bytes, entries_bytes, map_value,
}
use brygge.Ir.Canon.Reader.{
  Reader, Read, and_then, ◌>>=◌, ◌>>◌, pure, ensure, uvarint, remaining_at_least, uvarint_len, text,
  list_items, list, ascends, map_entries, read_map,
}
use brygge.Ir.Canon.Reads.{
  at, pos_append, Reads, Reads-bind, Reads-then, Reads-last, Reads-pure, Reads-ensure, Reads-text,
  Reads-cast,
}
use brygge.Ir.Canon.Varint.{uvarint-uvarint_value}

abbrev pub Fits : Bytes → Type 0
Fits bs = length bs < 2 ^ 64

-- A declared length in front of as many bytes at least passes the check against the input.
pub Reads-uvarint_len :
    {B : Type 0} (f : ℕ → Read B) {len : ℕ} {cs : Bytes} {b : B}
    → len < 2 ^ 64
    → len ≤ length cs
    → Reads (f len) cs b
    → Reads (uvarint_len >>= f) (uvarint_value len ++ cs) b
unfolding uvarint_len
Reads-uvarint_len f {len} {cs} {b} h enough r = record {
  run = λ rest pos sk.
      let there : leb len (length (cs ++ rest)) ≡ true =
        le→leb len (length (cs ++ rest)) (omega (arith, length-append cs rest)) in
      ap
        (λ (m : Result Error (ℕ × Reader)).
          and_then f (and_then (λ n. remaining_at_least n >> pure n) m))
        (ap (λ x. uvarint (at x pos sk)) (append_assoc (uvarint_value len) cs rest)
          ∙ (uvarint-uvarint_value len h).run (cs ++ rest) pos sk)
      ∙ rw there (
          r.run rest (pos + length (uvarint_value len)) sk
          ∙ ap (λ p. ok (b, at rest p sk)) (pos_append pos (uvarint_value len) cs));
}

module _ {A : Type 0} (item : Read A) (enc : A → Bytes) where
  -- Each item is read back, if its bytes fit the machine.
  abbrev pub Items : List A → Type 0
  Items = All (λ x. Fits (enc x) → Reads item (enc x) x)

  list_items-concat :
      (xs : List A)
      → Items xs
      → Fits (concat (map enc xs))
      → Reads (list_items (length xs) item) (concat (map enc xs)) xs
  unfolding list_items concat
  list_items-concat [] h fits = Reads-pure []
  list_items-concat (x ∷ xs) (hx, hxs) fits =
      let total : length (concat (map enc (x ∷ xs)))
          ≡ length (enc x) + length (concat (map enc xs)) =
        length-append (enc x) (concat (map enc xs)) in
      Reads-bind item _ (hx (omega arith)) (
        Reads-last (list_items (length xs) item) _ (list_items-concat xs hxs (omega arith))
          (Reads-pure (x ∷ xs)))

  -- A list of fewer than 2 ^ 64 items, whose encoding is shorter than 2 ^ 64 bytes, is read back from what
  -- `list_value` writes, where each item whose bytes fit is read back by the item reader.
  pub list-list_value :
      (xs : List A)
      → length xs < 2 ^ 64
      → Items xs
      → Fits (list_value (map enc xs))
      → Reads (list item) (list_value (map enc xs)) xs
  unfolding list list_value
  list-list_value xs hn h fits =
      let total : length (uvarint_value (length (map enc xs)) ++ concat (map enc xs))
          ≡ length (uvarint_value (length (map enc xs))) + length (concat (map enc xs)) =
        length-append (uvarint_value (length (map enc xs))) (concat (map enc xs)) in
      Reads-bind uvarint _ (rw (length-map xs enc) (uvarint-uvarint_value (length xs) hn))
        (list_items-concat xs h (omega arith))

-- The keys ascend, and keys and values are texts.
abbrev pub Entries : Option Bytes → List (Bytes × Bytes) → Type 0
Entries last [] = Unit
Entries last ((k, v) ∷ es) =
    (ascends last k ≡ true) × (is_utf8 k ≡ true) × (is_utf8 v ≡ true) × Entries (some k) es

entry_parts :
    (k v rest : Bytes)
    → entry_bytes (k, v) ++ rest
      ≡ uvarint_value (length k) ++ (k ++ (uvarint_value (length v) ++ (v ++ rest)))
unfolding entry_bytes
entry_parts k v rest = simp append_assoc

length-parts :
    (a b c d e : Bytes)
    → length (a ++ (b ++ (c ++ (d ++ e)))) ≡ length a + length b + length c + length d + length e
length-parts a b c d e = omega (
  arith,
  length-append a (b ++ (c ++ (d ++ e))),
  length-append b (c ++ (d ++ e)),
  length-append c (d ++ e),
  length-append d e,
)

map_entries-entries_bytes :
    (last : Option Bytes) (es : List (Bytes × Bytes))
    → Entries last es
    → Fits (entries_bytes es)
    → Reads (map_entries (length es) last) (entries_bytes es) es
unfolding map_entries entries_bytes
map_entries-entries_bytes last [] h fits = Reads-pure []
map_entries-entries_bytes last ((k, v) ∷ es) (up, tk, tv, hs) fits =
    let lk : Bytes = uvarint_value (length k) in
    let lv : Bytes = uvarint_value (length v) in
    let total : length (entry_bytes (k, v) ++ entries_bytes es)
        ≡ length lk + length k + length lv + length v + length (entries_bytes es) =
      ap length (entry_parts k v (entries_bytes es)) ∙ length-parts lk k lv v (entries_bytes es) in
    Reads-cast _ (sym (entry_parts k v (entries_bytes es))) (
      Reads-uvarint_len _ (omega arith)
        (omega (arith, length-append k (lv ++ (v ++ entries_bytes es))))
        (Reads-bind (text (length k)) _ (Reads-text k tk) (
          Reads-uvarint_len _ (omega arith) (omega (arith, length-append v (entries_bytes es))) (
            Reads-bind (text (length v)) _ (Reads-text v tv) (
              Reads-then (ensure (ascends last k) _) _ (Reads-ensure _ _ up) (
                Reads-last (map_entries (length es) (some k)) _
                  (map_entries-entries_bytes (some k) es hs (omega arith))
                  (Reads-pure ((k, v) ∷ es))))))))

-- A map of fewer than 2 ^ 64 entries, with ascending keys and texts for keys and values, is read back from
-- what `map_value` writes, if that is shorter than 2 ^ 64 bytes.
pub read_map-map_value :
    (es : List (Bytes × Bytes))
    → length es < 2 ^ 64
    → Entries none es
    → Fits (map_value es)
    → Reads read_map (map_value es) es
unfolding read_map map_value
read_map-map_value es hn h fits = Reads-bind uvarint _ (uvarint-uvarint_value (length es) hn) (
    map_entries-entries_bytes none es h
      (omega (arith, length-append (uvarint_value (length es)) (entries_bytes es))))
