-- ===== src/Hg/Chunks.antt =====
-- revlog.rs: where the chunks of a parsed revlog lie.
use brygge.Prelude.{ℕ, zero, suc, ◌+◌, ◌*◌, ◌/◌, ◌%◌, ◌≤◌, ◌≡◌, refl, ap, arith, true}
use brygge.Prelude.{List, [], ◌∷◌, some, Bytes, length, ltb, leb, leb→le, ok}
use brygge.Prelude.{◌==◌, String, ◌^◌, get_elem?, take, drop}
use brygge.Hg.Util.{field}
use brygge.Hg.Revlog.{
  Entry, Revlog, u32_be, u64_be, parse_entry, checked_add, inline_loop, parse_inline, split_loop,
  parse_split, chunk, from_version, from_bytes,
}
use brygge.Hg.Answers.{
  Holds, Holds-bind, Holds-then, Holds-if, Holds-ok, field-ok, field-inside, length-slice,
}
use mathlib.Core.Path.{subst}

-- The entries' chunks from `pos` up to `end`, each behind a gap of `gap` bytes.
unfoldable pub Laid : ℕ → ℕ → List Entry → ℕ → Type 0
Laid gap pos [] end = pos ≡ end
Laid gap pos (e ∷ es) end = (e.data_pos ≡ pos + gap) × Laid gap (pos + gap + e.comp_len) es end

abbrev Parsed : ℕ → Entry → Type 0
Parsed pos e = (e.data_pos ≡ pos) × (length e.node ≡ 20)

parse_entry_lem : (buf : Bytes) (at pos : ℕ) → Holds (Parsed pos) (parse_entry buf at pos)
unfolding parse_entry
parse_entry_lem buf at pos =
    let P = Parsed pos in
    Holds-then P (u64_be buf at) _ (λ _ _. Holds-then P (u32_be buf (at + 8)) _ (λ _ _.
      Holds-then P (u32_be buf (at + 12)) _ (λ _ _. Holds-then P (u32_be buf (at + 16)) _ (λ _ _.
        Holds-then P (u32_be buf (at + 20)) _ (λ _ _. Holds-then P (u32_be buf (at + 24)) _ (λ _ _.
          Holds-then P (u32_be buf (at + 28)) _ (λ _ _.
            Holds-then P (field (at + 32) 20 _ buf) _
              (λ id h. (refl, (field-ok (at + 32) 20 _ buf id h).1)))))))))

checked_add_lem : (a b : ℕ) (what : String) → Holds (λ c. c ≡ a + b) (checked_add a b what)
checked_add_lem a b what =
    Holds-if (λ c. c ≡ a + b) (ltb (a + b) (2 ^ 64)) (ok (a + b)) _ (λ _. refl) (λ _. tt)

inline_loop_lem :
    (fuel pos : ℕ) (buf : Bytes)
    → length buf ≤ pos + fuel
    → pos ≤ length buf
    → Holds (λ es. Laid 64 pos es (length buf)) (inline_loop fuel pos buf)
unfolding inline_loop Laid
inline_loop_lem zero pos buf f h = omega arith
inline_loop_lem (suc fuel) pos buf f h =
    let P : List Entry → Type 0 = λ es. Laid 64 pos es (length buf) in
    Holds-if P (ltb pos (length buf)) _ (ok [])
      (λ _.
        Holds-bind (λ c. c ≡ pos + 64) P (checked_add pos 64 _) _ (checked_add_lem pos 64 _)
          (λ behind hb.
            Holds-bind (Parsed behind) P (parse_entry buf pos behind) _
              (parse_entry_lem buf pos behind)
              (λ e he.
                Holds-bind (λ c. c ≡ behind + e.comp_len) P (checked_add behind e.comp_len _) _
                  (checked_add_lem behind e.comp_len _)
                  (λ next hn.
                    Holds-if P (leb next (length buf)) _ _
                      (λ inside.
                        Holds-bind (λ es. Laid 64 next es (length buf)) P
                          (inline_loop fuel next buf) _
                          (inline_loop_lem fuel next buf (omega arith)
                            (leb→le next (length buf) inside))
                          (λ es laid. (
                            omega arith,
                            subst (λ t. Laid 64 t es (length buf)) (omega arith) laid,
                          )))
                      (λ _. tt)))))
      (λ past. ground arith)

split_loop_lem :
    (n rev pos : ℕ) (buf : Bytes)
    → Holds (λ es. (length es ≡ n) × (end : ℕ) × Laid 0 pos es end) (split_loop n rev pos buf)
unfolding split_loop Laid
split_loop_lem zero rev pos buf = (refl, pos, refl)
split_loop_lem (suc n) rev pos buf =
    let P : List Entry → Type 0 = λ es. (length es ≡ suc n) × (end : ℕ) × Laid 0 pos es end in
    Holds-bind (Parsed pos) P (parse_entry buf (rev * 64) pos) _
      (parse_entry_lem buf (rev * 64) pos)
      (λ e he.
        Holds-bind (λ c. c ≡ pos + e.comp_len) P (checked_add pos e.comp_len _) _
          (checked_add_lem pos e.comp_len _)
          (λ next hn.
            Holds-bind (λ es. (length es ≡ n) × (end : ℕ) × Laid 0 next es end) P
              (split_loop n (suc rev) next buf) _ (split_loop_lem n (suc rev) next buf)
              (λ es h.
                (ap suc h.0, h.1, (omega arith, subst (λ t. Laid 0 t es h.1) (omega arith) h.2)))))

-- An inline revlog that parses is cut without remainder: the entries, each behind its 64 bytes, and their
-- chunks fill the buffer from its start to its end in order.
pub parse_inline-Laid :
    (buf : Bytes) (es : List Entry) → parse_inline buf ≡ ok es → Laid 64 0 es (length buf)
unfolding parse_inline
parse_inline-Laid buf es e =
    Holds-ok (λ es. Laid 64 0 es (length buf)) (parse_inline buf) es
      (inline_loop_lem (length buf) 0 buf (omega arith) (omega arith)) e

-- What stands behind a revision's entry.
abbrev Stored : Revlog → Type 0
Stored log = log.inline ≡ true → Laid 64 0 log.entries (length log.index_buf)

from_version_lem : (i d : Bytes) (v : ℕ) → Holds Stored (from_version i d v)
unfolding from_version
from_version_lem i d v =
    Holds-if Stored (v % 2 ^ 16 == 1) _ _
      (λ _.
        Holds-if Stored (v / 2 ^ 16 % 2 == 1) _ _
          (λ _. Holds-then Stored (parse_inline i) _ (λ es h _. parse_inline-Laid i es h))
          (λ _. Holds-then Stored (parse_split i) _ (λ es h k. absurd (cc k))))
      (λ _. tt)

from_bytes_lem : (i d : Bytes) → Holds Stored (from_bytes i d)
unfolding from_bytes
from_bytes_lem [] d = λ h. absurd (cc h)
from_bytes_lem (b ∷ bs) d =
    Holds-then Stored (u32_be (b ∷ bs) 0) _ (λ v _. from_version_lem (b ∷ bs) d v)

Laid-le : (gap pos : ℕ) (es : List Entry) (end : ℕ) → Laid gap pos es end → pos ≤ end
unfolding Laid
Laid-le gap pos [] end l = omega arith
Laid-le gap pos (e ∷ es) end l = omega (arith, Laid-le gap (pos + gap + e.comp_len) es end l.1)

Laid-inside :
    (gap pos : ℕ) (es : List Entry) (end : ℕ) (rev : ℕ) (e : Entry)
    → Laid gap pos es end
    → get_elem? es rev ≡ some e
    → (pos + gap ≤ e.data_pos) × (e.data_pos + e.comp_len ≤ end)
unfolding Laid
Laid-inside gap pos [] end rev e l h = absurd (cc h)
Laid-inside gap pos (d ∷ es) end zero e l h =
    let same : d ≡ e = cc h in
    omega (
      arith,
      ap (λ t. t.data_pos) same,
      ap (λ t. t.comp_len) same,
      Laid-le gap (pos + gap + d.comp_len) es end l.1,
    )
Laid-inside gap pos (d ∷ es) end (suc rev) e l h =
    let r = Laid-inside gap (pos + gap + d.comp_len) es end rev e l.1 h in (omega arith, r.1)

-- Reading back where the entries say that the chunks lie never fails on an inline revlog that parses: every
-- revision of it has its stored chunk, of the length in its entry.
pub chunk-from_bytes :
    (i d : Bytes) (log : Revlog) (rev : ℕ) (e : Entry)
    → from_bytes i d ≡ ok log
    → log.inline ≡ true
    → get_elem? log.entries rev ≡ some e
    → (s : Bytes) × (chunk log rev ≡ ok s) × (length s ≡ e.comp_len)
unfolding chunk
chunk-from_bytes i d log rev e parsed inl there =
    let laid = Holds-ok Stored (from_bytes i d) log (from_bytes_lem i d) parsed inl in
    let inside = (Laid-inside 64 0 log.entries (length log.index_buf) rev e laid there).1 in
    (
      take e.comp_len (drop e.data_pos log.index_buf),
      rw (there, inl) (field-inside e.data_pos e.comp_len _ log.index_buf inside),
      length-slice e.data_pos e.comp_len log.index_buf inside,
    )
