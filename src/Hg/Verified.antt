-- ===== src/Hg/Verified.antt =====
-- revlog.rs, `revision_with`: a text that is returned is the one the node names.
use brygge.Prelude.{
  ℕ, zero, suc, ◌<◌, ◌≡◌, refl, ap, sym, ◌∙◌, inl, inr, none, ◌⊎◌, ◌||◌, arith, true, List, [], ◌∷◌,
  ◌++◌, Bytes, length,
}
use brygge.Prelude.{Option, some, get_elem?, ok, err, if◌then◌else◌, ◌==◌, ltb, leb, Bool, false}
use brygge.Prelude.Utf8.{text_eq, text_eq→eq, text_ltb}
use mathlib.Core.Path.{subst}
use brygge.Hg.{read, Answer}
use brygge.Hg.Util.{◌>>=◌, required}
use brygge.Hg.Revlog.{Entry, Revlog, chunk, index}
use brygge.Hg.Revision.{
  Libraries, ensure, check_flags, base_chain, check_length, decompress, mpatch, patch_chain,
  rebuild, parent_node, check_revision_hash, verify_node, revision_with,
}
use brygge.Hg.Answers.{
  Holds, Holds-bind, Holds-then, Holds-if, Holds-ok, Holds-map, required-ok, ensure-ok, ok-Holds,
}

-- The two parents' nodes in ascending order, then the text.
abbrev pub Hashed : Libraries → Bytes → Bytes → Bytes → Bytes → Type 0
Hashed lib id first second text =
    lib.sha1 (if text_ltb second first then second ++ first ++ text else first ++ second ++ text)
    ≡ some id

hash_lem :
    (lib : Libraries) (id lo hi text : Bytes)
    → Holds (λ _. lib.sha1 (lo ++ hi ++ text) ≡ some id) (check_revision_hash lib id lo hi text)
unfolding check_revision_hash
hash_lem lib id lo hi text =
    let P : Unit {0} → Type 0 = λ _. lib.sha1 (lo ++ hi ++ text) ≡ some id in
    Holds-then P (required (lib.sha1 (lo ++ hi ++ text)) _) _ (λ digest h.
      ok-Holds P (ensure (text_eq digest id) _) (λ u k.
        let found = required-ok (lib.sha1 (lo ++ hi ++ text)) _ digest h in
        let same = text_eq→eq digest id (ensure-ok (text_eq digest id) _ u k) in
        found ∙ ap some same))

ordered_hash_lem :
    (lib : Libraries) (id first second text : Bytes) (swap : Bool)
    → Holds
        (λ _.
          lib.sha1 (if swap then second ++ first ++ text else first ++ second ++ text) ≡ some id)
        (if swap
          then check_revision_hash lib id second first text
          else check_revision_hash lib id first second text)
ordered_hash_lem lib id first second text true = hash_lem lib id second first text
ordered_hash_lem lib id first second text false = hash_lem lib id first second text

-- What the entry of a revision says of its text.
pub record Genuine (lib : Libraries) (log : Revlog) (rev : ℕ) (text : Bytes) : Type 0 where
  pub entry : Entry
  pub first : Bytes
  pub second : Bytes
  pub there : get_elem? log.entries rev ≡ some entry
  pub parent1 : parent_node log entry.p1 ≡ ok first
  pub parent2 : parent_node log entry.p2 ≡ ok second
  pub hashed : Hashed lib entry.node first second text
  pub sized : length text ≡ entry.uncomp_len

Sized : Revlog → ℕ → Bytes → Type 0
Sized log rev text =
    (e : Entry) × (get_elem? log.entries rev ≡ some e) × (length text ≡ e.uncomp_len)

verify_lem :
    (lib : Libraries) (log : Revlog) (rev : ℕ) (text : Bytes)
    → Sized log rev text
    → Holds (λ _. Genuine lib log rev text) (verify_node lib log rev text)
unfolding verify_node Sized
verify_lem lib log rev text size =
    let P : Unit {0} → Type 0 = λ _. Genuine lib log rev text in
    Holds-then P (required (get_elem? log.entries rev) _) _ (λ e he.
      Holds-then P (parent_node log e.p1) _ (λ first h1.
        Holds-then P (parent_node log e.p2) _ (λ second h2.
          let at = required-ok (get_elem? log.entries rev) _ e he in
          let same : size.0 ≡ e = cc (at, size.1) in
          let long : length text ≡ e.uncomp_len = size.2 ∙ ap (λ t. t.uncomp_len) same in
          Holds-map (λ _. Hashed lib e.node first second text) P _
            (λ _ digest. record {
              entry = e;
              first = first;
              second = second;
              there = at;
              parent1 = h1;
              parent2 = h2;
              hashed = digest;
              sized = long;
            })
            (ordered_hash_lem lib e.node first second text (text_ltb second first)))))

check_length_lem :
    (log : Revlog) (rev : ℕ) (text : Bytes) → Holds (Sized log rev) (check_length log rev text)
unfolding Sized
check_length_lem log rev text =
    let P = Sized log rev in
    Holds-then P (required (get_elem? log.entries rev) _) _ (λ e he.
      Holds-if P (length text == e.uncomp_len) (ok text) _
        (λ same. (e, required-ok (get_elem? log.entries rev) _ e he, ground arith)) (λ _. tt))

-- The last step is the revision's own.
patch_chain_lem :
    (lib : Libraries) (limit : ℕ) (log : Revlog) (before : List ℕ) (rev : ℕ) (text : Bytes)
    → Holds (Sized log rev) (patch_chain lib limit log (before ++ rev ∷ []) text)
unfolding patch_chain
patch_chain_lem lib limit log [] rev text =
    let P = Sized log rev in
    Holds-then P (chunk log rev) _ (λ stored _.
      Holds-then P (decompress lib limit stored) _ (λ delta _.
        Holds-then P (mpatch limit text delta) _ (λ patched _.
          Holds-bind P P (check_length log rev patched) _ (check_length_lem log rev patched)
            (λ _ size. size))))
patch_chain_lem lib limit log (r ∷ before) rev text =
    let P = Sized log rev in
    Holds-then P (chunk log r) _ (λ stored _.
      Holds-then P (decompress lib limit stored) _ (λ delta _.
        Holds-then P (mpatch limit text delta) _ (λ patched _.
          Holds-then P (check_length log r patched) _
            (λ text' _. patch_chain_lem lib limit log before rev text'))))

rebuild_lem :
    (lib : Libraries) (limit : ℕ) (log : Revlog) (before : List ℕ) (rev : ℕ)
    → Holds (Sized log rev) (rebuild lib limit log (before ++ rev ∷ []))
unfolding rebuild patch_chain
rebuild_lem lib limit log [] rev =
    let P = Sized log rev in
    Holds-then P (chunk log rev) _ (λ stored _.
      Holds-then P (decompress lib limit stored) _ (λ raw _.
        Holds-bind P P (check_length log rev raw) _ (check_length_lem log rev raw)
          (λ _ size. size)))
rebuild_lem lib limit log (r ∷ before) rev =
    let P = Sized log rev in
    Holds-then P (chunk log r) _ (λ stored _. Holds-then P (decompress lib limit stored) _ (λ raw _.
      Holds-then P (check_length log r raw) _
        (λ text _. patch_chain_lem lib limit log before rev text)))

-- The base chain of a revision, the snapshot first.
pub data Chained (entries : List Entry) : ℕ → List ℕ → Type 0 where
  snapshot :
      (rev : ℕ) (e : Entry)
      → get_elem? entries rev ≡ some e
      → (index e.base_rev ≡ none) ⊎ (index e.base_rev ≡ some rev)
      → Chained entries rev (rev ∷ [])
  delta :
      (rev base : ℕ) (e : Entry) (chain : List ℕ)
      → get_elem? entries rev ≡ some e
      → index e.base_rev ≡ some base
      → base < rev
      → Chained entries base chain
      → Chained entries rev (chain ++ rev ∷ [])

based_lem :
    (entries : List Entry) (seen cur : ℕ) (e : Entry) (o : Option ℕ) (further : ℕ → Answer (List ℕ))
    → get_elem? entries cur ≡ some e
    → index e.base_rev ≡ o
    → ((base : ℕ) → base < cur → Holds (Chained entries base) (further base))
    → Holds (Chained entries cur) (elim o [
      | none ↦ ok (cur ∷ [])
      | some base ↦
          if base == cur
          then ok (cur ∷ [])
          else if leb cur base || ltb (length entries) (suc seen)
          then err (read "revlog base chain is cyclic or over-long")
          else further base >>= λ chain. ok (chain ++ cur ∷ [])
    ])
based_lem entries seen cur e none further there base h = snapshot cur e there (inl base)
based_lem entries seen cur e (some b) further there base h =
    let P = Chained entries cur in
    Holds-if P (b == cur) (ok (cur ∷ [])) _
      (λ same.
        let equal : b ≡ cur = ground arith in snapshot cur e there (inr (base ∙ ap some equal)))
      (λ differ.
        Holds-if P (leb cur b || ltb (length entries) (suc seen)) _ _ (λ _. tt)
          (λ below.
            let less : b < cur = ground arith in
            Holds-bind (Chained entries b) P (further b) _ (h b less)
              (λ chain c. delta cur b e chain there base less c)))

base_chain_lem :
    (fuel : ℕ) (entries : List Entry) (seen cur : ℕ)
    → cur < fuel
    → Holds (Chained entries cur) (base_chain fuel entries seen cur)
unfolding base_chain
base_chain_lem zero entries seen cur f = absurd (omega arith)
base_chain_lem (suc fuel) entries seen cur f =
    Holds-then (Chained entries cur) (required (get_elem? entries cur) _) _ (λ e he.
      based_lem entries seen cur e (index e.base_rev) (base_chain fuel entries (suc seen))
        (required-ok (get_elem? entries cur) _ e he) refl
        (λ base less. base_chain_lem fuel entries (suc seen) base (omega arith)))

Chained-last :
    (entries : List Entry) (rev : ℕ) (chain : List ℕ)
    → Chained entries rev chain
    → (before : List ℕ) × (chain ≡ before ++ rev ∷ [])
Chained-last entries _ _ (snapshot rev e there base) = ([], refl)
Chained-last entries _ _ (delta rev base e chain there b less c) = (chain, refl)

-- The chain of a revision starts with a full snapshot, ends with the revision, and each revision of it is a
-- delta against the one before it, which is lower; the search for it does not run out of rounds.
pub base_chain-Chained :
    (entries : List Entry) (rev : ℕ) (chain : List ℕ)
    → base_chain (suc rev) entries 0 rev ≡ ok chain
    → Chained entries rev chain
base_chain-Chained entries rev chain e =
    Holds-ok (Chained entries rev) (base_chain (suc rev) entries 0 rev) chain
      (base_chain_lem (suc rev) entries 0 rev (omega arith)) e

-- A text that is returned for a revision has the digest that its entry names, taken over the nodes of its two
-- parents in ascending order and the text, and the length that its entry names.
pub revision_with-Genuine :
    (lib : Libraries) (limit : ℕ) (log : Revlog) (rev : ℕ) (text : Bytes)
    → revision_with lib limit log rev ≡ ok text
    → Genuine lib log rev text
unfolding revision_with
revision_with-Genuine lib limit log rev text e =
    let P : Bytes → Type 0 = Genuine lib log rev in
    Holds-ok P (revision_with lib limit log rev) text
      (Holds-then P (required (get_elem? log.entries rev) _) _ (λ entry _.
        Holds-then P (check_flags entry) _ (λ _ _.
          Holds-then P (base_chain (suc rev) log.entries 0 rev) _ (λ chain hc.
            let last =
              Chained-last log.entries rev chain (base_chain-Chained log.entries rev chain hc) in
            Holds-bind (Sized log rev) P (rebuild lib limit log chain) _
              (subst (λ c. Holds (Sized log rev) (rebuild lib limit log c)) (sym last.1)
                (rebuild_lem lib limit log last.0 rev))
              (λ t size.
                Holds-bind (λ _. Genuine lib log rev t) P (verify_node lib log rev t) _
                  (verify_lem lib log rev t size) (λ _ g. g))))))
      e
