-- ===== src/Hg/Revision.antt =====
-- revlog.rs: the text of a revision. zlib, zstd and the collision-detecting SHA-1 are not part of the
-- repository: each is a function from the bytes it is given.
use brygge.Prelude.{ℕ, zero, suc, ◌+◌, ◌-◌, ◌/◌, ◌%◌, ◌^◌, Bool, true, false, ◌||◌, List, [], ◌∷◌}
use brygge.Prelude.{Option, none, some, Bytes, length, ltb, leb, ◌==◌, if◌then◌else◌, ok, err}
use brygge.Prelude.{String, drop, get_elem?, ◌++◌, replicate, not}
use brygge.Prelude.Utf8.{text_eq, text_ltb}
use brygge.Hg.{Error, read, resource_limit, floor_refusal, Answer}
use brygge.Hg.Util.{◌>>=◌, required, field}
use brygge.Hg.Revlog.{Entry, Revlog, index, null_rev, u32_be, chunk}

abbrev pub ensure : Bool → Error → Answer (Unit {0})
ensure true e = ok tt
ensure false e = err e

-- What decompressing gives: the bytes, as many as are taken, or that the window or the data are refused.
pub data Inflated : Type 0 where
  inflated : Bytes → Inflated
  window_too_big : Inflated
  broken : Inflated

-- The first bytes that `take(n)` lets through of the output of zlib and of zstd (whose window is limited to the
-- first number), and the digest, unless a collision is detected.
pub record Libraries : Type 0 where
  pub zlib : ℕ → Bytes → Inflated
  pub zstd : ℕ → ℕ → Bytes → Inflated
  pub sha1 : Bytes → Option Bytes

-- The ceiling in decompress.
unfoldable pub bounded : String → ℕ → Inflated → Answer Bytes
bounded what limit (inflated out) =
    if ltb limit (length out) then err (resource_limit "a decompressed revision" limit) else ok out
bounded what limit window_too_big = err (resource_limit "a zstd frame's window" limit)
bounded what limit broken = err (read what)

-- decompress
unfoldable pub decompress : Libraries → ℕ → Bytes → Answer Bytes
decompress lib limit [] = ok []
decompress lib limit (first ∷ rest) =
    if first == 0x00
    then ok (first ∷ rest)
    else if first == b'u'
    then ok rest
    else if first == b'x'
    then bounded "zlib" limit (lib.zlib (limit + 1) (first ∷ rest))
    else if first == 0x28
    then bounded "zstd" limit (lib.zstd limit (limit + 1) (first ∷ rest))
    else err (read "unknown revlog compression marker")

-- One hunk of mpatch: the base from `pos` to the hunk and the data join the output.
unfoldable pub hunk : Bytes → ℕ → Bytes → Bytes → Answer (ℕ × Bytes × Bytes)
hunk base pos out delta = u32_be delta 0 >>= λ start. u32_be delta 4 >>= λ end.
    u32_be delta 8 >>= λ len. field 12 len "delta hunk data truncated" delta >>= λ new.
    ensure (not (ltb start pos || ltb (length base) end || ltb end start))
      (read "delta hunk out of order or out of range")
    >>= λ _. field pos (start - pos) "delta base slice out of range" base >>= λ keep.
        ok (end, out ++ (keep ++ new), drop (12 + len) delta)

-- The loop of mpatch over the delta that is left. A hunk takes 12 bytes, so the length of the delta is enough
-- fuel.
unfoldable pub mpatch_loop : ℕ → Bytes → ℕ → Bytes → Bytes → Answer (ℕ × Bytes)
mpatch_loop fuel base pos out [] = ok (pos, out)
mpatch_loop zero base pos out (b ∷ delta) = ok (pos, out)
mpatch_loop (suc fuel) base pos out (b ∷ delta) =
    hunk base pos out (b ∷ delta) >>= λ next. mpatch_loop fuel base next.0 next.1 next.2

-- mpatch
unfoldable pub mpatch : ℕ → Bytes → Bytes → Answer Bytes
mpatch limit base delta = mpatch_loop (length delta) base 0 [] delta >>= λ end.
    required (if leb end.0 (length base) then some (drop end.0 base) else none)
      (read "delta base tail out of range")
    >>= λ tail.
        ensure (leb (length (end.1 ++ tail)) limit) (resource_limit "a patched revision" limit)
        >>= λ _. ok (end.1 ++ tail)

-- check_flags
unfoldable pub check_flags : Entry → Answer (Unit {0})
check_flags e =
    ensure (e.flags / 2 ^ 15 % 2 == 0) (floor_refusal "censored-revision" "its content was removed")
    >>= λ _.
        ensure (e.flags / 2 ^ 14 % 2 == 0)
          (floor_refusal "ellipsis-revision" "it cannot be verified")
        >>= λ _.
            ensure (e.flags / 2 ^ 13 % 2 == 0)
              (floor_refusal "external-storage-revision" "it holds a pointer")
            >>= λ _.
                ensure (e.flags % 2 ^ 6 == 0)
                  (floor_refusal "unknown-revision-flag" "not defined by Mercurial")

-- The base chain of Revlog::revision_with, the snapshot first. Each round goes to a lower revision, so the
-- revision and one more are enough fuel; `seen` counts the chain so far.
unfoldable pub base_chain : ℕ → List Entry → ℕ → ℕ → Answer (List ℕ)
base_chain zero entries seen cur = ok []
base_chain (suc fuel) entries seen cur =
    required (get_elem? entries cur) (read "base chain out of range") >>= λ e.
    elim (index e.base_rev) [
      | none ↦ ok (cur ∷ [])
      | some base ↦
          let further = base_chain fuel entries (suc seen) base in
          if base == cur
          then ok (cur ∷ [])
          else if leb cur base || ltb (length entries) (suc seen)
          then err (read "revlog base chain is cyclic or over-long")
          else further >>= λ chain. ok (chain ++ cur ∷ [])
    ]

-- The length check of every step of Revlog::revision_with.
abbrev pub check_length : Revlog → ℕ → Bytes → Answer Bytes
check_length log rev text =
    required (get_elem? log.entries rev) (read "base chain out of range") >>= λ e.
    if length text == e.uncomp_len
    then ok text
    else err (read "revision length does not match the index")

-- The deltas behind the snapshot.
unfoldable pub patch_chain : Libraries → ℕ → Revlog → List ℕ → Bytes → Answer Bytes
patch_chain lib limit log [] text = ok text
patch_chain lib limit log (r ∷ chain) text = chunk log r >>= λ stored.
    decompress lib limit stored >>= λ delta. mpatch limit text delta >>= λ patched.
    check_length log r patched >>= λ text'. patch_chain lib limit log chain text'

unfoldable pub rebuild : Libraries → ℕ → Revlog → List ℕ → Answer Bytes
rebuild lib limit log [] = ok []
rebuild lib limit log (r ∷ chain) = chunk log r >>= λ stored. decompress lib limit stored >>= λ raw.
    check_length log r raw >>= λ text. patch_chain lib limit log chain text

-- Revlog::parent_node
unfoldable pub parent_node : Revlog → ℕ → Answer Bytes
parent_node log parent =
    let node_of = required (index parent) (read "revlog parent revision out of range") >>= λ p.
    required (get_elem? log.entries p) (read "revlog parent revision out of range") >>= λ e.
    ok e.node in
    if parent == null_rev then ok (replicate 20 0) else node_of

-- check_revision_hash
unfoldable pub check_revision_hash : Libraries → Bytes → Bytes → Bytes → Bytes → Answer (Unit {0})
check_revision_hash lib id lo hi text =
    required (lib.sha1 (lo ++ hi ++ text)) (read "revision triggers SHA-1 collision detection")
    >>= λ digest. ensure (text_eq digest id) (read "revision does not match its content")

-- Revlog::verify_node
unfoldable pub verify_node : Libraries → Revlog → ℕ → Bytes → Answer (Unit {0})
verify_node lib log rev text =
    required (get_elem? log.entries rev) (read "revision out of range") >>= λ e.
    parent_node log e.p1 >>= λ first. parent_node log e.p2 >>= λ second.
    if text_ltb second first
    then check_revision_hash lib e.node second first text
    else check_revision_hash lib e.node first second text

-- Revlog::revision_with
unfoldable pub revision_with : Libraries → ℕ → Revlog → ℕ → Answer Bytes
revision_with lib limit log rev =
    required (get_elem? log.entries rev) (read "revision out of range") >>= λ e.
    check_flags e >>= λ _. base_chain (suc rev) log.entries 0 rev >>= λ chain.
    rebuild lib limit log chain >>= λ text. verify_node lib log rev text >>= λ _. ok text
