-- ===== src/Ir/Artifact/Frame.antt =====
-- artifact/frame.rs: the codec's number, the bounds of a frame, and the packing plans. Lengths are of type u64;
-- the sum of two lengths under the cap does not overflow.
use brygge.Prelude.{ℕ, zero, suc, ◌+◌, ◌-◌, ◌*◌, ◌^◌, min, List, [], ◌∷◌, ◌++◌, map}
use brygge.Prelude.{Option, none, some, ltb, leb, ◌==◌, if◌then◌else◌, Result, ok, err}
use brygge.Ir.Error.{Error, decode}

abbrev pub frame_cap : ℕ
frame_cap = 1048576

pub data Codec : Type 0 where
  stored deflate : Codec

unfoldable pub to_u64 : Codec → ℕ
to_u64 stored = 0
to_u64 deflate = 1

unfoldable pub from_u64 : ℕ → Result Error Codec
from_u64 v =
    if v == 0 then ok stored else if v == 1 then ok deflate else err (decode "unknown frame codec")

-- check_frame_bounds
unfoldable pub check_frame_bounds : Codec → ℕ → ℕ → Result Error (Unit {0})
check_frame_bounds stored stored_len raw_len =
    if stored_len == raw_len
    then ok tt
    else err (decode "stored frame: raw_len does not match its stored bytes")
check_frame_bounds deflate stored_len raw_len =
    if leb (2 ^ 64) (1032 * stored_len + 64)
    then err (decode "deflate frame: expansion bound overflow")
    else if ltb (1032 * stored_len + 64) raw_len
    then err (decode "deflate frame: raw_len exceeds DEFLATE's maximum expansion")
    else ok tt

-- A frame's raw length and the indices that it covers, from the first up to the second.
pub record Frame : Type 0 where
  pub raw_len : ℕ
  pub first : ℕ
  pub past : ℕ

-- The frame under construction: its length so far and its first index.
abbrev pub Open : Type 0
Open = Option (ℕ × ℕ)

abbrev pub close : Open → ℕ → List Frame
close none i = []
close (some c) i = record { raw_len = c.0; first = c.1; past = i } ∷ []

-- The loop of canonical_frame_plan; the frames are pushed in order.
unfoldable pub plan_loop : ℕ → Open → List ℕ → List Frame
plan_loop i current [] = close current i
plan_loop i none (len ∷ lens) =
    let alone = record { raw_len = len; first = i; past = suc i } ∷ plan_loop (suc i) none lens in
    let begun = plan_loop (suc i) (some (len, i)) lens in if ltb frame_cap len then alone else begun
plan_loop i (some c) (len ∷ lens) =
    let alone = record { raw_len = len; first = i; past = suc i } ∷ plan_loop (suc i) none lens in
    let joined = plan_loop (suc i) (some (c.0 + len, c.1)) lens in
    let begun = plan_loop (suc i) (some (len, i)) lens in
    if ltb frame_cap len
    then close (some c) i ++ alone
    else if leb (c.0 + len) frame_cap
    then joined
    else close (some c) i ++ begun

-- canonical_frame_plan
unfoldable pub canonical_frame_plan : List ℕ → List Frame
canonical_frame_plan lens = plan_loop 0 none lens

-- canonical_frame_raw_lens
unfoldable pub canonical_frame_raw_lens : List ℕ → List ℕ
canonical_frame_raw_lens lens = map (λ f. f.raw_len) (canonical_frame_plan lens)

-- The loop of fixed_chunk_lens; a round takes at least 1, so the total is enough fuel.
unfoldable pub chunk_loop : ℕ → ℕ → List ℕ
chunk_loop zero remaining = []
chunk_loop (suc fuel) zero = []
chunk_loop (suc fuel) (suc n) =
    min (suc n) frame_cap ∷ chunk_loop fuel (suc n - min (suc n) frame_cap)

-- fixed_chunk_lens
unfoldable pub fixed_chunk_lens : ℕ → List ℕ
fixed_chunk_lens total = chunk_loop total total
