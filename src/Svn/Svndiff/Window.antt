-- ===== src/Svn/Svndiff/Window.antt =====
-- svndiff.rs, `run_window`: what the instructions of one window append.
use brygge.Prelude.{
  ℕ, zero, suc, ◌+◌, ◌-◌, ◌/◌, ◌≤◌, ◌≡◌, refl, arith, [], ◌∷◌, ◌++◌, Bytes, length, ok, true,
}
use brygge.Prelude.{ltb, leb, ◌==◌, ltb→lt, leb→le, bit_and}
use brygge.Svn.Svndiff.{
  malformed, ensure, ◌>>=◌, ◌>>◌, size, take, slice, copy_target, execute, instruction_len,
  instruction, instructions_loop, run_window,
}
use brygge.Svn.Svndiff.Outcome.{
  Outcome, Outcome-bind, Outcome-ensure, Outcome-if, Outcome-map, Outcome-ok,
}
use brygge.Svn.Svndiff.Cursor.{
  size_lem, take_lem, slice_lem, Appends, Appends-nothing, Appends-then, Appends-length,
  copy_target_lem,
}

abbrev Executed : Bytes → Bytes → ℕ → Bytes × Bytes × Bytes → Type 0
Executed out ins len r = Appends out r.0 len × (length r.1 ≤ length ins)

source_copy :
    (len : ℕ) (source out ins new : Bytes)
    → Outcome (Executed out ins len) (
        size ins >>= λ read.
        slice read.0 len source "a source copy overflows" "a source copy is outside the source view"
        >>= λ piece. ok (out ++ piece, read.1, new))
source_copy len source out ins new =
    Outcome-bind (λ r. suc (length r.1) ≤ length ins) (Executed out ins len) (size ins) _
      (size_lem ins)
      (λ r shorter.
        Outcome-bind (λ p. length p ≡ len) (Executed out ins len) (slice r.0 len source _ _) _
          (slice_lem r.0 len source _ _)
          (λ p l. (record { piece = p; whole = refl; piece_length = l }, omega arith)))

target_copy :
    (len start : ℕ) (out ins new : Bytes)
    → start ≤ length out
    → Outcome (Executed out ins len) (
        size ins >>= λ read.
        ensure
          (ltb read.0 (length out - start))
          (malformed "a target copy starts at or after the current position")
        >> (copy_target len (start + read.0) out >>= λ out'. ok (out', read.1, new)))
target_copy len start out ins new h =
    Outcome-bind (λ r. suc (length r.1) ≤ length ins) (Executed out ins len) (size ins) _
      (size_lem ins)
      (λ r shorter.
        Outcome-bind (λ _. ltb r.0 (length out - start) ≡ true) (Executed out ins len)
          (ensure (ltb r.0 (length out - start)) _) _ (Outcome-ensure _ _)
          (λ _ before.
            let below = ltb→lt r.0 (length out - start) before in
            let c = copy_target_lem len (start + r.0) out (omega arith) in
            rw c.run (c.appends, omega arith)))

new_data :
    (len : ℕ) (out ins new : Bytes)
    → Outcome (Executed out ins len) (take len new >>= λ taken. ok (out ++ taken.0, ins, taken.1))
new_data len out ins new =
    Outcome-bind (λ t. (length t.0 ≡ len) × (length t.1 ≤ length new)) (Executed out ins len)
      (take len new) _ (take_lem len new)
      (λ t h. (record { piece = t.0; whole = refl; piece_length = h.0 }, omega arith))

execute_lem :
    (opcode len start : ℕ) (source out ins new : Bytes)
    → start ≤ length out
    → Outcome (Executed out ins len) (execute opcode len start source out ins new)
unfolding execute
execute_lem opcode len start source out ins new h =
    Outcome-if (Executed out ins len) (opcode == 0) _ _ (source_copy len source out ins new) (
      Outcome-if (Executed out ins len) (opcode == 1) _ _ (target_copy len start out ins new h)
        (Outcome-if (Executed out ins len) (opcode == 2) _ _ (new_data len out ins new) tt))

instruction_len_lem :
    (op : ℕ) (ins : Bytes) → Outcome (λ r. length r.1 ≤ length ins) (instruction_len op ins)
unfolding instruction_len
instruction_len_lem op ins =
    Outcome-if (λ r. length r.1 ≤ length ins) (bit_and op 0x3f == 0) (size ins)
      (ok (bit_and op 0x3f, ins))
      (Outcome-map (λ r. suc (length r.1) ≤ length ins) (λ r. length r.1 ≤ length ins) (size ins)
        (λ r h. omega arith) (size_lem ins))
      (omega arith)

-- What a round leaves: the output grows inside the target view, and no instruction is added.
record Stepped (start target_len : ℕ) (out ins : Bytes) (r : Bytes × Bytes × Bytes) : Type 0 where
  count : ℕ
  appends : Appends out r.0 count
  within : length r.0 ≤ start + target_len
  shorter : length r.1 ≤ length ins

instruction_lem :
    (start target_len op : ℕ) (source out ins new : Bytes)
    → start ≤ length out
    → length out ≤ start + target_len
    → Outcome
        (Stepped start target_len out ins)
        (instruction start target_len source op out ins new)
unfolding instruction
instruction_lem start target_len op source out ins new h inside =
    let P = Stepped start target_len out ins in
    Outcome-bind (λ r. length r.1 ≤ length ins) P (instruction_len op ins) _
      (instruction_len_lem op ins)
      (λ r shorter.
        Outcome-bind (λ _. leb r.0 (target_len - (length out - start)) ≡ true) P
          (ensure (leb r.0 (target_len - (length out - start))) _) _ (Outcome-ensure _ _)
          (λ _ fits.
            let room = leb→le r.0 (target_len - (length out - start)) fits in
            Outcome-map (Executed out r.1 r.0) P (execute (op / 64) r.0 start source out r.1 new)
              (λ t done. record {
                count = r.0;
                appends = done.0;
                within = omega (arith, Appends-length out t.0 r.0 done.0);
                shorter = omega (arith, done.1);
              })
              (execute_lem (op / 64) r.0 start source out r.1 new h)))

record Ran (out : Bytes) (r : Bytes × Bytes) : Type 0 where
  count : ℕ
  appends : Appends out r.0 count

instructions_loop_lem :
    (fuel start target_len : ℕ) (source out ins new : Bytes)
    → length ins ≤ fuel
    → start ≤ length out
    → length out ≤ start + target_len
    → Outcome (Ran out) (instructions_loop fuel start target_len source out ins new)
unfolding instructions_loop
instructions_loop_lem zero start target_len source out [] new f h inside = record {
  count = 0;
  appends = Appends-nothing out;
}
instructions_loop_lem (suc fuel) start target_len source out [] new f h inside = record {
  count = 0;
  appends = Appends-nothing out;
}
instructions_loop_lem zero start target_len source out (op ∷ ins) new f h inside =
    absurd (omega arith)
instructions_loop_lem (suc fuel) start target_len source out (op ∷ ins) new f h inside =
    Outcome-bind (Stepped start target_len out ins) (Ran out)
      (instruction start target_len source op out ins new) _
      (instruction_lem start target_len op source out ins new h inside)
      (λ r s.
        Outcome-map (Ran r.0) (Ran out) (instructions_loop fuel start target_len source r.0 r.1 r.2)
          (λ t ran. record {
            count = s.count + ran.count;
            appends = Appends-then out r.0 t.0 s.count ran.count _ refl s.appends ran.appends;
          })
          (instructions_loop_lem fuel start target_len source r.0 r.1 r.2 (omega (arith, s.shorter))
            (omega (arith, Appends-length out r.0 s.count s.appends)) s.within))

pub run_window_lem :
    (out source : Bytes) (target_len : ℕ) (instructions new : Bytes)
    → Outcome
        (λ longer. Appends out longer target_len)
        (run_window out source target_len instructions new)
unfolding run_window
run_window_lem out source target_len instructions new =
    let P : Bytes → Type 0 = λ longer. Appends out longer target_len in
    Outcome-bind (Ran out) P
      (instructions_loop (length instructions) (length out) target_len source out instructions new)
      _
      (instructions_loop_lem (length instructions) (length out) target_len source out instructions
        new (omega arith) (omega arith) (omega arith))
      (λ end ran.
        Outcome-bind (λ _. (length end.0 - length out == target_len) ≡ true) P
          (ensure (length end.0 - length out == target_len) _) _ (Outcome-ensure _ _)
          (λ _ full.
            Outcome-bind (λ _. (length end.1 == 0) ≡ true) P (ensure (length end.1 == 0) _) _
              (Outcome-ensure _ _)
              (λ _ _. record {
                piece = ran.appends.piece;
                whole = ran.appends.whole;
                piece_length = ground (
                  arith,
                  full,
                  Appends-length out end.0 ran.count ran.appends,
                  ran.appends.piece_length,
                );
              })))

-- A window that runs appends exactly as many bytes as its target view is long to what was built before, which
-- it leaves as it is.
pub run_window-Appends :
    (out source : Bytes) (target_len : ℕ) (instructions new longer : Bytes)
    → run_window out source target_len instructions new ≡ ok longer
    → Appends out longer target_len
run_window-Appends out source target_len instructions new longer e =
    Outcome-ok (λ b. Appends out b target_len) (run_window out source target_len instructions new)
      longer (run_window_lem out source target_len instructions new) e
