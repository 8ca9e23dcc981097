-- ===== src/Tests/Svn.antt =====
-- svndiff: a delta with a copy from the source, new data, and an overlapping copy from the target.
use brygge.Prelude.{◌≤◌, ◌≡◌, ◌≢◌, refl, arith, [], ◌∷◌, Bytes, length, ok, err}
use brygge.Prelude.Utf8.{codes}
use brygge.Svn.Svndiff.{
  failed, no_fuel, unsupported_version, too_large, varint_loop, size, take, slice, copy_target,
  check_version, check_header, execute, instruction_len, instruction, instructions_loop, run_window,
  window, windows_loop, apply,
}
use brygge.Svn.Svndiff.Cursor
use brygge.Svn.Svndiff.Cursor.{Appends, Copied}
use brygge.Svn.Svndiff.Window
use brygge.Svn.Svndiff.Apply
use brygge.Svn.Svndiff.Literal

abbrev three_instructions : Bytes
three_instructions = 0x02 ∷ 0x00 ∷ 0x81 ∷ 0x43 ∷ 0x02 ∷ []

abbrev small_delta : Bytes
small_delta =
    b'S' ∷ b'V' ∷ b'N' ∷ 0 ∷ 0 ∷ 2 ∷ 6 ∷ 5 ∷ 1 ∷ 0x02 ∷ 0x00 ∷ 0x81 ∷ 0x43 ∷ 0x02 ∷ b'x' ∷ []

applied : apply small_delta (codes "ab") 6 ≡ ok (codes "abxxxx")
unfolding apply check_header check_version take windows_loop window size varint_loop slice
    run_window instructions_loop instruction instruction_len execute copy_target
applied = refl

over_the_ceiling : apply small_delta (codes "ab") 5 ≡ err (failed (too_large 5))
unfolding apply check_header check_version take windows_loop window size varint_loop slice
over_the_ceiling = refl

compressed : check_header (b'S' ∷ b'V' ∷ b'N' ∷ 1 ∷ []) ≡ err (failed (unsupported_version 1))
unfolding check_header check_version
compressed = refl

window_ran :
    run_window (codes "z") (codes "ab") 6 three_instructions (codes "x") ≡ ok (codes "zabxxxx")
unfolding take size varint_loop slice run_window instructions_loop instruction instruction_len
    execute copy_target
window_ran = refl

run_window-Appends_example : Appends (codes "z") (codes "zabxxxx") 6
run_window-Appends_example =
    Window.run_window-Appends (codes "z") (codes "ab") 6 three_instructions (codes "x")
      (codes "zabxxxx") window_ran

copy_target_lem_example : Copied 3 2 (codes "abx")
copy_target_lem_example = Cursor.copy_target_lem 3 2 (codes "abx") (omega arith)

apply-le-max_target_example : length (codes "abxxxx") ≤ 6
apply-le-max_target_example =
    Apply.apply-le-max_target small_delta (codes "ab") 6 (codes "abxxxx") applied

apply-terminates_example : apply small_delta (codes "ab") 6 ≢ err no_fuel
apply-terminates_example = Apply.apply-terminates small_delta (codes "ab") 6

apply-literal_example : apply (Literal.literal (codes "text")) (codes "ab") 4 ≡ ok (codes "text")
apply-literal_example =
    Literal.apply-literal (codes "text") (codes "ab") 4 (omega arith) (omega arith) (omega arith)
