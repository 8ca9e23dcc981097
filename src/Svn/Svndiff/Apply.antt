-- ===== src/Svn/Svndiff/Apply.antt =====
-- svndiff.rs, `apply`: the whole delta.
use brygge.Prelude.{
  ℕ, zero, suc, ◌+◌, ◌≤◌, ◌^◌, ◌≡◌, ◌≢◌, arith, [], ◌∷◌, Bytes, length, ok, err, true,
}
use brygge.Prelude.{ltb, leb, leb→le, ◌==◌, ◌||◌}
use brygge.Svn.Svndiff.{
  no_fuel, ensure, size, take, slice, check_header, check_version, run_window, window, windows_loop,
  apply,
}
use brygge.Svn.Svndiff.Outcome.{
  Outcome, Outcome-bind, Outcome-ensure, Outcome-ok, Outcome-fuel, Outcome-if,
}
use brygge.Svn.Svndiff.Cursor.{size_lem, take_lem, slice_lem, Appends, Appends-length}
use brygge.Svn.Svndiff.Window.{run_window_lem}

-- What a window leaves: an output under the ceiling, and a shorter delta.
abbrev Windowed : ℕ → Bytes → Bytes × Bytes → Type 0
Windowed max_target rest r = (length r.0 ≤ max_target) × (suc (length r.1) ≤ length rest)

window_lem :
    (base : Bytes) (max_target : ℕ) (out rest : Bytes)
    → Outcome (Windowed max_target rest) (window base max_target out rest)
unfolding window
window_lem base max_target out rest =
    let P = Windowed max_target rest in
    let S : Bytes → ℕ × Bytes → Type 0 = λ from r. suc (length r.1) ≤ length from in
    Outcome-bind (S rest) P (size rest) _ (size_lem rest) (λ a ha.
      Outcome-bind (S a.1) P (size a.1) _ (size_lem a.1) (λ b hb.
        Outcome-bind (S b.1) P (size b.1) _ (size_lem b.1) (λ c hc.
          Outcome-bind (S c.1) P (size c.1) _ (size_lem c.1) (λ d hd.
            Outcome-bind (S d.1) P (size d.1) _ (size_lem d.1) (λ e he.
              Outcome-bind (λ p. length p ≡ b.0) P (slice a.0 b.0 base _ _) _
                (slice_lem a.0 b.0 base _ _)
                (λ source hsource.
                  Outcome-bind (λ _. ltb (length out + c.0) (2 ^ 64) ≡ true) P
                    (ensure (ltb (length out + c.0) (2 ^ 64)) _) _ (Outcome-ensure _ _)
                    (λ _ hword.
                      Outcome-bind (λ _. leb (length out + c.0) max_target ≡ true) P
                        (ensure (leb (length out + c.0) max_target) _) _ (Outcome-ensure _ _)
                        (λ _ ceiling.
                          Outcome-bind (λ t. (length t.0 ≡ d.0) × (length t.1 ≤ length e.1)) P
                            (take d.0 e.1) _ (take_lem d.0 e.1)
                            (λ ins hi.
                              Outcome-bind (λ t. (length t.0 ≡ e.0) × (length t.1 ≤ length ins.1)) P
                                (take e.0 ins.1) _ (take_lem e.0 ins.1)
                                (λ new hn.
                                  Outcome-bind (λ longer. Appends out longer c.0) P
                                    (run_window out source c.0 ins.0 new.0) _
                                    (run_window_lem out source c.0 ins.0 new.0)
                                    (λ longer grown.
                                      let under = leb→le (length out + c.0) max_target ceiling in
                                      (
                                        omega (arith, Appends-length out longer c.0 grown),
                                        omega arith,
                                      ))))))))))))

windows_loop_lem :
    (fuel : ℕ) (base : Bytes) (max_target : ℕ) (out rest : Bytes)
    → length rest ≤ fuel
    → length out ≤ max_target
    → Outcome (λ end. length end ≤ max_target) (windows_loop fuel base max_target out rest)
unfolding windows_loop
windows_loop_lem zero base max_target out [] f h = h
windows_loop_lem (suc fuel) base max_target out [] f h = h
windows_loop_lem zero base max_target out (b ∷ rest) f h = absurd (omega arith)
windows_loop_lem (suc fuel) base max_target out (b ∷ rest) f h =
    Outcome-bind (Windowed max_target (b ∷ rest)) (λ end. length end ≤ max_target)
      (window base max_target out (b ∷ rest)) _ (window_lem base max_target out (b ∷ rest))
      (λ r w. windows_loop_lem fuel base max_target r.0 r.1 (omega arith) w.0)

check_version_lem : (v : ℕ) → Outcome (λ _. Unit {0}) (check_version v)
unfolding check_version
check_version_lem v =
    let P : Unit {0} → Type 0 = λ _. Unit {0} in
    Outcome-if P (v == 0) _ _ tt (Outcome-if P (v == 1 || v == 2) _ _ tt tt)

check_header_lem : (delta : Bytes) → Outcome (λ _. Unit {0}) (check_header delta)
unfolding check_header
check_header_lem [] = tt
check_header_lem (s ∷ []) = tt
check_header_lem (s ∷ v ∷ []) = tt
check_header_lem (s ∷ v ∷ n ∷ []) = tt
check_header_lem (s ∷ v ∷ n ∷ version ∷ rest) =
    let P : Unit {0} → Type 0 = λ _. Unit {0} in
    Outcome-if P (s == b'S') _ _
      (Outcome-if P (v == b'V') _ _ (Outcome-if P (n == b'N') _ _ (check_version_lem version) tt)
        tt)
      tt

apply_lem :
    (delta base : Bytes) (max_target : ℕ)
    → Outcome (λ end. length end ≤ max_target) (apply delta base max_target)
unfolding apply
apply_lem delta base max_target =
    let P : Bytes → Type 0 = λ end. length end ≤ max_target in
    Outcome-bind (λ _. Unit {0}) P (check_header delta) _ (check_header_lem delta)
      (λ _ _.
        Outcome-bind (λ t. (length t.0 ≡ 4) × (length t.1 ≤ length delta)) P (take 4 delta) _
          (take_lem 4 delta)
          (λ t h.
            windows_loop_lem (length delta) base max_target [] t.1 (omega arith) (omega arith)))

-- What a delta is applied to is never longer than the ceiling, whatever the delta and the base are.
pub apply-le-max_target :
    (delta base : Bytes) (max_target : ℕ) (target : Bytes)
    → apply delta base max_target ≡ ok target
    → length target ≤ max_target
apply-le-max_target delta base max_target target e =
    Outcome-ok (λ end. length end ≤ max_target) (apply delta base max_target) target
      (apply_lem delta base max_target) e

-- The loops over windows and instructions end within their fuel, the length of what they read, on every input,
-- malformed ones included.
pub apply-terminates :
    (delta base : Bytes) (max_target : ℕ) → apply delta base max_target ≢ err no_fuel
apply-terminates delta base max_target =
    Outcome-fuel (λ end. length end ≤ max_target) (apply delta base max_target)
      (apply_lem delta base max_target)
