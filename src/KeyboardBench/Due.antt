-- ===== src/KeyboardBench/Due.antt =====
-- The bench comes to its end.
use red_monkey_mpg_firmware.Base.{
  ℕ, suc, zero, ◌+◌, ◌<◌, true, false, some, List, [], ◌∷◌, ◌==◌, ltb, length, drop, get_elem?, ◌≡◌,
  refl, sym, ap, ◌∙◌, ◌-◌, arith, sub32,
}
use red_monkey_mpg_firmware.Base.Slices.{length-drop}
use red_monkey_mpg_firmware.Keyboard.{empty_report}
use red_monkey_mpg_firmware.Types.{JogCommand}
use red_monkey_mpg_firmware.KeyboardBench.{
  Bench, sequence, Sent, report, Event, pass, step, run, run_bounded_test, report_at, sent_report,
  jog_report, press, release,
}

-- Passes with a host that is ready, in pairs.
abbrev pub pairs : List (ℕ × ℕ) → List Event
pairs [] = []
pairs ((p, r) ∷ ts) = pass p true true ∷ pass r true true ∷ pairs ts

-- Each pass is at least 8000 ms after the mount and 600 ms after the pass before it.
unfoldable pub IsDue : ℕ → ℕ → ℕ → Type 0
IsDue mounted_ms last_ms now_ms =
    (ltb (sub32 now_ms mounted_ms) 8000 ≡ false) × (ltb (sub32 now_ms last_ms) 600 ≡ false)

unfoldable pub AreDue : ℕ → ℕ → List (ℕ × ℕ) → Type 0
AreDue mounted_ms last_ms [] = Unit
AreDue mounted_ms last_ms ((p, r) ∷ ts) =
    IsDue mounted_ms last_ms p × IsDue mounted_ms p r × AreDue mounted_ms r ts

-- Each key with its release.
unfoldable pub keys_of : List JogCommand → List Sent
keys_of [] = []
keys_of (j ∷ js) = report (jog_report j) ∷ report empty_report ∷ keys_of js

press_due :
    (p : ℕ) (j : JogCommand) (s : Bench)
    → s.finished ≡ false
    → s.key_is_down ≡ false
    → IsDue s.mounted_at_ms s.last_report_ms p
    → get_elem? sequence s.command_index ≡ some j
    → run_bounded_test p true true s ≡ (report (jog_report j), press p s)
unfolding run_bounded_test sent_report report_at IsDue
press_due p j s going up (late, spaced) e = rw (going, up, late, spaced, e) refl

release_due :
    (r : ℕ) (s : Bench)
    → s.finished ≡ false
    → s.key_is_down ≡ true
    → IsDue s.mounted_at_ms s.last_report_ms r
    → run_bounded_test r true true s ≡ (report empty_report, release r s)
unfolding run_bounded_test IsDue
release_due r s going down (late, spaced) = rw (going, down, late, spaced) refl

drop_elem :
    {A : Type 0} (xs : List A) (i : ℕ) (v : A) (vs : List A)
    → drop i xs ≡ v ∷ vs
    → (get_elem? xs i ≡ some v) × (drop (suc i) xs ≡ vs)
drop_elem [] zero v vs h = ground arith
drop_elem [] (suc i) v vs h = ground arith
drop_elem (x ∷ xs) zero v vs h = ground arith
drop_elem (x ∷ xs) (suc i) v vs h = drop_elem xs i v vs h

run_pair :
    (p r : ℕ) (j : JogCommand) (es : List Event) (s : Bench)
    → s.finished ≡ false
    → s.key_is_down ≡ false
    → get_elem? sequence s.command_index ≡ some j
    → IsDue s.mounted_at_ms s.last_report_ms p
    → IsDue s.mounted_at_ms p r
    → let (more, last) = run es (release r (press p s)) in
      run (pass p true true ∷ pass r true true ∷ es) s
      ≡ (report (jog_report j) ∷ report empty_report ∷ more, last)
unfolding run step
run_pair p r j es s going up e first second =
    rw (press_due p j s going up first e, release_due r (press p s) going refl second) refl

-- From any moment with no key down and the test not finished, with a host that is ready: passes at
-- due times (8000 ms after the mount and 600 ms after the pass before), two for each command that
-- is left, hand over exactly these commands in order, each with its release, and finish the test.
pub run-pairs :
    (js : List JogCommand) (ts : List (ℕ × ℕ)) (s : Bench)
    → s.finished ≡ false
    → s.key_is_down ≡ false
    → drop s.command_index sequence ≡ js
    → length ts ≡ length js
    → 0 < length js
    → AreDue s.mounted_at_ms s.last_report_ms ts
    → ((run (pairs ts) s).0 ≡ keys_of js) × ((run (pairs ts) s).1.finished ≡ true)
unfolding keys_of AreDue
run-pairs [] ts s going up rest same some_left due = ground arith
run-pairs (j ∷ js) [] s going up rest same some_left due = ground arith
run-pairs (j ∷ []) ((p, r) ∷ []) s going up rest same some_left (first, second, later) =
    let (e, _) = drop_elem sequence s.command_index j [] rest in
    let size : 1 ≡ 7 - s.command_index =
      sym (ap length rest) ∙ length-drop s.command_index sequence in
    let at_end : (s.command_index + 1 == 7) ≡ true = ground (arith, size) in
    rw (run_pair p r j [] s going up e first second)
      (unfold run in (refl, ground (arith, going, at_end)))
run-pairs (j ∷ k ∷ js) ((p, r) ∷ ts) s going up rest same some_left (first, second, later) =
    let (e, next) = drop_elem sequence s.command_index j (k ∷ js) rest in
    let size : suc (suc (length js)) ≡ 7 - s.command_index =
      sym (ap length rest) ∙ length-drop s.command_index sequence in
    let before_end : (s.command_index + 1 == 7) ≡ false = ground (arith, size) in
    let t = release r (press p s) in
    let one : s.command_index + 1 ≡ suc s.command_index = omega arith in
    let (sent, done) =
      run-pairs (k ∷ js) ts t (ground (arith, going, before_end)) refl (rw one next)
        (omega (arith, same)) (omega arith) later in
    rw (run_pair p r j (pairs ts) s going up e first second, sent) (refl, done)
run-pairs (j ∷ []) ((p, r) ∷ t ∷ ts) s going up rest same some_left due = ground arith
