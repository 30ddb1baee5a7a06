-- ===== src/KeyboardBench/Sequence.antt =====
-- The bench stays within its sequence, and stops after it.
use red_monkey_mpg_firmware.Base.{
  ℕ, suc, zero, ◌<◌, Bool, true, false, some, List, [], ◌∷◌, ltb, length, get_elem?, ◌≡◌, ◌⊎◌, inl,
  inr, refl, arith, All, sub32, Bool-cases, if_both, not, ◌||◌,
}
use red_monkey_mpg_firmware.Keyboard.{empty_report}
use red_monkey_mpg_firmware.Types.{JogCommand}
use red_monkey_mpg_firmware.KeyboardBench.{
  Bench, sequence, Sent, nothing, report, past_the_end, Event, mount, umount, pass, step, run,
  run_bounded_test, startup_delay_ms, report_interval_ms, report_at, sent_report, jog_report,
}

-- Within the sequence, or finished after all of it with no key down.
unfoldable pub IsBench : Bench → Type 0
IsBench s =
    ((s.finished ≡ false) × (s.command_index < 7))
    ⊎ ((s.finished ≡ true) × (s.command_index ≡ 7) × (s.key_is_down ≡ false))

-- A release, a key of the sequence, or nothing.
unfoldable pub IsOfBench : Sent → Type 0
IsOfBench nothing = Unit
IsOfBench (report r) =
    (r ≡ empty_report)
    ⊎ ((i : ℕ) × (j : JogCommand) × (get_elem? sequence i ≡ some j) × (r ≡ jog_report j))
IsOfBench past_the_end = ⊥

elem_in_range :
    {A : Type 0} (xs : List A) (i : ℕ) → i < length xs → (v : A) × (get_elem? xs i ≡ some v)
elem_in_range [] i h = ground arith
elem_in_range (v ∷ xs) zero h = (v, refl)
elem_in_range (v ∷ xs) (suc i) h = elem_in_range xs i (omega (arith, h))

command-IsOfBench : (i : ℕ) → i < 7 → IsOfBench (sent_report (report_at (get_elem? sequence i)))
unfolding IsOfBench sent_report report_at
command-IsOfBench i h = let (j, e) = elem_in_range sequence i h in rw e (inr (i, j, e, refl))

run_bounded_test-IsBench :
    (now_ms : ℕ) (mounted ready : Bool) (s : Bench)
    → IsBench s
    → IsBench (run_bounded_test now_ms mounted ready s).1
unfolding run_bounded_test IsBench
run_bounded_test-IsBench now_ms mounted ready s h = ground arith

nothing-IsOfBench : IsOfBench nothing
unfolding IsOfBench
nothing-IsOfBench = tt

empty-IsOfBench : IsOfBench (report empty_report)
unfolding IsOfBench
empty-IsOfBench = inl refl

run_bounded_test-IsOfBench :
    (now_ms : ℕ) (mounted ready : Bool) (s : Bench)
    → IsBench s
    → IsOfBench (run_bounded_test now_ms mounted ready s).0
unfolding run_bounded_test
run_bounded_test-IsOfBench now_ms mounted ready s h =
    let Q = λ (r : Sent × Bench). IsOfBench r.0 in
    elim (Bool-cases s.finished) [
      | inl e ↦ rw e nothing-IsOfBench
      | inr e ↦
          let inside : s.command_index < 7 = unfold IsBench in ground (arith, h, e) in
          if_both Q (s.finished || not mounted || not ready) _ _ nothing-IsOfBench (
            if_both Q (ltb (sub32 now_ms s.mounted_at_ms) startup_delay_ms) _ _ nothing-IsOfBench (
              if_both Q (ltb (sub32 now_ms s.last_report_ms) report_interval_ms) _ _
                nothing-IsOfBench
                (if_both Q s.key_is_down _ _ empty-IsOfBench
                  (command-IsOfBench s.command_index inside))))
    ]

step-IsBench : (e : Event) (s : Bench) → IsBench s → IsBench (step e s).1
unfolding step
step-IsBench (mount now_ms) s h = unfold IsBench in ground arith
step-IsBench umount s h = unfold IsBench in ground arith
step-IsBench (pass now_ms mounted ready) s h = run_bounded_test-IsBench now_ms mounted ready s h

step-IsOfBench : (e : Event) (s : Bench) → IsBench s → IsOfBench (step e s).0
unfolding step
step-IsOfBench (mount now_ms) s h = nothing-IsOfBench
step-IsOfBench umount s h = nothing-IsOfBench
step-IsOfBench (pass now_ms mounted ready) s h = run_bounded_test-IsOfBench now_ms mounted ready s h

-- Over any sequence of events the bench hands over only releases and keys of its sequence, which
-- it never reads past its end.
pub run-IsOfBench :
    (es : List Event) (s : Bench) → IsBench s → All IsOfBench (run es s).0 × IsBench (run es s).1
unfolding run
run-IsOfBench [] s h = (tt, h)
run-IsOfBench (e ∷ es) s h =
    let (sent, last) = run-IsOfBench es (step e s).1 (step-IsBench e s h) in
    ((step-IsOfBench e s h, sent), last)
