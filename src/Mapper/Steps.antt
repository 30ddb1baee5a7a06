-- ===== src/Mapper/Steps.antt =====
-- The step-resolution buttons over a sequence of reports.
use red_monkey_mpg_firmware.Base.{
  true, false, List, [], ◌∷◌, ◌≡◌, ap, arith, refl, All, Bool, ◌∙◌, ℕ, ◌+◌, ◌%◌, ◌==◌,
  if◌then◌else◌,
}
use red_monkey_mpg_firmware.Types.{
  GamepadState, OutputFrame, StepResolution, released, mm_0_01, mm_0_10, mm_0_50, mm_1_00,
}
use red_monkey_mpg_firmware.Mapper.{
  MapperConfig, ControlMapper, is_stale, all_centered, update, resolution_after, step_frame,
}
use red_monkey_mpg_firmware.Mapper.Trace.{Report, run}

-- In time, not cancelling, with the dead-man released and no direct step selected.
abbrev pub IsIdle : MapperConfig → Report → Type 0
IsIdle c (s, now_ms) =
    (s.connected ≡ true)
    × (is_stale c s now_ms ≡ false)
    × (s.cancel ≡ false)
    × (s.deadman ≡ false)
    × (s.select_resolution ≡ false)

-- One press of the cycle button, at centered sticks, and its release.
abbrev pub IsClick : MapperConfig → Report × Report → Type 0
IsClick c ((s, now_ms), (t, later_ms)) =
    IsIdle c (s, now_ms)
    × (all_centered c s ≡ true)
    × (s.cycle_resolution ≡ true)
    × IsIdle c (t, later_ms)
    × (t.cycle_resolution ≡ false)

abbrev pub click_reports : List (Report × Report) → List Report
click_reports [] = []
click_reports ((r, r') ∷ cs) = r ∷ r' ∷ click_reports cs

-- The four steps in millimetres, in the order in which clicks go round them.
abbrev pub nth_step : ℕ → StepResolution
nth_step n =
    if n % 4 == 0
    then mm_0_01
    else if n % 4 == 1
    then mm_0_10
    else if n % 4 == 2
    then mm_0_50
    else mm_1_00

-- The frame that selects a step, and does nothing else.
abbrev pub selects : StepResolution → OutputFrame
selects r = record {
  release_all = false;
  has_jog = false;
  jog = released.jog;
  has_step_resolution = true;
  step_resolution = r;
}

-- For each click the next step and its release; the first is the n-th.
abbrev pub click_frames : ℕ → List (Report × Report) → List OutputFrame
click_frames n [] = []
click_frames n (c ∷ cs) = selects (nth_step n) ∷ released ∷ click_frames (n + 1) cs

resolution_after-nth_step : (n : ℕ) → resolution_after (nth_step n) ≡ nth_step (n + 1)
resolution_after-nth_step n = ground arith

update_click :
    (m : ControlMapper) (s t : GamepadState) (now_ms later_ms : ℕ)
    → IsClick m.config ((s, now_ms), (t, later_ms))
    → m.resolution_button_was_pressed ≡ false
    → let (f, m') = update m s now_ms in
      let (g, m'') = update m' t later_ms in
      (f ≡ step_frame m.next_resolution)
      × (g ≡ released)
      × (m''.config ≡ m.config)
      × (m''.next_resolution ≡ resolution_after m.next_resolution)
      × (m''.resolution_button_was_pressed ≡ false)
unfolding update
update_click m s t now_ms later_ms h b = ground arith

run_clicks_from :
    (c : MapperConfig) (n : ℕ) (m : ControlMapper) (cs : List (Report × Report))
    → m.config ≡ c
    → m.next_resolution ≡ nth_step n
    → m.resolution_button_was_pressed ≡ false
    → All (IsClick c) cs
    → (run m (click_reports cs)).0 ≡ click_frames n cs
unfolding run
run_clicks_from c n m [] e r b h = refl
run_clicks_from c n m (((s, now_ms), (t, later_ms)) ∷ cs) e r b h =
    let m' = (update m s now_ms).1 in
    let m'' = (update m' t later_ms).1 in
    let clicked = update_click m s t now_ms later_ms (rw e h.0) b in
    let next : m''.next_resolution ≡ nth_step (n + 1) =
      clicked.3 ∙ ap resolution_after r ∙ resolution_after-nth_step n in
    let first : (update m s now_ms).0 ≡ selects (nth_step n) = clicked.0 ∙ ap step_frame r in
    rw (first, clicked.1, run_clicks_from c (n + 1) m'' cs (clicked.2 ∙ e) next clicked.4 h.1) refl

-- Each press and release of the cycle button, with idle reports and a latch that is open, sends
-- one step selection, and the selections go round 0.01, 0.10, 0.50 and 1.00 mm in this order, from
-- the step that is next.
pub run_clicks :
    (m : ControlMapper) (n : ℕ) (cs : List (Report × Report))
    → m.next_resolution ≡ nth_step n
    → m.resolution_button_was_pressed ≡ false
    → All (IsClick m.config) cs
    → (run m (click_reports cs)).0 ≡ click_frames n cs
run_clicks m n cs r b h = run_clicks_from m.config n m cs refl r b h

-- A report in time in which the two step buttons are as the latches hold them.
abbrev pub IsSteady : MapperConfig → Bool → Bool → Report → Type 0
IsSteady c cycle select (s, now_ms) =
    (s.connected ≡ true)
    × (is_stale c s now_ms ≡ false)
    × (s.cycle_resolution ≡ cycle)
    × (s.select_resolution ≡ select)

update_steady :
    (m : ControlMapper) (s : GamepadState) (now_ms : ℕ)
    → IsSteady m.config m.resolution_button_was_pressed m.selection_button_was_pressed (s, now_ms)
    → let (f, m') = update m s now_ms in
      (f.has_step_resolution ≡ false)
      × (m'.config ≡ m.config)
      × (m'.resolution_button_was_pressed ≡ m.resolution_button_was_pressed)
      × (m'.selection_button_was_pressed ≡ m.selection_button_was_pressed)
unfolding update
update_steady m s now_ms h = ground arith

run_steady_from :
    (c : MapperConfig) (p q : Bool) (m : ControlMapper) (rs : List Report)
    → m.config ≡ c
    → m.resolution_button_was_pressed ≡ p
    → m.selection_button_was_pressed ≡ q
    → All (IsSteady c p q) rs
    → All (λ f. f.has_step_resolution ≡ false) (run m rs).0
unfolding run
run_steady_from c p q m [] e b d h = tt
run_steady_from c p q m ((s, now_ms) ∷ rs) e b d h =
    let m' = (update m s now_ms).1 in
    let kept = update_steady m s now_ms (rw (e, b, d) h.0) in
    (kept.0, run_steady_from c p q m' rs (kept.1 ∙ e) (kept.2 ∙ b) (kept.3 ∙ d) h.1)

-- While the two step buttons stay as they were latched, in reports that come in time, no frame
-- selects a step.
pub run_steady :
    (m : ControlMapper) (rs : List Report)
    → All (IsSteady m.config m.resolution_button_was_pressed m.selection_button_was_pressed) rs
    → All (λ f. f.has_step_resolution ≡ false) (run m rs).0
run_steady m rs h =
    run_steady_from m.config m.resolution_button_was_pressed m.selection_button_was_pressed m rs
      refl refl refl h
