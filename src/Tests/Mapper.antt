-- ===== src/Tests/Mapper.antt =====
-- The mapper on a stick to the right, with the frame and its keyboard report.
use red_monkey_mpg_firmware.Base.{
  true, false, some, none, List, [], ◌∷◌, ◌≡◌, ◌⊎◌, refl, pos, negsuc, All, arith,
}
use red_monkey_mpg_firmware.Types.{x, GamepadState, no_input, released}
use red_monkey_mpg_firmware.Mapper.{ControlMapper, new_mapper, default_config, jog_frame, update}
use red_monkey_mpg_firmware.Mapper.Safety.{Permits, moved, update-jog}
use red_monkey_mpg_firmware.Mapper.Phase.{motion}
use red_monkey_mpg_firmware.Mapper.Trace.{Report, run, run-locked}
use red_monkey_mpg_firmware.Mapper.Steps.{run_clicks, click_reports, click_frames}
use red_monkey_mpg_firmware.Keyboard.{masso_g3_keyboard_report}
use red_monkey_mpg_firmware.Keyboard.Masso.{
  read_command, frame_command, read_command-masso_g3_keyboard_report,
}

abbrev fresh : ControlMapper
fresh = new_mapper default_config

abbrev right : GamepadState
right = record no_input { connected = true; sample_ms = 1000; deadman = true; left_x = pos 20000 }

abbrev up : GamepadState
up = record right { left_x = pos 0; left_y = negsuc 29999 }

abbrev resting : GamepadState
resting = record no_input { connected = true; sample_ms = 1000 }

-- X moves to the right, and the keyboard report is the right arrow.
right_key :
    masso_g3_keyboard_report (update fresh right 1020).0 ≡ 0 ∷ 0 ∷ 0x4f ∷ 0 ∷ 0 ∷ 0 ∷ 0 ∷ 0 ∷ []
unfolding masso_g3_keyboard_report update
right_key = refl

-- At 151 ms the report is stale.
stale_releases : (update fresh right 1151).0 ≡ released
unfolding update
stale_releases = refl

update-jog_example :
    Permits fresh right 1020 (moved fresh right 1020)
    × ((update fresh right 1020).0 ≡ jog_frame right (moved fresh right 1020))
    × ((update fresh right 1020).1.locked_axis ≡ some (moved fresh right 1020))
    × ((update fresh right 1020).1.awaiting_center ≡ false)
unfolding update
update-jog_example = update-jog fresh right 1020 refl

right-Permits : Permits fresh right 1020 x
right-Permits = ground arith

-- The stick to the top in two reports, with Z ahead of the others, after the dead-man is released.
abbrev top : GamepadState
top = record right { left_x = pos 30000; right_y = negsuc 19999; rapid = true }

abbrev on_x : ControlMapper
on_x = record fresh { locked_axis = some x }

abbrev both : List Report
both = (record right { left_y = pos 32767 }, 1010) ∷ (up, 1020) ∷ (right, 1030) ∷ []

run-locked_example : All (λ f. (motion f ≡ some x) ⊎ (motion f ≡ none)) (run on_x both).0
run-locked_example = run-locked on_x both x (ground arith) refl (ground arith)

abbrev clicks : List (Report × Report)
clicks =
    ((record resting { cycle_resolution = true }, 1000), (resting, 1010))
    ∷ ((record resting { cycle_resolution = true }, 1020), (resting, 1030))
    ∷ []

run_clicks_example : (run fresh (click_reports clicks)).0 ≡ click_frames 0 clicks
run_clicks_example = run_clicks fresh 0 clicks refl refl (ground arith)

read_command-masso_g3_keyboard_report_example :
    read_command (masso_g3_keyboard_report (jog_frame right x))
    ≡ some (frame_command (jog_frame right x))
read_command-masso_g3_keyboard_report_example =
    read_command-masso_g3_keyboard_report (jog_frame right x)
