-- ===== src/KeyboardBench.antt =====
-- The bounded keyboard test for a computer, firmware/diagnostics/keyboard_bench.cpp.
pub mod Sequence
pub mod Due
use red_monkey_mpg_firmware.Base.{
  ℕ, suc, ◌+◌, Bool, true, false, not, ◌||◌, Option, none, some, List, [], ◌∷◌, ◌++◌, ◌==◌, ltb,
  if◌then◌else◌, length, sub32, get_elem?,
}
use red_monkey_mpg_firmware.Types.{
  JogCommand, x, y, z, negative, positive, normal, rapid, OutputFrame, released,
}
use red_monkey_mpg_firmware.Keyboard.{KeyboardReport, empty_report, masso_g3_keyboard_report}

abbrev pub startup_delay_ms : ℕ
startup_delay_ms = 8000

abbrev pub report_interval_ms : ℕ
report_interval_ms = 600

-- `kSequence`
abbrev pub sequence : List JogCommand
sequence =
    record { axis = x; direction = negative; rate = normal }
    ∷ record { axis = x; direction = positive; rate = normal }
    ∷ record { axis = y; direction = negative; rate = normal }
    ∷ record { axis = y; direction = positive; rate = normal }
    ∷ record { axis = z; direction = negative; rate = normal }
    ∷ record { axis = z; direction = positive; rate = normal }
    ∷ record { axis = x; direction = positive; rate = rapid }
    ∷ []

pub record Bench : Type 0 where
  pub mounted_at_ms : ℕ
  pub last_report_ms : ℕ
  pub command_index : ℕ
  pub key_is_down : Bool
  pub finished : Bool

abbrev pub new_bench : Bench
new_bench = record {
  mounted_at_ms = 0;
  last_report_ms = 0;
  command_index = 0;
  key_is_down = false;
  finished = false;
}

-- The report of a command of the sequence; `none` is a read past its end.
abbrev pub jog_report : JogCommand → KeyboardReport
jog_report jog =
    masso_g3_keyboard_report (record released { release_all = false; has_jog = true; jog = jog })

report_at : Option JogCommand → Option KeyboardReport
report_at none = none
report_at (some jog) = some (jog_report jog)

-- The release after a key.
abbrev pub release : ℕ → Bench → Bench
release now_ms s = record s {
  last_report_ms = now_ms;
  key_is_down = false;
  command_index = s.command_index + 1;
  finished = s.finished || s.command_index + 1 == length sequence;
}

abbrev pub press : ℕ → Bench → Bench
press now_ms s = record s { last_report_ms = now_ms; key_is_down = true }

-- What is handed to the host.
pub data Sent : Type 0 where
  nothing : Sent
  report : KeyboardReport → Sent
  past_the_end : Sent

sent_report : Option KeyboardReport → Sent
sent_report none = past_the_end
sent_report (some r) = report r

-- `run_bounded_test`, with the answers of `tud_mounted` and `tud_hid_ready`.
unfoldable pub run_bounded_test : ℕ → Bool → Bool → Bench → Sent × Bench
unfolding report_at sent_report
run_bounded_test now_ms mounted ready s =
    if s.finished || not mounted || not ready
    then (nothing, s)
    else if ltb (sub32 now_ms s.mounted_at_ms) startup_delay_ms
    then (nothing, s)
    else if ltb (sub32 now_ms s.last_report_ms) report_interval_ms
    then (nothing, s)
    else if s.key_is_down
    then (report empty_report, release now_ms s)
    else (sent_report (report_at (get_elem? sequence s.command_index)), press now_ms s)

-- The callbacks of the USB stack, and a pass of the main loop.
pub data Event : Type 0 where
  mount : ℕ → Event
  umount : Event
  pass : ℕ → Bool → Bool → Event

unfoldable pub step : Event → Bench → Sent × Bench
step (mount now_ms) s =
    (nothing, if s.mounted_at_ms == 0 then record s { mounted_at_ms = now_ms } else s)
step umount s = (nothing, record s { key_is_down = false })
step (pass now_ms mounted ready) s = run_bounded_test now_ms mounted ready s

unfoldable pub run : List Event → Bench → List Sent × Bench
run [] s = ([], s)
run (e ∷ es) s =
    let (sent, next) = step e s in let (more, last) = run es next in (sent ∷ more, last)
