-- ===== src/Tests/Config.antt =====
-- Serial bytes and responses of the configuration service.
use red_monkey_mpg_firmware.Base.{
  ℕ, true, false, List, [], ◌∷◌, ◌++◌, ◌≡◌, refl, arith, length, ltb, All,
}
use red_monkey_mpg_firmware.ConfigService.{
  line, too_large, empty_queue, pending, service_tx, write_line,
}
use red_monkey_mpg_firmware.ConfigService.Framing.{NoNewline, all_frames, kept, has_control}
use red_monkey_mpg_firmware.ConfigService.Sending.{IsQueue, Use, response, pass, run, run-pending}

-- "{}" with a return, a tab, an empty line, and "{}" again.
abbrev lines : List (List ℕ)
lines = (123 ∷ 125 ∷ 13 ∷ []) ∷ (123 ∷ 9 ∷ []) ∷ [] ∷ (123 ∷ 125 ∷ []) ∷ []

lines-NoNewline : All NoNewline lines
lines-NoNewline = ground arith

lines_frames : all_frames lines ≡ line (123 ∷ 125 ∷ []) ∷ too_large ∷ line (123 ∷ 125 ∷ []) ∷ []
unfolding kept has_control
lines_frames = refl

-- A host that takes at most two bytes at once.
abbrev two_bytes : List ℕ → ℕ
two_bytes bs = if_more (length bs)
  where
    if_more : ℕ → ℕ
    if_more n = elim (ltb 2 n) [ true ↦ 2 | false ↦ n ]

empty_queue-IsQueue : IsQueue empty_queue
empty_queue-IsQueue = record { cursor = omega arith; bounded = omega arith }

abbrev uses : List Use
uses = response (123 ∷ 125 ∷ []) two_bytes ∷ response (91 ∷ 93 ∷ []) two_bytes ∷ pass two_bytes ∷ []

run-pending_example :
    ((run uses empty_queue).0 ++ pending (run uses empty_queue).2
      ≡ pending empty_queue ++ (run uses empty_queue).1)
    × IsQueue (run uses empty_queue).2
run-pending_example = run-pending uses empty_queue empty_queue-IsQueue

uses_sent : (run uses empty_queue).0 ≡ 123 ∷ 125 ∷ 10 ∷ 91 ∷ 93 ∷ 10 ∷ []
unfolding run write_line service_tx
uses_sent = refl
