-- ===== src/Tests/KeyboardBench.antt =====
-- The bounded keyboard test, with a pass every 600 ms.
use red_monkey_mpg_firmware.Base.{ℕ, true, List, [], ◌∷◌, ◌≡◌, refl, arith}
use red_monkey_mpg_firmware.KeyboardBench.{new_bench, sequence, run}
use red_monkey_mpg_firmware.KeyboardBench.Due.{IsDue, AreDue, pairs, keys_of, run-pairs}

abbrev times : List (ℕ × ℕ)
times =
    (8000, 8600)
    ∷ (9200, 9800)
    ∷ (10400, 11000)
    ∷ (11600, 12200)
    ∷ (12800, 13400)
    ∷ (14000, 14600)
    ∷ (15200, 15800)
    ∷ []

times-AreDue : AreDue 0 0 times
unfolding AreDue IsDue
times-AreDue = ground arith

run-pairs_example :
    ((run (pairs times) new_bench).0 ≡ keys_of sequence)
    × ((run (pairs times) new_bench).1.finished ≡ true)
run-pairs_example =
    run-pairs sequence times new_bench refl refl refl refl (omega arith) times-AreDue
