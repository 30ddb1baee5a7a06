-- ===== src/Mapper/Trace.antt =====
-- The main loop of firmware/src/main.cpp over a sequence of polled reports, each with its time.
use red_monkey_mpg_firmware.Base.{
  ℕ, true, false, not, ◌&&◌, ◌||◌, none, some, List, [], ◌∷◌, ◌≡◌, ◌⊎◌, arith, refl, All, inl, ◌∙◌,
}
use red_monkey_mpg_firmware.Types.{Axis, GamepadState, OutputFrame}
use red_monkey_mpg_firmware.Mapper.{MapperConfig, ControlMapper, is_stale, all_centered, update}
use red_monkey_mpg_firmware.Mapper.Safety.{IsValid, update-IsValid}
use red_monkey_mpg_firmware.Mapper.Phase.{
  Phase, locked, waiting, phase, motion, advance, update-advance,
}

abbrev pub Report : Type 0
Report = GamepadState × ℕ

-- The frames that are sent, and the mapper at the end.
unfoldable pub run : ControlMapper → List Report → List OutputFrame × ControlMapper
run m [] = ([], m)
run m ((s, now_ms) ∷ rs) =
    let next = run (update m s now_ms).1 rs in ((update m s now_ms).0 ∷ next.0, next.1)

pub run-IsValid :
    (m : ControlMapper) (rs : List Report)
    → IsValid m
    → IsValid (run m rs).1 × ((run m rs).1.config ≡ m.config)
unfolding run
run-IsValid m [] v = (v, refl)
run-IsValid m ((s, now_ms) ∷ rs) v =
    ground (arith, update-IsValid m s now_ms v, run-IsValid (update m s now_ms).1 rs)

-- A report that comes in time and is not neutral: cancelling, or armed with a stick deflected.
abbrev pub IsEngaged : MapperConfig → Report → Type 0
IsEngaged c (s, now_ms) =
    (s.connected ≡ true)
    × (is_stale c s now_ms ≡ false)
    × ((s.cancel || (s.deadman && not (all_centered c s))) ≡ true)

-- The phases in which no other axis than `a` can move before a neutral report.
abbrev pub Confined : Axis → Phase → Type 0
Confined a p = (p ≡ locked a) ⊎ (p ≡ waiting)

advance-Confined :
    (c : MapperConfig) (s : GamepadState) (now_ms : ℕ) (a : Axis) (p : Phase)
    → IsEngaged c (s, now_ms)
    → Confined a p
    → Confined a (advance c s now_ms p).1
      × (((advance c s now_ms p).0 ≡ some a) ⊎ ((advance c s now_ms p).0 ≡ none))
unfolding advance
advance-Confined c s now_ms a p e h = ground arith

advance-waiting :
    (c : MapperConfig) (s : GamepadState) (now_ms : ℕ)
    → IsEngaged c (s, now_ms)
    → advance c s now_ms waiting ≡ (none, waiting)
unfolding advance
advance-waiting c s now_ms e = ground arith

-- What a mapper keeps over such reports, with the configuration `c`.
record Keeps (c : MapperConfig) (a : Axis) (m : ControlMapper) : Type 0 where
  valid : IsValid m
  same_config : m.config ≡ c
  confined : Confined a (phase m)

update-Keeps :
    (c : MapperConfig) (a : Axis) (m : ControlMapper) (s : GamepadState) (now_ms : ℕ)
    → IsEngaged c (s, now_ms)
    → Keeps c a m
    → Keeps c a (update m s now_ms).1
      × ((motion (update m s now_ms).0 ≡ some a) ⊎ (motion (update m s now_ms).0 ≡ none))
update-Keeps c a m s now_ms e k = ground (
  arith,
  update-IsValid m s now_ms k.valid,
  update-advance m s now_ms k.valid,
  advance-Confined c s now_ms a (phase m) e k.confined,
)

run-Keeps :
    (c : MapperConfig) (a : Axis) (m : ControlMapper) (rs : List Report)
    → All (IsEngaged c) rs
    → Keeps c a m
    → All (λ f. (motion f ≡ some a) ⊎ (motion f ≡ none)) (run m rs).0
unfolding run
run-Keeps c a m [] h k = tt
run-Keeps c a m ((s, now_ms) ∷ rs) h k =
    let (kept, moves) = update-Keeps c a m s now_ms h.0 k in
    (moves, run-Keeps c a (update m s now_ms).1 rs h.1 kept)

-- Once an axis is locked no frame moves another axis over reports that are in time and not
-- neutral.
pub run-locked :
    (m : ControlMapper) (rs : List Report) (a : Axis)
    → IsValid m
    → phase m ≡ locked a
    → All (IsEngaged m.config) rs
    → All (λ f. (motion f ≡ some a) ⊎ (motion f ≡ none)) (run m rs).0
run-locked m rs a v p h =
    run-Keeps m.config a m rs h (record { valid = v; same_config = refl; confined = inl p })

run-waiting_from :
    (c : MapperConfig) (m : ControlMapper) (rs : List Report)
    → IsValid m
    → m.config ≡ c
    → phase m ≡ waiting
    → All (IsEngaged c) rs
    → All (λ f. motion f ≡ none) (run m rs).0
unfolding run
run-waiting_from c m [] v e p h = tt
run-waiting_from c m ((s, now_ms) ∷ rs) v e p h =
    let (v', e') = update-IsValid m s now_ms v in
    let (still, stays) = update-advance m s now_ms v in
    let moves = advance-waiting c s now_ms h.0 in
    (ground arith, run-waiting_from c (update m s now_ms).1 rs v' (e' ∙ e) (ground arith) h.1)

-- After a cancel in time no frame moves an axis over further reports that are in time and not
-- neutral.
pub run-cancel :
    (m : ControlMapper) (s : GamepadState) (now_ms : ℕ) (rs : List Report)
    → IsValid m
    → s.connected ≡ true
    → is_stale m.config s now_ms ≡ false
    → s.cancel ≡ true
    → All (IsEngaged m.config) rs
    → All (λ f. motion f ≡ none) (run m ((s, now_ms) ∷ rs)).0
unfolding run update
run-cancel m s now_ms rs v live fresh stop h =
    let (v', e') = update-IsValid m s now_ms v in
    (ground arith, run-waiting_from m.config (update m s now_ms).1 rs v' e' (ground arith) h)
