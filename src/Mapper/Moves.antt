-- ===== src/Mapper/Moves.antt =====
-- How the operator moves an axis: the stick of the axis, its direction as the machine has it, and
-- the two rate buttons, over a sequence of reports.
use red_monkey_mpg_firmware.Base.{
  ℕ, zero, ◌≤◌, ◌<◌, suc, true, false, List, [], ◌∷◌, ◌≡◌, ℤ, pos, negsuc, magnitude, sub32, Bool,
  Option,
}
use red_monkey_mpg_firmware.Types.{
  Axis, x, y, z, Direction, positive, negative, JogRate, precision, normal, rapid, GamepadState,
  OutputFrame,
}
use red_monkey_mpg_firmware.Mapper.{ControlMapper}
use red_monkey_mpg_firmware.Mapper.Trace.{Report}

-- The stick of an axis: left for X and Y, right for Z.
abbrev pub stick_of : Axis → GamepadState → ℤ
stick_of x s = s.left_x
stick_of y s = s.left_y
stick_of z s = s.right_y

-- The way the machine goes: X to the right of the stick, Y and Z to its top, where the gamepad
-- counts downward.
abbrev pub way : Axis → ℤ → Direction
way x (pos (suc n)) = positive
way x (pos zero) = negative
way x (negsuc n) = negative
way y (pos n) = negative
way y (negsuc n) = positive
way z (pos n) = negative
way z (negsuc n) = positive

abbrev pub rate_for : Bool → Bool → JogRate
rate_for true _ = precision
rate_for false true = rapid
rate_for false false = normal

-- Connected, and no older than the mapper allows.
abbrev pub IsInTime : ℕ → Report → Type 0
IsInTime timeout (s, now_ms) = (s.connected ≡ true) × (sub32 now_ms s.sample_ms ≤ timeout)

-- The dead-man is released; the sticks may be anywhere.
abbrev pub IsLetGo : ℕ → Report → Type 0
IsLetGo timeout (s, now_ms) =
    IsInTime timeout (s, now_ms) × (s.cancel ≡ false) × (s.deadman ≡ false)

-- The dead-man is held, and the stick of the axis is out of the dead zone.
abbrev pub Asks : ℕ → ℕ → Axis → Report → Type 0
Asks timeout deadzone a (s, now_ms) =
    IsInTime timeout (s, now_ms)
    × (s.cancel ≡ false)
    × (s.deadman ≡ true)
    × (deadzone < magnitude (stick_of a s))

-- Which axis is locked: Z before the others, then X unless Y is deflected more.
abbrev pub IsFirst : ℕ → Axis → GamepadState → Type 0
IsFirst deadzone z s = Unit
IsFirst deadzone x s = (magnitude s.right_y ≤ deadzone) × (magnitude s.left_y ≤ magnitude s.left_x)
IsFirst deadzone y s = (magnitude s.right_y ≤ deadzone) × (magnitude s.left_x < magnitude s.left_y)

-- The frame jogs the axis, and nothing else.
abbrev pub IsMove : Axis → GamepadState → OutputFrame → Type 0
IsMove a s f =
    (f.release_all ≡ false)
    × (f.has_jog ≡ true)
    × (f.has_step_resolution ≡ false)
    × (f.jog.axis ≡ a)
    × (f.jog.direction ≡ way a (stick_of a s))
    × (f.jog.rate ≡ rate_for s.precision s.rapid)

abbrev pub AreMoves : Axis → List Report → List OutputFrame → Type 0
AreMoves a [] [] = Unit
AreMoves a ((s, now_ms) ∷ rs) (f ∷ fs) = IsMove a s f × AreMoves a rs fs
AreMoves a _ _ = ⊥

-- What a mapper has that follows an axis, with these limits.
record Follows (timeout deadzone : ℕ) (locked : Option Axis) (m : ControlMapper) : Type 0 where
  same_timeout : m.config.stale_timeout_ms ≡ timeout
  same_deadzone : m.config.deadzone ≡ pos deadzone
  not_awaiting : m.awaiting_center ≡ false
  same_lock : m.locked_axis ≡ locked
