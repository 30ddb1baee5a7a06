-- ===== src/Mapper/Safety.antt =====
-- One call of `ControlMapper::update`: when it moves, when it releases, what it keeps.
use red_monkey_mpg_firmware.Base.{
  ℕ, true, false, none, some, ◌≡◌, ◌⊎◌, arith, refl, magnitude, within,
}
use red_monkey_mpg_firmware.Types.{Axis, GamepadState}
use red_monkey_mpg_firmware.Mapper.{
  ControlMapper, MapperConfig, is_stale, axis_value, jog_frame, update, new_mapper, choose_axis,
}

-- An axis stays locked only while no return to center is awaited.
pub record IsValid (m : ControlMapper) : Type 0 where
  pub unlocked : m.awaiting_center ≡ true → m.locked_axis ≡ none

pub new_mapper-IsValid : (c : MapperConfig) → IsValid (new_mapper c)
new_mapper-IsValid c = record { unlocked = λ h. refl }

-- Every update keeps the invariant that an axis is locked only while no return to center is
-- awaited, and keeps the configuration.
pub update-IsValid :
    (m : ControlMapper) (s : GamepadState) (now_ms : ℕ)
    → IsValid m
    → IsValid (update m s now_ms).1 × ((update m s now_ms).1.config ≡ m.config)
unfolding update
update-IsValid m s now_ms v = ground arith

-- What has to hold of a report before its frame may move axis `a`.
pub record Permits (m : ControlMapper) (s : GamepadState) (now_ms : ℕ) (a : Axis) : Type 0 where
  pub connected : s.connected ≡ true
  pub fresh : is_stale m.config s now_ms ≡ false
  pub held : s.deadman ≡ true
  pub not_cancelled : s.cancel ≡ false
  pub not_awaiting : m.awaiting_center ≡ false
  pub deflected : within (magnitude (axis_value s a)) m.config.deadzone ≡ false
  pub lock_kept : (m.locked_axis ≡ some a) ⊎ (m.locked_axis ≡ none) × (choose_axis m.config s ≡ a)

abbrev pub moved : ControlMapper → GamepadState → ℕ → Axis
moved m s now_ms = (update m s now_ms).0.jog.axis

-- A frame that moves comes from a connected, fresh report with the dead-man held and no cancel, on
-- a deflected axis that was locked or is chosen; it is the jog frame of that axis, which is locked
-- afterwards.
pub update-jog :
    (m : ControlMapper) (s : GamepadState) (now_ms : ℕ)
    → (update m s now_ms).0.has_jog ≡ true
    → Permits m s now_ms (moved m s now_ms)
      × ((update m s now_ms).0 ≡ jog_frame s (moved m s now_ms))
      × ((update m s now_ms).1.locked_axis ≡ some (moved m s now_ms))
      × ((update m s now_ms).1.awaiting_center ≡ false)
unfolding update
update-jog m s now_ms h = ground arith
