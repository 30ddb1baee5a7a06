-- ===== src/Usb/Outputs.antt =====
-- What the host sees of a keyboard, for both receivers.
use red_monkey_mpg_firmware.Base.{
  Bool, true, false, not, ◌&&◌, Option, none, some, List, [], ◌∷◌, ◌++◌, if◌then◌else◌, ◌≡◌, All,
}
use red_monkey_mpg_firmware.Keyboard.{KeyboardReport, empty_report}
use red_monkey_mpg_firmware.Usb.{report_has_key}

-- An attempt to hand a report to the host, and whether it was taken.
pub record Attempt : Type 0 where
  pub report : KeyboardReport
  pub taken : Bool

unfoldable pub same_bool : Bool → Bool → Bool
same_bool true b = b
same_bool false b = not b

-- What the host sees: a change of the mount state, or a report that it takes.
pub data Output : Type 0 where
  mount_changed : Output
  took : KeyboardReport → Output

unfoldable pub taken_report : Option Attempt → List Output
taken_report none = []
taken_report (some a) = if a.taken then took a.report ∷ [] else []

-- No report with a key follows another report with a key, unless the host has been away: keys
-- of two reports are never down together.
abbrev pub Separated : KeyboardReport → List Output → Type 0
Separated last [] = Unit
Separated last (mount_changed ∷ os) = Separated empty_report os
Separated last (took r ∷ os) = ((report_has_key r && report_has_key last) ≡ false) × Separated r os

-- The report that the host holds after the outputs.
abbrev pub held : KeyboardReport → List Output → KeyboardReport
held last [] = last
held last (mount_changed ∷ os) = held empty_report os
held last (took r ∷ os) = held r os

pub Separated-append :
    (last : KeyboardReport) (os ps : List Output)
    → Separated last os
    → Separated (held last os) ps
    → Separated last (os ++ ps)
Separated-append last [] ps h k = k
Separated-append last (mount_changed ∷ os) ps h k = Separated-append empty_report os ps h k
Separated-append last (took r ∷ os) ps h k = (h.0, Separated-append r os ps h.1 k)

abbrev pub HasNoKey : Output → Type 0
HasNoKey mount_changed = Unit
HasNoKey (took r) = report_has_key r ≡ false

pub All-append : (os ps : List Output) → All HasNoKey os → All HasNoKey ps → All HasNoKey (os ++ ps)
All-append [] ps h k = k
All-append (o ∷ os) ps h k = (h.0, All-append os ps h.1 k)
