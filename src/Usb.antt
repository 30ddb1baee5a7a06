-- ===== src/Usb.antt =====
-- The keyboard side of the USB device, firmware/usb/usb_keyboard_device.c, and what the two
-- receivers ask of reports. TinyUSB's answers are the record `Host`.
pub mod Outputs
use red_monkey_mpg_firmware.Base.{
  ℕ, List, get_or, drop, Bool, true, false, not, ◌&&◌, ◌||◌, [], ◌∷◌, ◌==◌, ◌≡◌, ◌↔◌, refl, arith,
}
use red_monkey_mpg_firmware.Keyboard.{KeyboardReport, empty_report}

-- What `tud_mounted`, `tud_hid_ready` and `tud_hid_keyboard_report` (of report ID 0) return.
pub record Host : Type 0 where
  pub tud_mounted : Bool
  pub tud_hid_ready : Bool
  pub tud_hid_keyboard_report : ℕ → List ℕ → Bool

-- The suspend flag of the device, and the host at the moment.
pub record UsbKeyboard : Type 0 where
  pub usb_suspended : Bool
  pub host : Host

-- `tud_mount_cb`, `tud_umount_cb`, `tud_suspend_cb` and `tud_resume_cb`.
pub data UsbCallback : Type 0 where
  mount umount suspend resume : UsbCallback

unfoldable pub usb_callback : UsbCallback → UsbKeyboard → UsbKeyboard
usb_callback suspend u = record u { usb_suspended = true }
usb_callback mount u = record u { usb_suspended = false }
usb_callback umount u = record u { usb_suspended = false }
usb_callback resume u = record u { usb_suspended = false }

unfoldable pub usb_keyboard_mounted : UsbKeyboard → Bool
usb_keyboard_mounted u = u.host.tud_mounted && not u.usb_suspended

unfoldable pub usb_keyboard_ready : UsbKeyboard → Bool
unfolding usb_keyboard_mounted
usb_keyboard_ready u = usb_keyboard_mounted u && u.host.tud_hid_ready

-- Whether the report was handed to the host: its modifier and its keys, not the reserved byte.
unfoldable pub usb_keyboard_send : UsbKeyboard → KeyboardReport → Bool
unfolding usb_keyboard_ready
usb_keyboard_send u report =
    usb_keyboard_ready u && u.host.tud_hid_keyboard_report (get_or report 0 0) (drop 2 report)

-- Some byte is not 0.
unfoldable pub report_has_key : KeyboardReport → Bool
report_has_key [] = false
report_has_key (b ∷ bs) = not (b == 0) || report_has_key bs

-- `==` of two arrays.
unfoldable pub same_report : KeyboardReport → KeyboardReport → Bool
same_report [] [] = true
same_report (a ∷ as') (b ∷ bs) = a == b && same_report as' bs
same_report _ _ = false

pub same_report_iff : (r q : KeyboardReport) → (same_report r q ≡ true) ↔ (r ≡ q)
unfolding same_report
same_report_iff (a ∷ r) (b ∷ q) = ground (arith, same_report_iff r q)
same_report_iff _ _ = ground arith

pub empty_report_no_key : report_has_key empty_report ≡ false
unfolding report_has_key
empty_report_no_key = refl
