-- ===== src/Lib.antt =====
-- The firmware of the Red Monkey MPG, a hand-held pendant for CNC machines: a receiver takes
-- frames from a phone over Bluetooth LE, or reports of a gamepad, and types the keys of a MASSO
-- controller over USB. The code must never type a motion key that the operator does not hold.
--
-- Parts, with the files of the repository that they model:
--   Types       firmware/include/red_monkey_mpg/types.hpp: the control state `GamepadState`, and
--               the output frame with one jog or one step selection.
--   Mapper      firmware/src/control_mapper.cpp: `ControlMapper::update`, one report to one frame;
--               Mapper/Trace runs the loop of firmware/src/main.cpp over polled reports.
--               Mapper/Phase has the abstract machine: free, locked to an axis, or waiting, and
--               Mapper/Moves says what the operator asks for with sticks and buttons.
--   Keyboard    firmware/src/masso_keyboard.cpp: the registry of CNC profiles, and the frame as
--               the eight bytes of a boot keyboard report. Keyboard/Masso is the machine's reading
--               of a report, after docs/cnc-profiles.
--   Production  firmware/src/production_config.cpp: the validation of a button mapping, and the
--               control state that a mapping makes of a raw report.
--   Profile     firmware/src/controller_profile.cpp: the choice of a gamepad profile by a probe.
--   Lite2       firmware/src/lite2_report.cpp: the one built-in profile with its report parser.
--   Mobile      firmware/src/mobile_protocol.cpp: the ten-byte frame of the phone, its check byte,
--               and the session that refuses replays and fires each event once.
--   Usb         firmware/usb/usb_keyboard_device.c: mounted, ready and send. Usb/Outputs says of a
--               run of reports when keys are apart.
--   Receiver    firmware/diagnostics/mobile_ble_bench.cpp: the receiver of the phone, with a field
--               for each variable of the file; Receiver/Handlers has its callbacks and services.
--               Receiver/Handlers/Trace runs them in any order. A write goes through Mobile, Mapper
--               and Keyboard to the wanted report, and the USB service hands it to the host.
--   Bridge      firmware/diagnostics/live_bridge_bench.cpp: the bridge of a gamepad, with a field
--               for each variable of the file and the path of a report through Lite2, Profile,
--               Production, Mapper and Keyboard to the wanted report. Bridge/Pairing has the choice
--               of a new controller, Bridge/Packets the handler of Bluetooth packets, Bridge/Loop
--               the services, the main loop and the timers as a step over events. Bridge/Setup is
--               the setup service over the bridge; to Bridge/Loop it is a list of requests.
--               There the events that a hook emits in a pass go into the queue of the service before
--               the response; an event that a packet or a report emits is a call alone.
--               The other children have proofs: Lock, Kept, Keys, Silent, Motion, Chord, Target,
--               Bonds and Timing; Setup/Session compares the setup service with
--               the requests, and Setup/Valid follows the mapping in use.
--   Address     firmware/src/persistent_config.cpp: a Bluetooth address as text, read as `sscanf`
--               reads it and printed.
--   Storage     the same file: the packed record of 44 bytes, its CRC-32, and its mapping.
--   Persistent  the same file: the object `PersistentConfig` with its two slots in the flash.
--               `store` writes the slot that is not loaded and reads it back.
--   ConfigService  firmware/src/config_service.cpp: the frames that the serial loop cuts from the
--               received bytes, and the queue of response lines. ConfigService/Text reads a key of a
--               line, Mapping the members of a mapping, Requests answers a line, and Service is a
--               pass of the service. The program around it, with its mapping, its storage and its
--               hooks, is the record `Client` over that program's state, with the
--               events that a call of a hook emits.
--   KeyboardBench  firmware/diagnostics/keyboard_bench.cpp: the keyboard test for a computer.
--   Identity    firmware/src/descriptor_identity.c: the digest of a descriptor as text, and the
--               comparison with an expected text.
--   Base        numbers, integers, lists and the bits of numbers.
--
-- Machine integers are natural numbers with the wrap-around written out: `u8`, `u16` and `sub16`,
-- `sub32` for the difference of two times. Sticks are integers. A buffer is the list of its
-- bytes, as many as its length, a text in it is the bytes before its NUL, and a null pointer is
-- `none`; `get_or` gives 0 past the end, where the code does not read. Theorems that need a byte
-- below 256 say so. All loops of the modelled code run over a given table, buffer or number of
-- bits and are structural recursion, so no fuel is used; a run is over a given list of events.
-- `decimal` prints at most a given number of digits, ten for a number of 32 bits.
--
-- Parameters: the answers of TinyUSB are the record `Host`, one for each call of a service, within
-- which they do not change, and `Port` for the serial port; what the receiver uses of BTstack is the
-- record `Att`, and what the bridge uses of it the record `Platform`, with the answers of its calls
-- in the events. Nothing is assumed of these, but for `ReadsAddress`, the reading of a printed
-- address. The tag-value store of BTstack is the record `Tlv` over the state of the flash, on which
-- alone a read depends; `IsTlv` and `FillsRecord` say what is assumed of it. The SHA-256 of the chip
-- is a function in Identity and in `Platform`. The texts of `set_identity` are a function of the
-- program's state. Times are given with each event, and may be any.
--
-- Not modelled: printing, the set-up of the Bluetooth and USB stacks, the confirmation of a
-- pairing in the phone's receiver, the descriptors, the diagnostic printing of inputs, and the
-- bench programs that only print what they see.
mod Base
pub mod Types
pub mod Mapper
pub mod Keyboard
pub mod Production
pub mod Profile
pub mod Lite2
pub mod Mobile
pub mod Usb
pub mod Receiver
pub mod Address
pub mod Storage
pub mod Persistent
pub mod ConfigService
pub mod Identity
pub mod KeyboardBench
pub mod Bridge
mod Tests
