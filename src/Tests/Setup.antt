-- ===== src/Tests/Setup.antt =====
-- Sessions with the setup service: its answers, a mapping that is stored, and the bounds.
use red_monkey_mpg_firmware.Base.{
  ℕ, Bool, not, ◌&&◌, ◌==◌, suc, zero, ◌*◌, true, none, some, List, [], ◌∷◌, ◌++◌, ◌≡◌, refl, arith,
  length, ◌↔◌, is_some, All,
}
use red_monkey_mpg_firmware.Base.Codes.{codes}
use red_monkey_mpg_firmware.Production.{
  ProductionMapping, default_mapping, validate_production_mapping, valid, step_0_01,
  is_motion_control, is_safe_face_action, is_step_action,
}
use red_monkey_mpg_firmware.Persistent.{same_bytes}
use red_monkey_mpg_firmware.Bridge.{Bridge, new_bridge}
use red_monkey_mpg_firmware.Bridge.Pairing.{start_pairing_scan, request_scan}
use red_monkey_mpg_firmware.Bridge.Loop.{
  Request, service_config, Event, pass, save_mapping, final, boot,
}
use red_monkey_mpg_firmware.Bridge.Setup.Valid.{EventSavesValid, UsesValid, boot-UsesValid}
use red_monkey_mpg_firmware.Bridge.Setup.{bridge_client, setup_pass}
use red_monkey_mpg_firmware.Bridge.Setup.Session.{SavesValid, setup_pass-service_config}
use red_monkey_mpg_firmware.Tests.Bridge.{platform, host}
use red_monkey_mpg_firmware.Tests.Storage.{Flash, tlv, blank}
use red_monkey_mpg_firmware.ConfigService.{no_bytes, service_tx, write_line, receive, end_line}
use red_monkey_mpg_firmware.ConfigService.Framing.{NoNewline, joined, all_frames, kept, has_control}
use red_monkey_mpg_firmware.ConfigService.Text.{
  begins, strstr, find_once, read_string, strtoul, is_digit, read_unsigned,
}
use red_monkey_mpg_firmware.ConfigService.Text.Once.{count, find_once_lem}
use red_monkey_mpg_firmware.ConfigService.Mapping.{
  parse_mapping, read_texts, assign, control_mask, button_action, profile_by_text, Texts,
}
use red_monkey_mpg_firmware.ConfigService.Mapping.Words.{parse_mapping_sound, Names}
use red_monkey_mpg_firmware.ConfigService.Requests.{
  Client, Identity, answer, is_one, set_config, save_parsed, after_protocol, command_response,
  scan_response, whole_response, response_text, pairing_state,
}
use red_monkey_mpg_firmware.ConfigService.Service.{
  Port, service, put_line, handle_frames, serve_byte, serve_bytes, service_connected, read_requests,
  frame_response, emit_all, emit, emit_pairing_state, pairing_state_text, whole_pairing_state,
}
use red_monkey_mpg_firmware.ConfigService.Service.Replies.{ready, replies}
use red_monkey_mpg_firmware.ConfigService.Service.Passes.{open_port, passes, passes-joined}
use red_monkey_mpg_firmware.ConfigService.Service.Bounds.{IsService, IsTaken, service-IsService}

-- A program that is only its mapping, and stores each.
abbrev pub identity : ProductionMapping → Identity
identity m = record {
  serial = codes "0123";
  firmware = codes "1.2";
  controller = none;
  address = none;
}

abbrev pub client : Client ProductionMapping
client = record {
  identity = identity;
  mapping = λ m. m;
  set_mapping = λ n m. n;
  sequence = λ m. 42;
  store = λ n m. (true, m);
  start_scan = none;
  select_candidate = none;
  confirm_pairing = none;
  cancel_pairing = none;
  events = λ m n. [];
}

abbrev pub set_line : List ℕ
set_line =
    codes "{\"protocol\":1,\"command\":\"SET_CONFIG\",\"schema\":1,\"mapping\":{"
    ++ (codes "\"deadman\":\"L1\",\"continuous\":\"R2\",\"resolution\":\"UNASSIGNED\","
        ++ (codes "\"faceA\":\"STEP_0_01\",\"faceB\":\"CANCEL\","
            ++ codes "\"faceX\":\"UNASSIGNED\",\"faceY\":\"UNASSIGNED\"}}"))

abbrev pub set_mapping : ProductionMapping
set_mapping = record default_mapping { deadman_mask = 0x40; face_a = step_0_01 }

set_line-mapping : parse_mapping set_line default_mapping ≡ some set_mapping
unfolding parse_mapping begins strstr find_once read_string read_texts assign control_mask
    button_action profile_by_text same_bytes validate_production_mapping is_motion_control
    is_safe_face_action is_step_action
set_line-mapping = refl

parse_mapping_sound_example :
    (validate_production_mapping set_mapping ≡ valid)
    × (set_mapping.precision_mask ≡ default_mapping.precision_mask)
    × ((texts : Texts) × (read_texts set_line ≡ some texts)
        × (set_mapping ≡ assign texts set_mapping)
        × Names set_line texts set_mapping)
parse_mapping_sound_example =
    parse_mapping_sound set_line default_mapping set_mapping set_line-mapping

find_once_lem_example :
    ((is_some (find_once set_line (codes "\"schema\":")) ≡ true)
      ↔ (count (codes "\"schema\":") set_line ≡ 1))
    × ((rest : List ℕ)
        → find_once set_line (codes "\"schema\":") ≡ some rest
        → (before : List ℕ) × (set_line ≡ before ++ (codes "\"schema\":" ++ rest)))
find_once_lem_example = find_once_lem set_line (codes "\"schema\":")

-- A key that stands twice is not found.
twice : find_once (codes "{\"a\":1,\"a\":2}") (codes "\"a\":") ≡ none
unfolding begins strstr find_once
twice = refl

-- A mapping to store, a line that is too short, and an empty one.
abbrev lines : List (List ℕ)
lines = set_line ∷ codes "{}" ∷ [] ∷ []

lines_answered : replies client (all_frames lines) default_mapping ≡ (
  codes "{\"protocol\":1,\"ok\":true,\"result\":{\"saved\":true}}"
      ++ (10
          ∷ (codes "{\"protocol\":1,\"ok\":false,\"error\":\"UNSUPPORTED_PROTOCOL\"}"
              ++ (10 ∷ []))),
  set_mapping,
)
unfolding replies frame_response answer is_one set_config save_parsed after_protocol
    command_response whole_response response_text parse_mapping begins strstr find_once read_string
    read_unsigned strtoul is_digit read_texts assign control_mask button_action profile_by_text
    same_bytes validate_production_mapping is_motion_control is_safe_face_action is_step_action kept
    has_control
lines_answered = refl

-- A hook that emits an event in every request: the event goes out before the response.
abbrev telling_client : Client ProductionMapping
telling_client = record client { events = λ m n. pairing_state (codes "saved") ∷ [] }

event_first :
    (handle_frames telling_client length
      (all_frames (codes "{}" ∷ []))
      (ready default_mapping no_bytes)).0
    ≡ codes "{\"protocol\":1,\"event\":\"PAIRING_STATE\",\"state\":\"saved\"}"
      ++ (10
          ∷ (codes "{\"protocol\":1,\"ok\":false,\"error\":\"UNSUPPORTED_PROTOCOL\"}" ++ (10 ∷ [])))
unfolding handle_frames emit_all emit emit_pairing_state pairing_state_text whole_pairing_state
    frame_response put_line write_line service_tx answer is_one whole_response response_text begins
    strstr find_once read_unsigned kept has_control
event_first = refl

plain : List ℕ → Bool
plain [] = true
plain (b ∷ bs) = not (b == 10) && plain bs

plain-NoNewline : (bs : List ℕ) → plain bs ≡ true → NoNewline bs
unfolding plain
plain-NoNewline [] h = ground arith
plain-NoNewline (b ∷ bs) h = ground (arith, plain-NoNewline bs)

lines-NoNewline : All NoNewline lines
unfolding plain
lines-NoNewline = (plain-NoNewline set_line refl, (plain-NoNewline (codes "{}") refl, (tt, tt)))

passes-joined_example :
    passes client 1 open_port (joined lines) (ready default_mapping no_bytes) ≡ (
      let (text, last) = replies client (all_frames lines) default_mapping in
      (text, [], ready last no_bytes))
passes-joined_example = passes-joined client 1 lines default_mapping lines-NoNewline (omega arith)

new-IsService : IsService (ready default_mapping no_bytes)
new-IsService = record {
  line_fits = omega arith;
  queue_fits = record { cursor = omega arith; bounded = omega arith };
}

service-IsService_example :
    let (_, left, last) =
      service client open_port (joined lines) (ready default_mapping no_bytes) in
    IsTaken 256 (joined lines) left × IsService last
service-IsService_example =
    service-IsService client open_port (joined lines) (ready default_mapping no_bytes) new-IsService

-- The same mapping, asked of the bridge with a blank flash.
abbrev bridge : Bridge Flash
bridge = new_bridge blank

abbrev bridge_identity : Bridge Flash → Identity
bridge_identity s = identity s.production_mapping

setup_pass-service_config_example :
    (rs : List Request) × All SavesValid rs
    × ((setup_pass platform
          (some tlv)
          bridge_identity
          7
          true
          open_port
          (joined lines)
          (ready bridge no_bytes)).2.program
        ≡ service_config platform (some tlv) true rs bridge)
setup_pass-service_config_example =
    setup_pass-service_config platform (some tlv) bridge_identity 7 true open_port (joined lines)
      (ready bridge no_bytes)

-- A pass that saves the mapping.
abbrev save_pass : List Event
save_pass =
    pass (record {
      config_connected = true;
      requests = save_mapping set_mapping ∷ [];
      now_ms = 7;
      usb = host;
    })
    ∷ []

save_pass-SavesValid : All EventSavesValid save_pass
unfolding EventSavesValid SavesValid validate_production_mapping is_motion_control
    is_safe_face_action is_step_action
save_pass-SavesValid = ((refl, tt), tt)

boot-UsesValid_example :
    UsesValid (final platform (some tlv) save_pass (boot platform (some tlv) blank))
boot-UsesValid_example = boot-UsesValid platform (some tlv) blank save_pass save_pass-SavesValid

-- The request of a scan reaches the bridge.
abbrev scan_line : List ℕ
scan_line = codes "{\"protocol\":1,\"command\":\"START_SCAN\"}"

scan_asked :
    let (response, s) =
      answer (bridge_client platform (some tlv) bridge_identity 7 true) scan_line bridge in
    (response.ok ≡ true) × (s.pairing_scan_requested ≡ true) × (s.pairing_scan_requested_ms ≡ 7)
unfolding bridge_client answer is_one after_protocol command_response scan_response
    start_pairing_scan request_scan begins strstr find_once read_string read_unsigned strtoul
    is_digit same_bytes
scan_asked = (refl, refl, refl)

-- A host that takes nothing, and sends 128 lines of one character before a pass.
abbrev deaf_port : Port
deaf_port = record { connected = true; write = λ bs. 0 }

short_lines : ℕ → List ℕ
short_lines zero = []
short_lines (suc n) = b'x' ∷ 10 ∷ short_lines n

-- Of the 128 responses of 57 bytes 71 are in the queue, and the others are lost.
responses_lost :
    let (sent, left, last) =
      service client deaf_port (short_lines 128) (ready default_mapping no_bytes) in
    (left ≡ []) × (sent ≡ []) × (length last.queue.tx ≡ 71 * 57)
unfolding short_lines service service_connected read_requests serve_bytes serve_byte handle_frames
    emit_all frame_response put_line write_line service_tx receive end_line answer is_one
    whole_response response_text begins strstr find_once read_unsigned
responses_lost = (refl, refl, refl)
