-- ===== src/ConfigService/Requests.antt =====
-- The answers to request lines, firmware/src/config_service.cpp: `handle_line`, over the mapping,
-- the storage and the hooks that the service is made with.
pub mod Decimal
use Prim.Native.String.{String}
use red_monkey_mpg_firmware.Base.{
  ℕ, zero, suc, ◌+◌, ◌-◌, ◌/◌, ◌%◌, ◌||◌, Bool, true, false, not, Option, none, some, List, [], ◌∷◌,
  ◌++◌, ◌==◌, ltb, if◌then◌else◌, ◌>>=◌, length, take, ℤ,
}
use red_monkey_mpg_firmware.Base.Codes.{codes}
use red_monkey_mpg_firmware.Keyboard.{CncControllerProfile, cnc_controller_profile, profiles}
use red_monkey_mpg_firmware.Production.{ProductionMapping}
use red_monkey_mpg_firmware.ConfigService.Text.{read_string, read_unsigned}
use red_monkey_mpg_firmware.ConfigService.Mapping.{
  is_word, control_name, action_name, parse_mapping,
}

-- The texts of `set_identity`, of which the last two may be null.
pub record Identity : Type 0 where
  pub serial : List ℕ
  pub firmware : List ℕ
  pub controller : Option (List ℕ)
  pub address : Option (List ℕ)

-- What the program emits: a candidate that a scan found, with its name, its address and its signal
-- strength, or the state of the pairing.
pub data Emitted : Type 0 where
  scan_result : List ℕ → List ℕ → ℤ → Emitted
  pairing_state : List ℕ → Emitted

-- What the service works on, over the state S of the program around it: its mapping, its storage
-- and the hooks, a null one being `none`.
pub record Client (S : Type 0) : Type 0 where
  pub identity : S → Identity
  pub mapping : S → ProductionMapping
  pub set_mapping : ProductionMapping → S → S
  pub sequence : S → ℕ
  pub store : ProductionMapping → S → Bool × S
  pub start_scan : Option (S → S)
  pub select_candidate : Option (List ℕ → S → Bool × S)
  pub confirm_pairing : Option (S → Bool × S)
  pub cancel_pairing : Option (S → S)
  -- What a hook has emitted, in order, from the states before and after it.
  pub events : S → S → List Emitted

-- The arguments of `respond`.
pub record Response : Type 0 where
  pub ok : Bool
  pub body : List ℕ

abbrev pub refusal : String → Response
refusal code = record { ok = false; body = codes "\"error\":\"" ++ (codes code ++ codes "\"") }

abbrev pub result : List ℕ → Response
result body = record { ok = true; body = body }

-- `snprintf` of a text into an array of the size.
abbrev pub cut : ℕ → List ℕ → List ℕ
cut size text = take (size - 1) text

-- The decimal digits of a number that has at most the given number of them.
unfoldable pub decimal : ℕ → ℕ → List ℕ
decimal zero n = []
decimal (suc digits) n =
    let before = decimal digits (n / 10) in
    if ltb n 10 then (b'0' + n) ∷ [] else before ++ ((b'0' + n % 10) ∷ [])

-- `%lu` of a number of 32 bits.
abbrev pub print_unsigned : ℕ → List ℕ
print_unsigned n = decimal 10 n

quoted_or_null : Option (List ℕ) → List ℕ
quoted_or_null none = codes "null"
quoted_or_null (some text) = codes "\"" ++ (text ++ codes "\"")

-- The text of `respond` before it is cut.
unfoldable pub whole_response : Response → List ℕ
whole_response r =
    codes "{\"protocol\":1,\"ok\":"
    ++ (codes (if r.ok then "true" else "false") ++ (codes "," ++ (r.body ++ codes "}")))

unfoldable pub response_text : Response → List ℕ
unfolding whole_response
response_text r = cut 896 (whole_response r)

unfoldable pub info_body : Identity → ℕ → List ℕ
unfolding quoted_or_null decimal
info_body i sequence = cut 700 (
    codes "\"result\":{\"serial\":\""
    ++ (i.serial
        ++ (codes "\",\"firmware\":\""
            ++ (i.firmware
                ++ (codes "\",\"controller\":"
                    ++ (quoted_or_null i.controller
                        ++ (codes ",\"address\":"
                            ++ (quoted_or_null i.address
                                ++ (codes ",\"configurationSequence\":"
                                    ++ (print_unsigned sequence ++ codes "}"))))))))))

-- A member of the mapping in a response, up to the quote that ends it.
abbrev member : String → String → List ℕ → List ℕ
member key value rest = codes key ++ (codes value ++ rest)

unfoldable pub config_body : CncControllerProfile → ProductionMapping → List ℕ
unfolding control_name action_name
config_body profile m = cut 700 (
    codes "\"result\":{\"schema\":1,\"mapping\":{"
    ++ member "\"cncProfile\":\"" profile.key (
        member "\",\"deadman\":\"" (control_name m.deadman_mask) (
          member "\",\"continuous\":\"" (control_name m.continuous_mask) (
            member "\",\"resolution\":\"" (control_name m.resolution_mask) (
              member "\",\"faceA\":\"" (action_name m.face_a) (
                member "\",\"faceB\":\"" (action_name m.face_b) (
                  member "\",\"faceX\":\"" (action_name m.face_x)
                    (member "\",\"faceY\":\"" (action_name m.face_y) (codes "\"}}")))))))))

profile_text : CncControllerProfile → List ℕ
profile_text p = member "{\"id\":\"" p.key (
    member "\",\"name\":\"" p.name (
      member "\",\"description\":\"" p.description (
        member "\",\"supportsStepResolution\":"
          (if p.supports_step_resolution then "true" else "false") (codes "}"))))

-- A text behind those that the array of 700 characters holds, where it fits with its NUL.
append_text : List ℕ → List ℕ → Option (List ℕ)
append_text text body = if ltb (length body + length text) 700 then some (body ++ text) else none

append_profiles : List ℕ → List CncControllerProfile → List ℕ → Option (List ℕ)
unfolding append_text profile_text
append_profiles separator [] body = append_text (codes "]}") body
append_profiles separator (p ∷ ps) body = do
  more ← append_text (separator ++ profile_text p) body
  append_profiles (codes ",") ps more

-- The profiles in the order of the registry, or `none` where they do not fit.
unfoldable pub profiles_body : List CncControllerProfile → Option (List ℕ)
unfolding append_profiles
profiles_body ps = append_profiles [] ps (codes "\"result\":{\"profiles\":[")

or_refusal : String → Option (List ℕ) → Response
or_refusal code none = refusal code
or_refusal code (some body) = result body

config_response : Option CncControllerProfile → ProductionMapping → Response
unfolding config_body
config_response none m = refusal "UNSUPPORTED_CNC_PROFILE"
config_response (some p) m = result (config_body p m)

unfoldable pub is_one : Option ℕ → Bool
is_one none = false
is_one (some n) = n == 1

module _ {S : Type 0} where
  unfoldable pub scan_response : Option (S → S) → S → Response × S
  scan_response none s = (refusal "PAIRING_NOT_AVAILABLE", s)
  scan_response (some hook) s = (result (codes "\"result\":{\"scanning\":true}"), hook s)

  unfoldable pub pair_response : Option (List ℕ) → Option (List ℕ → S → Bool × S) → S → Response × S
  pair_response (some candidate) (some hook) s =
      let (selected, t) = hook candidate s in
      (
        if selected
            then result (codes "\"result\":{\"connecting\":true}")
            else refusal "PAIR_CANDIDATE_REJECTED",
        t,
      )
  pair_response _ _ s = (refusal "PAIR_CANDIDATE_REJECTED", s)

  unfoldable pub confirm_response : Option (S → Bool × S) → S → Response × S
  confirm_response none s = (refusal "PAIRING_NOT_CONFIRMED", s)
  confirm_response (some hook) s =
      let (paired, t) = hook s in
      (
        if paired
            then result (codes "\"result\":{\"paired\":true}")
            else refusal "PAIRING_NOT_CONFIRMED",
        t,
      )

  unfoldable pub cancel_response : Option (S → S) → S → Response × S
  cancel_response none s = (result (codes "\"result\":{\"cancelled\":true}"), s)
  cancel_response (some hook) s = (result (codes "\"result\":{\"cancelled\":true}"), hook s)

module _ {S : Type 0} (client : Client S) where
  unfoldable pub save_parsed : Option ProductionMapping → S → Response × S
  save_parsed none s = (refusal "INVALID_MAPPING", s)
  save_parsed (some candidate) s =
      let (stored, t) = client.store candidate s in
      if stored
      then (result (codes "\"result\":{\"saved\":true}"), client.set_mapping candidate t)
      else (refusal "CONFIG_STORE_FAILED", t)

  unfoldable pub set_config : List ℕ → S → Response × S
  unfolding is_one read_unsigned parse_mapping save_parsed
  set_config line s =
      if is_one (read_unsigned line (codes "\"schema\":"))
      then save_parsed (parse_mapping line (client.mapping s)) s
      else (refusal "UNSUPPORTED_SCHEMA", s)

  -- The chain of tests on the command.
  unfoldable pub command_response : List ℕ → List ℕ → S → Response × S
  unfolding info_body config_response profiles_body or_refusal set_config scan_response
      pair_response confirm_response cancel_response
  command_response command line s =
      if is_word command "GET_INFO"
      then (result (info_body (client.identity s) (client.sequence s)), s)
      else if is_word command "GET_CONFIG"
      then (
        config_response (cnc_controller_profile (client.mapping s).cnc_profile) (client.mapping s),
        s,
      )
      else if is_word command "GET_CNC_PROFILES"
      then (or_refusal "PROFILE_LIST_TOO_LARGE" (profiles_body profiles), s)
      else if is_word command "SET_CONFIG"
      then set_config line s
      else if is_word command "START_SCAN"
      then scan_response client.start_scan s
      else if is_word command "PAIR_CANDIDATE"
      then pair_response (read_string line (codes "\"address\":\"") 24) client.select_candidate s
      else if is_word command "CONFIRM_PAIRING"
      then confirm_response client.confirm_pairing s
      else if is_word command "CANCEL_PAIRING"
      then cancel_response client.cancel_pairing s
      else (refusal "UNKNOWN_COMMAND", s)

  unfoldable pub after_protocol : Option (List ℕ) → List ℕ → S → Response × S
  unfolding command_response
  after_protocol none line s = (refusal "INVALID_REQUEST", s)
  after_protocol (some command) line s = command_response command line s

  -- `handle_line`, whose one response is written by the caller.
  unfoldable pub answer : List ℕ → S → Response × S
  unfolding is_one read_unsigned read_string after_protocol
  answer line s =
      if is_one (read_unsigned line (codes "\"protocol\":"))
      then after_protocol (read_string line (codes "\"command\":\"") 32) line s
      else (refusal "UNSUPPORTED_PROTOCOL", s)
