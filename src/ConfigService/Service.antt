-- ===== src/ConfigService/Service.antt =====
-- A pass of the configuration service and the events that it emits,
-- firmware/src/config_service.cpp: `service`, `emit_scan_result` and `emit_pairing_state`.
pub mod Replies
pub mod Passes
pub mod Bounds
use red_monkey_mpg_firmware.Base.{
  ℕ, zero, suc, Bool, true, false, not, List, [], ◌∷◌, ◌++◌, ◌==◌, ltb, if◌then◌else◌, length, ℤ,
  pos, negsuc,
}
use red_monkey_mpg_firmware.Base.Codes.{codes}
use red_monkey_mpg_firmware.ConfigService.{
  Input, no_bytes, Frame, line, too_large, receive, Queue, empty_queue, service_tx, write_line,
}
use red_monkey_mpg_firmware.ConfigService.Requests.{
  Client, Emitted, scan_result, pairing_state, Response, refusal, cut, print_unsigned,
  response_text, answer,
}

-- The service with the program that it works on; `active` is `active_`.
pub record Service (S : Type 0) : Type 0 where
  pub program : S
  pub input : Input
  pub queue : Queue
  pub active : Bool

-- The USB port in a call: whether a host has it open, and how many bytes a write takes.
pub record Port : Type 0 where
  pub connected : Bool
  pub write : List ℕ → ℕ

-- `%d`
abbrev pub print_signed : ℤ → List ℕ
print_signed (pos n) = print_unsigned n
print_signed (negsuc n) = codes "-" ++ print_unsigned (suc n)

-- The texts of the two events, before they are cut.
unfoldable pub whole_scan_result : List ℕ → List ℕ → ℤ → List ℕ
whole_scan_result name address rssi =
    codes "{\"protocol\":1,\"event\":\"SCAN_RESULT\",\"candidate\":{\"name\":\""
    ++ (name
        ++ (codes "\",\"address\":\""
            ++ (address ++ (codes "\",\"rssi\":" ++ (print_signed rssi ++ codes "}}")))))

unfoldable pub whole_pairing_state : List ℕ → List ℕ
whole_pairing_state state =
    codes "{\"protocol\":1,\"event\":\"PAIRING_STATE\",\"state\":\"" ++ (state ++ codes "\"}")

unfoldable pub scan_result_text : List ℕ → List ℕ → ℤ → List ℕ
scan_result_text name address rssi = cut 300 (whole_scan_result name address rssi)

unfoldable pub pairing_state_text : List ℕ → List ℕ
pairing_state_text state = cut 180 (whole_pairing_state state)

module _ {S : Type 0} where
  -- `write_line` with its result left aside: the bytes that go out, and the service.
  unfoldable pub put_line : (List ℕ → ℕ) → List ℕ → Service S → List ℕ × Service S
  unfolding write_line
  put_line write text s =
      let (queued, sent, next) = write_line write text s.queue in (sent, record s { queue = next })

  unfoldable pub emit_scan_result :
      (List ℕ → ℕ) → List ℕ → List ℕ → ℤ → Service S → List ℕ × Service S
  emit_scan_result write name address rssi s =
      if s.active then put_line write (scan_result_text name address rssi) s else ([], s)

  unfoldable pub emit_pairing_state : (List ℕ → ℕ) → List ℕ → Service S → List ℕ × Service S
  emit_pairing_state write state s =
      if s.active then put_line write (pairing_state_text state) s else ([], s)

  unfoldable pub emit : (List ℕ → ℕ) → Emitted → Service S → List ℕ × Service S
  emit write (scan_result name address rssi) s = emit_scan_result write name address rssi s
  emit write (pairing_state state) s = emit_pairing_state write state s

  -- The calls that a hook makes, one after the other.
  unfoldable pub emit_all : (List ℕ → ℕ) → List Emitted → Service S → List ℕ × Service S
  emit_all write [] s = ([], s)
  emit_all write (e ∷ es) s =
      let (sent, next) = emit write e s in
      let (more, last) = emit_all write es next in (sent ++ more, last)

module _ {S : Type 0} (client : Client S) where
  -- The response to what a line end gives.
  unfoldable pub frame_response : Frame → S → Response × S
  frame_response (line text) s = answer client text s
  frame_response too_large s = (refusal "FRAME_TOO_LARGE", s)

  -- A frame with what its hook emits, then its response.
  unfoldable pub handle_frames : (List ℕ → ℕ) → List Frame → Service S → List ℕ × Service S
  handle_frames write [] s = ([], s)
  handle_frames write (f ∷ fs) s =
      let (response, program) = frame_response f s.program in
      let (early, told) =
        emit_all write (client.events s.program program) (record s { program = program }) in
      let (sent, next) = put_line write (response_text response) told in
      let (more, last) = handle_frames write fs next in (early ++ (sent ++ more), last)

  -- The body of the loop.
  unfoldable pub serve_byte : (List ℕ → ℕ) → ℕ → Service S → List ℕ × Service S
  serve_byte write byte s =
      let (frames, input) = receive byte s.input in
      let (sent, next) = handle_frames write frames s in (sent, record next { input = input })

  -- The loop over the bytes that have arrived, of which a pass takes so many at most: what is
  -- sent, the bytes that are left, and the service.
  unfoldable pub serve_bytes : (List ℕ → ℕ) → ℕ → List ℕ → Service S → List ℕ × List ℕ × Service S
  serve_bytes write zero bytes s = ([], bytes, s)
  serve_bytes write (suc most) [] s = ([], [], s)
  serve_bytes write (suc most) (byte ∷ bytes) s =
      let (sent, next) = serve_byte write byte s in
      let (more, left, last) = serve_bytes write most bytes next in (sent ++ more, left, last)

  -- The rest of `service` once the queue is empty.
  unfoldable pub read_requests : (List ℕ → ℕ) → List ℕ → Service S → List ℕ × List ℕ × Service S
  read_requests write bytes s =
      let (sent, left, t) = serve_bytes write 256 bytes s in
      let (last, rest) = service_tx write t.queue in (sent ++ last, left, record t { queue = rest })

  -- `service` with an open port.
  unfoldable pub service_connected : (List ℕ → ℕ) → List ℕ → Service S → List ℕ × List ℕ × Service S
  service_connected write bytes s =
      let (sent, queue) = service_tx write s.queue in
      let t = record s { queue = queue; active = true } in
      let (more, left, last) = read_requests write bytes t in
      if length queue.tx == 0 then (sent ++ more, left, last) else (sent, bytes, t)

  -- `service`
  unfoldable pub service : Port → List ℕ → Service S → List ℕ × List ℕ × Service S
  service port bytes s = if port.connected then service_connected port.write bytes s else (
    [],
    bytes,
    record { program = s.program; input = no_bytes; queue = empty_queue; active = false },
  )
