-- ===== src/ConfigService/Service/Bounds.antt =====
-- What a pass keeps within its arrays, and how many bytes it takes.
use red_monkey_mpg_firmware.Base.{
  ℕ, zero, suc, ◌≤◌, true, false, List, [], ◌∷◌, ◌++◌, ◌==◌, length, ◌≡◌, refl, arith, ap, if_both,
}
use red_monkey_mpg_firmware.Base.Slices.{length-append}
use red_monkey_mpg_firmware.ConfigService.{Input, no_bytes, Frame, receive, empty_queue, service_tx}
use red_monkey_mpg_firmware.ConfigService.Sending.{IsQueue, service_tx-pending, write_line-pending}
use red_monkey_mpg_firmware.ConfigService.Requests.{
  Emitted, scan_result, pairing_state, Client, response_text,
}
use red_monkey_mpg_firmware.ConfigService.Service.{
  Service, Port, emit, emit_all, emit_scan_result, emit_pairing_state, scan_result_text,
  pairing_state_text, put_line, frame_response, handle_frames, serve_byte, serve_bytes,
  read_requests, service_connected, service,
}

-- The bytes of a line within `input_`, the queue within `tx_`.
pub record IsService {S : Type 0} (s : Service S) : Type 0 where
  pub line_fits : length s.input.input ≤ 1024
  pub queue_fits : IsQueue s.queue

-- The bytes that are left follow a part of all of them that is no longer than it may be.
abbrev pub IsTaken : ℕ → List ℕ → List ℕ → Type 0
IsTaken most bytes left = (taken : List ℕ) × (bytes ≡ taken ++ left) × (length taken ≤ most)

receive_fits : (b : ℕ) (i : Input) → length i.input ≤ 1024 → length (receive b i).1.input ≤ 1024
unfolding receive
receive_fits b i h = ground (arith, length-append i.input (b ∷ []))

module _ {S : Type 0} (client : Client S) (write : List ℕ → ℕ) where
  put_line-IsService :
      (text : List ℕ) (s : Service S) → IsService s → IsService (put_line write text s).1
  unfolding put_line
  put_line-IsService text s h =
      let (_, _, queue, _) = write_line-pending write text s.queue h.queue_fits in
      record { line_fits = h.line_fits; queue_fits = queue }

  emit-IsService : (e : Emitted) (s : Service S) → IsService s → IsService (emit write e s).1
  unfolding emit emit_scan_result emit_pairing_state
  emit-IsService (scan_result name address rssi) s h =
      if_both (λ (r : List ℕ × Service S). IsService r.1) s.active
        (put_line write (scan_result_text name address rssi) s) ([], s)
        (put_line-IsService (scan_result_text name address rssi) s h) h
  emit-IsService (pairing_state state) s h =
      if_both (λ (r : List ℕ × Service S). IsService r.1) s.active
        (put_line write (pairing_state_text state) s) ([], s)
        (put_line-IsService (pairing_state_text state) s h) h

  emit_all-IsService :
      (es : List Emitted) (s : Service S) → IsService s → IsService (emit_all write es s).1
  unfolding emit_all
  emit_all-IsService [] s h = h
  emit_all-IsService (e ∷ es) s h = emit_all-IsService es (emit write e s).1 (emit-IsService e s h)

  handle_frames-IsService :
      (fs : List Frame) (s : Service S)
      → IsService s
      → IsService (handle_frames client write fs s).1
  unfolding handle_frames
  handle_frames-IsService [] s h = h
  handle_frames-IsService (f ∷ fs) s h =
      let (response, program) = frame_response client f s.program in
      let t : Service S = record s { program = program } in
      let valid : IsService t = record { line_fits = h.line_fits; queue_fits = h.queue_fits } in
      let events = client.events s.program program in
      let told = (emit_all write events t).1 in
      handle_frames-IsService fs (put_line write (response_text response) told).1
        (put_line-IsService (response_text response) told (emit_all-IsService events t valid))

  serve_byte-IsService :
      (b : ℕ) (s : Service S) → IsService s → IsService (serve_byte client write b s).1
  unfolding serve_byte
  serve_byte-IsService b s h =
      let (frames, input) = receive b s.input in
      record {
        line_fits = receive_fits b s.input h.line_fits;
        queue_fits = (handle_frames-IsService frames s h).queue_fits;
      }

  serve_bytes-IsService :
      (n : ℕ) (bytes : List ℕ) (s : Service S)
      → IsService s
      → let (_, left, last) = serve_bytes client write n bytes s in
        IsTaken n bytes left × IsService last
  unfolding serve_bytes
  serve_bytes-IsService zero bytes s h = (([], refl, omega arith), h)
  serve_bytes-IsService (suc n) [] s h = (([], refl, omega arith), h)
  serve_bytes-IsService (suc n) (b ∷ bs) s h =
      let ((taken, all, small), last) =
        serve_bytes-IsService n bs (serve_byte client write b s).1 (serve_byte-IsService b s h) in
      ((b ∷ taken, ap (◌∷◌ b) all, ground (arith, small)), last)

  read_requests-IsService :
      (bytes : List ℕ) (s : Service S)
      → IsService s
      → let (_, left, last) = read_requests client write bytes s in
        IsTaken 256 bytes left × IsService last
  unfolding read_requests
  read_requests-IsService bytes s h =
      let (taken, valid) = serve_bytes-IsService 256 bytes s h in
      let (_, queue) =
        service_tx-pending write (serve_bytes client write 256 bytes s).2.queue valid.queue_fits in
      (taken, record { line_fits = valid.line_fits; queue_fits = queue })

  service_connected-IsService :
      (bytes : List ℕ) (s : Service S)
      → IsService s
      → let (_, left, last) = service_connected client write bytes s in
        IsTaken 256 bytes left × IsService last
  unfolding service_connected
  service_connected-IsService bytes s h =
      let (sent, queue) = service_tx write s.queue in
      let t : Service S = record s { queue = queue; active = true } in
      let valid : IsService t = record {
        line_fits = h.line_fits;
        queue_fits = (service_tx-pending write s.queue h.queue_fits).1;
      } in
      let (more, left, last) = read_requests client write bytes t in
      if_both (λ (r : List ℕ × List ℕ × Service S). IsTaken 256 bytes r.1 × IsService r.2)
        (length queue.tx == 0) (sent ++ more, left, last) (sent, bytes, t)
        (read_requests-IsService bytes t valid) (([], refl, omega arith), valid)

closed-IsService :
    {S : Type 0} (p : S)
    → IsService (record { program = p; input = no_bytes; queue = empty_queue; active = false })
closed-IsService p = record {
  line_fits = omega arith;
  queue_fits = record { cursor = omega arith; bounded = omega arith };
}

module _ {S : Type 0} (client : Client S) where
  -- With any client and any host a pass keeps the begun line within 1024 bytes and the queue
  -- within 4096 with its cursor inside, and takes a first part of at most 256 of the bytes that
  -- have arrived.
  pub service-IsService :
      (port : Port) (bytes : List ℕ) (s : Service S)
      → IsService s
      → let (_, left, last) = service client port bytes s in IsTaken 256 bytes left × IsService last
  unfolding service
  service-IsService port bytes s h =
      if_both (λ (r : List ℕ × List ℕ × Service S). IsTaken 256 bytes r.1 × IsService r.2)
        port.connected (service_connected client port.write bytes s)
        (
          [],
          bytes,
          record { program = s.program; input = no_bytes; queue = empty_queue; active = false },
        )
        (service_connected-IsService client port.write bytes s h)
        (([], refl, omega arith), closed-IsService s.program)
