-- ===== src/ConfigService/Service/Replies.antt =====
-- The responses that a host gets which takes every byte at once.
use red_monkey_mpg_firmware.Base.{
  ℤ, ◌∙◌, ℕ, zero, suc, ◌+◌, ◌-◌, ◌≤◌, ◌<◌, true, false, List, [], ◌∷◌, ◌++◌, ◌==◌, ltb, length,
  take, ◌≡◌, refl, arith, ap, sym,
}
use red_monkey_mpg_firmware.Base.Slices.{length-append, append_assoc}
use red_monkey_mpg_firmware.ConfigService.{
  Input, Frame, receive, receive_bytes, empty_queue, service_tx, write_line,
}
use red_monkey_mpg_firmware.ConfigService.Requests.{
  Emitted, scan_result, pairing_state, Client, Response, whole_response, response_text,
}
use red_monkey_mpg_firmware.ConfigService.Service.{
  Service, emit, emit_all, emit_scan_result, emit_pairing_state, scan_result_text,
  pairing_state_text, whole_scan_result, whole_pairing_state, put_line, frame_response,
  handle_frames, serve_byte, serve_bytes,
}

-- A service with nothing to send.
abbrev pub ready : {S : Type 0} → S → Input → Service S
ready p i = record { program = p; input = i; queue = empty_queue; active = true }

abbrev pub event_text : Emitted → List ℕ
event_text (scan_result name address rssi) = scan_result_text name address rssi
event_text (pairing_state state) = pairing_state_text state

abbrev pub event_lines : List Emitted → List ℕ
event_lines [] = []
event_lines (e ∷ es) = (event_text e ++ (10 ∷ [])) ++ event_lines es

module _ {S : Type 0} (client : Client S) where
  -- For each frame, in order and over the states of the program, the events that its hook emits
  -- and one response line.
  unfoldable pub replies : List Frame → S → List ℕ × S
  replies [] p = ([], p)
  replies (f ∷ fs) p =
      let (response, next) = frame_response client f p in
      let (more, last) = replies fs next in
      (event_lines (client.events p next) ++ ((response_text response ++ (10 ∷ [])) ++ more), last)

length-take_le : (n : ℕ) (xs : List ℕ) → length (take n xs) ≤ n
length-take_le zero xs = omega arith
length-take_le (suc n) [] = omega arith
length-take_le (suc n) (x ∷ xs) = ground (arith, length-take_le n xs)

take-length : (xs : List ℕ) → take (length xs) xs ≡ xs
take-length [] = refl
take-length (x ∷ xs) = ap (◌∷◌ x) (take-length xs)

service_tx_at_once :
    (t : List ℕ)
    → 0 < length t
    → service_tx length (record { tx = t; tx_offset = 0 }) ≡ (t, empty_queue)
unfolding service_tx
service_tx_at_once t h =
    let some_left : (0 == length t) ≡ false = ground arith in
    let enough : ltb (length t - 0) (length t) ≡ false = ground arith in
    let e : 0 + length t ≡ length t = omega arith in
    let same : (length t == length t) ≡ true = ground arith in
    rw (some_left, enough, e, same, take-length t) refl

write_line_at_once :
    (text : List ℕ)
    → length text ≤ 4095
    → write_line length text empty_queue ≡ (true, text ++ (10 ∷ []), empty_queue)
unfolding write_line
write_line_at_once text h =
    let short : ltb 4095 (length text) ≡ false = ground arith in
    let room : ltb 4096 (length text + 1) ≡ false = ground arith in
    let size : length (text ++ (10 ∷ [])) ≡ length text + 1 = length-append text (10 ∷ []) in
    rw (short, room, service_tx_at_once (text ++ (10 ∷ [])) (omega (arith, size))) refl

put_line_at_once :
    {S : Type 0} (text : List ℕ) (p : S) (i : Input)
    → length text ≤ 4095
    → put_line length text (ready p i) ≡ (text ++ (10 ∷ []), ready p i)
unfolding put_line
put_line_at_once text p i h = rw (write_line_at_once text h) refl

scan_result_text-bounded :
    (name address : List ℕ) (rssi : ℤ) → length (scan_result_text name address rssi) ≤ 4095
unfolding scan_result_text
scan_result_text-bounded name address rssi =
    omega (arith, length-take_le 299 (whole_scan_result name address rssi))

pairing_state_text-bounded : (state : List ℕ) → length (pairing_state_text state) ≤ 4095
unfolding pairing_state_text
pairing_state_text-bounded state = omega (arith, length-take_le 179 (whole_pairing_state state))

emit_at_once :
    {S : Type 0} (e : Emitted) (p : S) (i : Input)
    → emit length e (ready p i) ≡ (event_text e ++ (10 ∷ []), ready p i)
unfolding emit emit_scan_result emit_pairing_state
emit_at_once (scan_result name address rssi) p i =
    put_line_at_once (scan_result_text name address rssi) p i
      (scan_result_text-bounded name address rssi)
emit_at_once (pairing_state state) p i =
    put_line_at_once (pairing_state_text state) p i (pairing_state_text-bounded state)

emit_all_at_once :
    {S : Type 0} (es : List Emitted) (p : S) (i : Input)
    → emit_all length es (ready p i) ≡ (event_lines es, ready p i)
unfolding emit_all
emit_all_at_once [] p i = refl
emit_all_at_once (e ∷ es) p i = rw (emit_at_once e p i) (rw (emit_all_at_once es p i) refl)

response_text-bounded : (r : Response) → length (response_text r) ≤ 4095
unfolding response_text
response_text-bounded r = omega (arith, length-take_le 895 (whole_response r))

module _ {S : Type 0} (client : Client S) where
  handle_frames-replies :
      (fs : List Frame) (p : S) (i : Input)
      → handle_frames client length fs (ready p i)
        ≡ ((replies client fs p).0, ready (replies client fs p).1 i)
  unfolding handle_frames replies
  handle_frames-replies [] p i = refl
  handle_frames-replies (f ∷ fs) p i =
      let (response, next) = frame_response client f p in
      rw (emit_all_at_once (client.events p next) next i) (
        rw (put_line_at_once (response_text response) next i (response_text-bounded response))
          (rw (handle_frames-replies fs next i) refl))

  pub replies-append :
      (fs gs : List Frame) (p : S)
      → let (sent, next) = replies client fs p in
        let (more, last) = replies client gs next in
        replies client (fs ++ gs) p ≡ (sent ++ more, last)
  unfolding replies
  replies-append [] gs p = refl
  replies-append (f ∷ fs) gs p =
      let (response, next) = frame_response client f p in
      let (more, after) = replies client fs next in
      let line = response_text response ++ (10 ∷ []) in
      let early = event_lines (client.events p next) in
      let rest = (replies client gs after).0 in
      rw (replies-append fs gs next) (
        ap (λ (text : List ℕ). (text, (replies client gs after).1))
          (ap (◌++◌ early) (sym (append_assoc line more rest))
            ∙ sym (append_assoc early (line ++ more) rest)))

  -- Frames, the bytes that are left, and a line that has begun, as the responses.
  unfoldable pub outcome : List Frame × List ℕ × Input → S → List ℕ × List ℕ × Service S
  outcome (fs, left, i) p = ((replies client fs p).0, left, ready (replies client fs p).1 i)

  pub serve_bytes-outcome :
      (n : ℕ) (bytes : List ℕ) (p : S) (i : Input)
      → serve_bytes client length n bytes (ready p i) ≡ outcome (receive_bytes n bytes i) p
  unfolding serve_bytes serve_byte outcome receive_bytes replies
  serve_bytes-outcome zero bytes p i = refl
  serve_bytes-outcome (suc n) [] p i = refl
  serve_bytes-outcome (suc n) (b ∷ bs) p i =
      let (frames, next) = receive b i in
      rw (handle_frames-replies frames p i) (
        rw (serve_bytes-outcome n bs (replies client frames p).1 next)
          (rw (replies-append frames (receive_bytes n bs next).0 p) refl))
