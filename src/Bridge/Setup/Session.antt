-- ===== src/Bridge/Setup/Session.antt =====
-- A pass of the setup service is a list of requests to the gamepad bridge.
use red_monkey_mpg_firmware.Base.{
  ℕ, zero, suc, Bool, true, Option, List, [], ◌∷◌, ◌++◌, length, ◌==◌, ◌≡◌, refl, inl, inr, All,
  if_both, Bool-cases, ap, ◌∙◌,
}
use red_monkey_mpg_firmware.Persistent.{Tlv}
use red_monkey_mpg_firmware.Production.{validate_production_mapping, valid}
use red_monkey_mpg_firmware.ConfigService.{Frame, line, too_large, receive, service_tx}
use red_monkey_mpg_firmware.ConfigService.Requests.{
  Identity, response_text, Emitted, scan_result, pairing_state,
}
use red_monkey_mpg_firmware.ConfigService.Service.{
  Service, Port, emit, emit_all, emit_scan_result, emit_pairing_state, scan_result_text,
  pairing_state_text, put_line, frame_response, handle_frames, serve_byte, serve_bytes,
  read_requests, service_connected, service,
}
use red_monkey_mpg_firmware.Bridge.{Platform, Bridge}
use red_monkey_mpg_firmware.Bridge.Loop.{
  Request, start_scan, select_candidate, confirm_pairing, cancel_request, save_mapping, serve,
  serve_all, service_config,
}
use red_monkey_mpg_firmware.Bridge.Setup.{bridge_client, setup_pass}
use red_monkey_mpg_firmware.Bridge.Setup.Answers.{IsAllowed, answer-IsServed, IsServed}

-- A mapping that is saved is valid.
unfoldable pub SavesValid : Request → Type 0
SavesValid (save_mapping m) = validate_production_mapping m ≡ valid
SavesValid _ = Unit

IsAllowed-SavesValid :
    {Flash : Type 0} (s : Bridge Flash) (r : Request) → IsAllowed s r → SavesValid r
unfolding IsAllowed SavesValid
IsAllowed-SavesValid s (save_mapping m) h = h.0
IsAllowed-SavesValid s (start_scan n) h = tt
IsAllowed-SavesValid s (select_candidate t) h = tt
IsAllowed-SavesValid s (confirm_pairing b) h = tt
IsAllowed-SavesValid s cancel_request h = tt

-- Some requests, one after the other.
abbrev pub AreServed :
    {Flash : Type 0} → Platform → Option (Tlv Flash) → Bridge Flash → Bridge Flash → Type 0
AreServed platform tlv s t =
    (rs : List Request) × All SavesValid rs × (t ≡ serve_all platform tlv rs s)

module _ {Flash : Type 0} (platform : Platform) (tlv : Option (Tlv Flash)) where
  then-AreServed :
      (s t u : Bridge Flash)
      → IsServed platform tlv s t
      → AreServed platform tlv t u
      → AreServed platform tlv s u
  unfolding serve_all
  then-AreServed s t u (inl same) (rs, valid', all) =
      (rs, valid', all ∙ ap (serve_all platform tlv rs) same)
  then-AreServed s t u (inr (r, allowed, served)) (rs, valid', all) = (
    r ∷ rs,
    (IsAllowed-SavesValid s r allowed, valid'),
    all ∙ ap (serve_all platform tlv rs) served,
  )

  append-AreServed :
      (rs : List Request) (s t u : Bridge Flash)
      → All SavesValid rs
      → t ≡ serve_all platform tlv rs s
      → AreServed platform tlv t u
      → AreServed platform tlv s u
  unfolding serve_all
  append-AreServed [] s t u h e (qs, valid', all) =
      (qs, valid', all ∙ ap (serve_all platform tlv qs) e)
  append-AreServed (r ∷ rs) s t u h e later =
      let (qs, valid', all) = append-AreServed rs (serve platform tlv r s) t u h.1 e later in
      (r ∷ qs, (h.0, valid'), all)

module _ {S : Type 0} (write : List ℕ → ℕ) where
  -- An event goes into the queue alone.
  emit-program : (e : Emitted) (s : Service S) → (emit write e s).1.program ≡ s.program
  unfolding emit emit_scan_result emit_pairing_state put_line
  emit-program (scan_result name address rssi) s =
      if_both (λ (r : List ℕ × Service S). r.1.program ≡ s.program) s.active
        (put_line write (scan_result_text name address rssi) s) ([], s) refl refl
  emit-program (pairing_state state) s =
      if_both (λ (r : List ℕ × Service S). r.1.program ≡ s.program) s.active
        (put_line write (pairing_state_text state) s) ([], s) refl refl

  emit_all-program :
      (es : List Emitted) (s : Service S) → (emit_all write es s).1.program ≡ s.program
  unfolding emit_all
  emit_all-program [] s = refl
  emit_all-program (e ∷ es) s = emit_all-program es (emit write e s).1 ∙ emit-program e s

module _ {Flash : Type 0} (platform : Platform) (tlv : Option (Tlv Flash))
    (identity : Bridge Flash → Identity) (now_ms : ℕ) (bonded : Bool) (write : List ℕ → ℕ) where
  frame-IsServed :
      (f : Frame) (s : Bridge Flash)
      → IsServed platform tlv s
          (frame_response (bridge_client platform tlv identity now_ms bonded) f s).1
  unfolding frame_response
  frame-IsServed (line text) s = answer-IsServed platform tlv identity now_ms bonded text s
  frame-IsServed too_large s = inl refl

  frames-AreServed :
      (fs : List Frame) (s : Service (Bridge Flash))
      → AreServed platform tlv s.program
          (handle_frames (bridge_client platform tlv identity now_ms bonded) write fs s).1.program
  unfolding handle_frames put_line
  frames-AreServed [] s = ([], tt, unfold serve_all in refl)
  frames-AreServed (f ∷ fs) s =
      let client = bridge_client platform tlv identity now_ms bonded in
      let (response, program) = frame_response client f s.program in
      let events = client.events s.program program in
      let start : Service (Bridge Flash) = record s { program = program } in
      let told : Service (Bridge Flash) = (emit_all write events start).1 in
      let next : Service (Bridge Flash) = (put_line write (response_text response) told).1 in
      let same : next.program ≡ serve_all platform tlv [] program =
        unfold serve_all in emit_all-program write events start in
      let last = (handle_frames client write fs next).1.program in
      then-AreServed platform tlv s.program program last (frame-IsServed f s.program) (
        append-AreServed platform tlv [] program next.program last tt same
          (frames-AreServed fs next))

  bytes-AreServed :
      (n : ℕ) (bytes : List ℕ) (s : Service (Bridge Flash))
      → AreServed platform tlv s.program
          (serve_bytes
            (bridge_client platform tlv identity now_ms bonded)
            write
            n
            bytes
            s).2.program
  unfolding serve_bytes serve_byte
  bytes-AreServed zero bytes s = ([], tt, unfold serve_all in refl)
  bytes-AreServed (suc n) [] s = ([], tt, unfold serve_all in refl)
  bytes-AreServed (suc n) (b ∷ bs) s =
      let client = bridge_client platform tlv identity now_ms bonded in
      let next : Service (Bridge Flash) = (serve_byte client write b s).1 in
      let (rs, valid', all) = frames-AreServed (receive b s.input).0 s in
      append-AreServed platform tlv rs s.program next.program
        (serve_bytes client write n bs next).2.program valid' all (bytes-AreServed n bs next)

  connected-AreServed :
      (bytes : List ℕ) (s : Service (Bridge Flash))
      → AreServed platform tlv s.program
          (service_connected
            (bridge_client platform tlv identity now_ms bonded)
            write
            bytes
            s).2.program
  unfolding service_connected read_requests
  connected-AreServed bytes s =
      let client = bridge_client platform tlv identity now_ms bonded in
      let (sent, queue) = service_tx write s.queue in
      let t : Service (Bridge Flash) = record s { queue = queue; active = true } in
      let (more, left, last) = read_requests client write bytes t in
      if_both
        (λ (r : List ℕ × List ℕ × Service (Bridge Flash)).
          AreServed platform tlv s.program r.2.program)
        (length queue.tx == 0) (sent ++ more, left, last) (sent, bytes, t)
        (bytes-AreServed 256 bytes t) ([], tt, unfold serve_all in refl)

module _ {Flash : Type 0} (platform : Platform) (tlv : Option (Tlv Flash))
    (identity : Bridge Flash → Identity) (now_ms : ℕ) (bonded : Bool) where
  -- Whatever bytes have arrived at the setup port, whatever the host takes, and in any state of
  -- the bridge and of the service, a pass of the service does to the bridge what the setup half of
  -- a pass of the bridge model does with some list of requests, each of which saves no mapping but
  -- a valid one.
  pub setup_pass-service_config :
      (port : Port) (bytes : List ℕ) (s : Service (Bridge Flash))
      → (rs : List Request) × All SavesValid rs
        × ((setup_pass platform tlv identity now_ms bonded port bytes s).2.program
            ≡ service_config platform tlv port.connected rs s.program)
  unfolding setup_pass service_config service
  setup_pass-service_config port bytes s = elim (Bool-cases port.connected) [
    | inl e ↦ rw e (
        connected-AreServed platform tlv identity now_ms bonded port.write bytes
          (record s { program = record s.program { config_active = true } }))
    | inr e ↦ rw e ([], tt, refl)
  ]
