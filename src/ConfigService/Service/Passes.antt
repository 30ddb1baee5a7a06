-- ===== src/ConfigService/Service/Passes.antt =====
-- Passes of the main loop over the bytes that a host has sent.
use red_monkey_mpg_firmware.Base.{
  ℕ, zero, suc, ◌+◌, ◌-◌, ◌*◌, ◌≤◌, true, List, [], ◌++◌, length, ◌≡◌, refl, arith, ap, All,
}
use red_monkey_mpg_firmware.Base.Slices.{append-nil}
use red_monkey_mpg_firmware.ConfigService.{Input, no_bytes, receive_bytes, service_tx}
use red_monkey_mpg_firmware.ConfigService.Framing.{
  NoNewline, joined, all_frames, receive_bytes-joined, receive_bytes_passes, receive_bytes-nil,
}
use red_monkey_mpg_firmware.ConfigService.Requests.{Client}
use red_monkey_mpg_firmware.ConfigService.Service.{
  Service, Port, service, service_connected, read_requests,
}
use red_monkey_mpg_firmware.ConfigService.Service.Replies.{
  ready, replies, outcome, serve_bytes-outcome, replies-append,
}

-- A host that has the port open and takes every byte at once.
abbrev pub open_port : Port
open_port = record { connected = true; write = length }

module _ {S : Type 0} (client : Client S) where
  -- So many passes: what is sent, the bytes that are left, and the service.
  unfoldable pub passes : ℕ → Port → List ℕ → Service S → List ℕ × List ℕ × Service S
  passes zero port bytes s = ([], bytes, s)
  passes (suc n) port bytes s =
      let (sent, left, next) = service client port bytes s in
      let (more, rest, last) = passes n port left next in (sent ++ more, rest, last)

  read_requests-outcome :
      (bytes : List ℕ) (p : S) (i : Input)
      → read_requests client length bytes (ready p i) ≡ outcome client (receive_bytes 256 bytes i) p
  unfolding read_requests service_tx outcome
  read_requests-outcome bytes p i = rw (serve_bytes-outcome client 256 bytes p i) (
      let (frames, left, next) = receive_bytes 256 bytes i in
      let (text, last) = replies client frames p in
      ap (λ (t : List ℕ). (t, left, ready last next)) (append-nil text))

  service-outcome :
      (bytes : List ℕ) (p : S) (i : Input)
      → service client open_port bytes (ready p i) ≡ outcome client (receive_bytes 256 bytes i) p
  unfolding service service_connected service_tx
  service-outcome bytes p i = rw (read_requests-outcome bytes p i) refl

  passes-outcome :
      (n : ℕ) (bytes : List ℕ) (p : S) (i : Input)
      → passes n open_port bytes (ready p i) ≡ outcome client (receive_bytes (n * 256) bytes i) p
  unfolding passes outcome replies
  passes-outcome zero bytes p i = unfold receive_bytes in refl
  passes-outcome (suc n) bytes p i =
      let (frames, left, next) = receive_bytes 256 bytes i in
      let (text, last) = replies client frames p in
      let (more, rest, end) = receive_bytes (n * 256) left next in
      let size : suc n * 256 ≡ 256 + n * 256 = omega arith in
      rw (service-outcome bytes p i) (
        rw (passes-outcome n left last next) (
          rw (size, receive_bytes_passes 256 (n * 256) bytes i)
            (rw (replies-append client frames more p) refl)))

  -- A service with an empty queue and no begun line, under a host that takes every byte at once:
  -- after passes for all bytes of some lines, at 256 bytes a pass, no byte is left, the service is
  -- as it was, the program is as the requests left it, and the host has got for each line that is
  -- not empty, in order, the events that its hook emits and then one response.
  pub passes-joined :
      (n : ℕ) (ls : List (List ℕ)) (p : S)
      → All NoNewline ls
      → length (joined ls) ≤ n * 256
      → passes n open_port (joined ls) (ready p no_bytes)
        ≡ (let (text, last) = replies client (all_frames ls) p in (text, [], ready last no_bytes))
  passes-joined n ls p h enough =
      let all = joined ls in
      let size : n * 256 ≡ length all + (n * 256 - length all) = omega (arith, enough) in
      rw (passes-outcome n all p no_bytes) (
        rw (size, receive_bytes_passes (length all) (n * 256 - length all) all no_bytes)
          (rw (receive_bytes-joined ls h) (
            rw (receive_bytes-nil (n * 256 - length all) no_bytes, append-nil (all_frames ls))
              (unfold outcome in refl))))
