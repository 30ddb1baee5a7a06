-- ===== src/ConfigService.antt =====
-- The serial side of the configuration service, firmware/src/config_service.cpp: the frames that
-- it cuts from the received bytes, and its queue of response lines.
pub mod Framing
pub mod Sending
pub mod Text
pub mod Mapping
pub mod Requests
pub mod Service
use red_monkey_mpg_firmware.Base.{
  ℕ, zero, suc, ◌+◌, ◌-◌, Bool, true, false, not, ◌&&◌, ◌||◌, Option, none, some, List, [], ◌∷◌,
  ◌++◌, ◌==◌, ltb, if◌then◌else◌, length, take, drop,
}

-- `sizeof(input_) - 1`
abbrev pub input_limit : ℕ
input_limit = 1024

-- `input` holds the `input_size_` bytes that are received of a line.
pub record Input : Type 0 where
  pub input : List ℕ
  pub overflow : Bool

abbrev pub no_bytes : Input
no_bytes = record { input = []; overflow = false }

-- What a line end gives: a line for `handle_line`, or the response `FRAME_TOO_LARGE`.
pub data Frame : Type 0 where
  line : List ℕ → Frame
  too_large : Frame

not_empty : List ℕ → Bool
not_empty [] = false
not_empty (b ∷ bs) = true

unfoldable pub end_line : Input → List Frame
unfolding not_empty
end_line s =
    if not s.overflow && not_empty s.input
    then line s.input ∷ []
    else if s.overflow
    then too_large ∷ []
    else []

-- One received byte.
unfoldable pub receive : ℕ → Input → List Frame × Input
unfolding end_line
receive byte s =
    if byte == 10
    then (end_line s, no_bytes)
    else if byte == 13
    then ([], s)
    else if ltb byte 0x20
    then ([], record s { overflow = true })
    else if ltb (length s.input) input_limit
    then ([], record s { input = s.input ++ (byte ∷ []) })
    else ([], record s { overflow = true })

-- The loop over the available bytes, which takes at most `most` of them (256 in a pass): the
-- frames, the bytes that are left, and the state.
unfoldable pub receive_bytes : ℕ → List ℕ → Input → List Frame × List ℕ × Input
receive_bytes zero bytes s = ([], bytes, s)
receive_bytes (suc most) [] s = ([], [], s)
receive_bytes (suc most) (byte ∷ bytes) s =
    let (frames, next) = receive byte s in
    let (more, left, last) = receive_bytes most bytes next in (frames ++ more, left, last)

-- `sizeof(tx_)`
abbrev pub queue_size : ℕ
queue_size = 4096

-- `tx` holds the `tx_size_` bytes of the queue, of which `tx_offset` are sent.
pub record Queue : Type 0 where
  pub tx : List ℕ
  pub tx_offset : ℕ

abbrev pub empty_queue : Queue
empty_queue = record { tx = []; tx_offset = 0 }

abbrev pub pending : Queue → List ℕ
pending q = drop q.tx_offset q.tx

abbrev rewind : Queue → Queue
rewind q = if q.tx_offset == length q.tx then empty_queue else q

-- The bytes that the host takes, by how many `red_monkey_mpg_usb_config_write` says it takes of
-- the pending ones, and the queue.
unfoldable pub service_tx : (List ℕ → ℕ) → Queue → List ℕ × Queue
service_tx write q =
    let written = write (pending q) in
    if q.tx_offset == length q.tx
    then ([], empty_queue)
    else if ltb (length q.tx - q.tx_offset) written
    then ([], q)
    else (take written (pending q), rewind (record q { tx_offset = q.tx_offset + written }))

-- Room at the end of the queue, by moving the pending bytes to its start where that is needed.
make_room : ℕ → Queue → Queue
make_room bytes q =
    if not (q.tx_offset == 0) && ltb (queue_size - length q.tx) bytes
    then record { tx = pending q; tx_offset = 0 }
    else q

-- `write_line`: whether the line is queued, the bytes that the host takes at once, and the queue.
unfoldable pub write_line : (List ℕ → ℕ) → List ℕ → Queue → Bool × List ℕ × Queue
unfolding make_room
write_line write text q =
    if ltb (queue_size - 1) (length text)
    then (false, [], q)
    else let room = make_room (length text + 1) q in
      if ltb (queue_size - length room.tx) (length text + 1)
      then (false, [], room)
      else let (sent, next) =
          service_tx write (record room { tx = room.tx ++ (text ++ (10 ∷ [])) }) in
        (true, sent, next)
