-- ===== src/ConfigService/Sending.antt =====
-- The queue loses, repeats and reorders no byte.
use red_monkey_mpg_firmware.Base.{
  ℕ, ◌+◌, ◌-◌, ◌≤◌, Bool, true, false, List, [], ◌∷◌, ◌++◌, ◌==◌, ltb, length, take, ◌≡◌, ◌↔◌, refl,
  sym, ap, ◌∙◌, arith, inl, inr, Bool-cases,
}
use red_monkey_mpg_firmware.Base.Slices.{
  append-nil, append_assoc, length-append, take-append-drop, drop-drop, drop-all, drop-append,
  length-drop,
}
use red_monkey_mpg_firmware.ConfigService.{
  Queue, pending, service_tx, write_line, make_room, queue_size, rewind,
}

-- The cursor stays within the queued bytes, and these within the buffer.
pub record IsQueue (q : Queue) : Type 0 where
  pub cursor : q.tx_offset ≤ length q.tx
  pub bounded : length q.tx ≤ 4096

rewind-pending : (q : Queue) → pending (rewind q) ≡ pending q
rewind-pending q = elim (Bool-cases (q.tx_offset == length q.tx)) [
  | inl e ↦ rw e (sym (drop-all q.tx_offset q.tx (ground arith)))
  | inr e ↦ rw e refl
]

rewind-IsQueue : (q : Queue) → IsQueue q → IsQueue (rewind q)
rewind-IsQueue q h = ground arith

-- The bytes that the host takes, and those that stay, are the pending ones in their order.
pub service_tx-pending :
    (write : List ℕ → ℕ) (q : Queue)
    → IsQueue q
    → ((service_tx write q).0 ++ pending (service_tx write q).1 ≡ pending q)
      × IsQueue (service_tx write q).1
unfolding service_tx
service_tx-pending write q h = elim (Bool-cases (q.tx_offset == length q.tx)) [
  | inl e ↦ rw e (
    sym (drop-all q.tx_offset q.tx (ground arith)),
    record { cursor = omega arith; bounded = omega arith },
  )
  | inr e ↦ rw e (elim (Bool-cases (ltb (length q.tx - q.tx_offset) (write (pending q)))) [
    | inl bad ↦ rw bad (refl, h)
    | inr good ↦
        let written = write (pending q) in
        let next : Queue = record q { tx_offset = q.tx_offset + written } in
        let inside : IsQueue next = record { cursor = ground arith; bounded = h.bounded } in
        rw good (
          ap (◌++◌ (take written (pending q)))
                (rewind-pending next ∙ sym (drop-drop q.tx_offset written _ q.tx refl))
              ∙ take-append-drop written (pending q),
          rewind-IsQueue next inside,
        )
  ])
]

make_room-pending :
    (bytes : ℕ) (q : Queue)
    → IsQueue q
    → (pending (make_room bytes q) ≡ pending q)
      × IsQueue (make_room bytes q)
      × ((ltb (queue_size - length (make_room bytes q).tx) bytes ≡ false)
          ↔ (length (pending q) + bytes ≤ 4096))
unfolding make_room
make_room-pending bytes q h = let size = length-drop q.tx_offset q.tx in ground (arith, size)

queued-pending :
    (q : Queue) (more : List ℕ)
    → IsQueue q
    → length q.tx + length more ≤ 4096
    → let next = record q { tx = q.tx ++ more } in (pending next ≡ pending q ++ more) × IsQueue next
queued-pending q more h room = (
  drop-append q.tx_offset q.tx more h.cursor,
  record {
    cursor = omega (arith, length-append q.tx more, h.cursor);
    bounded = omega (arith, length-append q.tx more);
  },
)

write_line_room :
    (write : List ℕ → ℕ) (text : List ℕ) (room : Queue)
    → IsQueue room
    → length room.tx + (length text + 1) ≤ 4096
    → let next = service_tx write (record room { tx = room.tx ++ (text ++ (10 ∷ [])) }) in
      (next.0 ++ pending next.1 ≡ pending room ++ (text ++ (10 ∷ []))) × IsQueue next.1
write_line_room write text room h fits =
    let (queued, valid) =
      queued-pending room (text ++ (10 ∷ [])) h (omega (arith, length-append text (10 ∷ []))) in
    let (all, kept) =
      service_tx-pending write (record room { tx = room.tx ++ (text ++ (10 ∷ [])) }) valid in
    (all ∙ queued, kept)

-- What a line adds to the pending bytes.
abbrev pub added : Bool → List ℕ → List ℕ
added true text = text ++ (10 ∷ [])
added false text = []

-- From such a queue a line is queued exactly when it fits with its line end beside the pending
-- bytes in 4096; then it follows them whole, and else they do not change and nothing is sent.
pub write_line-pending :
    (write : List ℕ → ℕ) (text : List ℕ) (q : Queue)
    → IsQueue q
    → let (ok, sent, next) = write_line write text q in
      ((ok ≡ true) ↔ (length (pending q) + (length text + 1) ≤ 4096))
      × (sent ++ pending next ≡ pending q ++ added ok text)
      × IsQueue next
      × (ok ≡ false → sent ≡ [])
unfolding write_line
write_line-pending write text q h =
    let (same, valid, fits) = make_room-pending (length text + 1) q h in
    let room = make_room (length text + 1) q in
    elim (Bool-cases (ltb (queue_size - 1) (length text))) [
      | inl long ↦ rw long (
        (λ e. ground arith, λ e. ground (arith, long)),
        sym (append-nil (pending q)),
        h,
        λ e. refl,
      )
      | inr short ↦
          rw short (elim (Bool-cases (ltb (queue_size - length room.tx) (length text + 1))) [
            | inl no_room ↦ rw no_room (
              (λ e. ground arith, λ e. ground (arith, no_room, fits.1 e)),
              same ∙ sym (append-nil (pending q)),
              valid,
              λ e. refl,
            )
            | inr enough ↦
                let (all, kept) =
                  write_line_room write text room valid (ground (arith, enough, valid.bounded)) in
                rw enough (
                  (λ e. fits.0 enough, λ e. refl),
                  all ∙ ap (λ (t : List ℕ). t ++ (text ++ (10 ∷ []))) same,
                  kept,
                  λ e. ground arith,
                )
          ])
    ]

-- What the main loop does with the queue: a response line, or a pass, each with the answer of
-- the host.
pub data Use : Type 0 where
  response : List ℕ → (List ℕ → ℕ) → Use
  pass : (List ℕ → ℕ) → Use

-- The bytes that the host takes, the bytes of the lines that are accepted, and the queue.
unfoldable pub run : List Use → Queue → List ℕ × List ℕ × Queue
run [] q = ([], [], q)
run (response text write ∷ us) q =
    let (ok, sent, next) = write_line write text q in
    let (more, lines, last) = run us next in (sent ++ more, added ok text ++ lines, last)
run (pass write ∷ us) q =
    let (sent, next) = service_tx write q in
    let (more, lines, last) = run us next in (sent ++ more, lines, last)

sent_on :
    (sent more after before lines last : List ℕ)
    → sent ++ after ≡ before
    → more ++ last ≡ after ++ lines
    → (sent ++ more) ++ last ≡ before ++ lines
sent_on sent more after before lines last first rest =
    append_assoc sent more last
    ∙ ap (◌++◌ sent) rest
    ∙ sym (append_assoc sent after lines)
    ∙ ap (λ (t : List ℕ). t ++ lines) first

-- From a queue whose cursor and size are within bounds, over any sequence of responses and passes
-- with any answers of the host: what the host has taken and what is pending at the end are the
-- bytes that were pending and the accepted lines, whole and in their order, and the queue stays
-- within bounds.
pub run-pending :
    (us : List Use) (q : Queue)
    → IsQueue q
    → ((run us q).0 ++ pending (run us q).2 ≡ pending q ++ (run us q).1) × IsQueue (run us q).2
unfolding run
run-pending [] q h = (sym (append-nil (pending q)), h)
run-pending (response text write ∷ us) q h =
    let (_, all, kept, _) = write_line-pending write text q h in
    let next = (write_line write text q).2 in
    let (rest, last) = run-pending us next kept in
    let ok = (write_line write text q).0 in
    (
      sent_on _ _ _ _ (run us next).1 _ all rest
          ∙ append_assoc (pending q) (added ok text) (run us next).1,
      last,
    )
run-pending (pass write ∷ us) q h =
    let (all, kept) = service_tx-pending write q h in
    let next = (service_tx write q).1 in
    let (rest, last) = run-pending us next kept in
    (sent_on _ _ _ _ (run us next).1 _ all rest, last)
