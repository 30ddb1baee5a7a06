-- ===== src/ConfigService/Framing.antt =====
-- Which frames the service cuts from the bytes that it receives.
use red_monkey_mpg_firmware.Base.{
  ℕ, zero, suc, ◌+◌, ◌≤◌, Bool, true, false, not, ◌&&◌, ◌||◌, List, [], ◌∷◌, ◌++◌, ◌==◌, ltb,
  if◌then◌else◌, length, ◌≡◌, ◌≢◌, refl, sym, ap, arith, inl, inr, Bool-cases, All,
}
use red_monkey_mpg_firmware.Base.Slices.{append-nil, append_assoc, length-append}
use red_monkey_mpg_firmware.ConfigService.{
  Input, no_bytes, Frame, line, too_large, receive, receive_bytes, end_line, not_empty,
}

pub receive_bytes-nil : (n : ℕ) (s : Input) → receive_bytes n [] s ≡ ([], [], s)
unfolding receive_bytes
receive_bytes-nil zero s = refl
receive_bytes-nil (suc n) s = refl

-- It does not matter how the received bytes are spread over passes: a pass over m and one over n
-- bytes of what is left do what one pass over m + n bytes does.
pub receive_bytes_passes :
    (m n : ℕ) (bytes : List ℕ) (s : Input)
    → let (frames, left, next) = receive_bytes m bytes s in
      let (more, rest, last) = receive_bytes n left next in
      receive_bytes (m + n) bytes s ≡ (frames ++ more, rest, last)
unfolding receive_bytes
receive_bytes_passes zero n bytes s = let e : 0 + n ≡ n = omega arith in rw e refl
receive_bytes_passes (suc m) n [] s =
    rw (receive_bytes-nil (suc m + n) s, receive_bytes-nil n s) refl
receive_bytes_passes (suc m) n (b ∷ bs) s =
    let e : suc m + n ≡ suc (m + n) = omega arith in
    let (frames, next) = receive b s in
    let (more, left, after) = receive_bytes m bs next in
    let (rest, over, last) = receive_bytes n left after in
    rw (e, receive_bytes_passes m n bs next)
      (ap (λ (f : List Frame). (f, over, last)) (sym (append_assoc frames more rest)))

-- The bytes of a line that are kept, and whether a control character is among them.
unfoldable pub kept : List ℕ → List ℕ
kept [] = []
kept (b ∷ bs) = if b == 13 then kept bs else b ∷ kept bs

unfoldable pub has_control : List ℕ → Bool
has_control [] = false
has_control (b ∷ bs) = (ltb b 0x20 && not (b == 13)) || has_control bs

-- What the bytes before a line end give.
abbrev pub frames_of : List ℕ → List Frame
frames_of bs =
    if has_control bs || ltb 1024 (length (kept bs))
    then too_large ∷ []
    else if length (kept bs) == 0
    then []
    else line (kept bs) ∷ []

receive_kept :
    (b : ℕ) (s : Input)
    → b ≢ 10
    → length s.input ≤ 1024
    → ((receive b s).0 ≡ [])
      × ((receive b s).1.overflow ≡ (
          s.overflow
          || (ltb b 0x20 && not (b == 13))
          || (not (b == 13) && not (ltb b 0x20) && length s.input == 1024)))
      × (length (receive b s).1.input ≤ 1024)
      × ((receive b s).1.overflow ≡ false
          → (receive b s).1.input ≡ s.input ++ (if b == 13 then [] else b ∷ []))
unfolding receive
receive_kept b s ne h = ground (arith, length-append s.input (b ∷ []), append-nil s.input)

abbrev pub NoNewline : List ℕ → Type 0
NoNewline = All (λ b. b ≢ 10)

collect : List ℕ → Input → Input
collect [] s = s
collect (b ∷ bs) s = collect bs (receive b s).1

-- The three kinds of bytes of a line: ignored, refused, and kept.
kept-return :
    (b : ℕ) (bs : List ℕ)
    → b ≡ 13
    → (kept (b ∷ bs) ≡ kept bs) × (has_control (b ∷ bs) ≡ has_control bs)
unfolding kept has_control
kept-return b bs e = rw e (refl, refl)

has_control_refused :
    (b : ℕ) (bs : List ℕ) → (b == 13) ≡ false → ltb b 0x20 ≡ true → has_control (b ∷ bs) ≡ true
unfolding has_control
has_control_refused b bs e c = rw (e, c) refl

kept_plain :
    (b : ℕ) (bs : List ℕ)
    → (b == 13) ≡ false
    → ltb b 0x20 ≡ false
    → (kept (b ∷ bs) ≡ b ∷ kept bs) × (has_control (b ∷ bs) ≡ has_control bs)
unfolding kept has_control
kept_plain b bs e c = rw (e, c) (refl, refl)

-- What is said of a state after the bytes, by the state before them.
abbrev IsAfter : Input → List ℕ → Input → Type 0
IsAfter s bs last =
    (last.overflow ≡ (s.overflow || has_control bs || ltb 1024 (length s.input + length (kept bs))))
    × (last.overflow ≡ false → last.input ≡ s.input ++ kept bs)

receive-IsAfter :
    (b : ℕ) (bs : List ℕ) (s last : Input)
    → b ≢ 10
    → length s.input ≤ 1024
    → IsAfter (receive b s).1 bs last
    → IsAfter s (b ∷ bs) last
unfolding receive
receive-IsAfter b bs s last ne small h = elim (Bool-cases (b == 13)) [
  | inl e ↦ let (list, control) = kept-return b bs (ground arith) in ground (arith, list, control)
  | inr e ↦ elim (Bool-cases (ltb b 0x20)) [
    | inl c ↦ ground (arith, has_control_refused b bs e c)
    | inr c ↦
        let (list, control) = kept_plain b bs e c in
        elim (Bool-cases (ltb (length s.input) 1024)) [
          | inr full ↦ ground (arith, list, control)
          | inl room ↦ ground (
            arith,
            list,
            control,
            length-append s.input (b ∷ []),
            append_assoc s.input (b ∷ []) (kept bs),
          )
        ]
  ]
]

collect-IsAfter :
    (bs : List ℕ) (s : Input) → NoNewline bs → length s.input ≤ 1024 → IsAfter s bs (collect bs s)
unfolding collect kept has_control
collect-IsAfter [] s h small = (ground arith, λ e. sym (append-nil s.input))
collect-IsAfter (b ∷ bs) s h small =
    let (_, _, fits, _) = receive_kept b s h.0 small in
    receive-IsAfter b bs s _ h.0 small (collect-IsAfter bs (receive b s).1 h.1 fits)

receive_bytes-collect :
    (bs rest : List ℕ) (k : ℕ) (s : Input)
    → NoNewline bs
    → length s.input ≤ 1024
    → receive_bytes (length bs + k) (bs ++ rest) s ≡ receive_bytes k rest (collect bs s)
unfolding receive_bytes collect
receive_bytes-collect [] rest k s h small = let e : 0 + k ≡ k = omega arith in rw e refl
receive_bytes-collect (b ∷ bs) rest k s h small =
    let e : suc (length bs) + k ≡ suc (length bs + k) = omega arith in
    let (none, _, fits, _) = receive_kept b s h.0 small in
    rw (e, none) (receive_bytes-collect bs rest k (receive b s).1 h.1 fits)

line_unless_empty :
    (text : List ℕ)
    → (if not_empty text then line text ∷ [] else [])
      ≡ (if length text == 0 then [] else line text ∷ [])
unfolding not_empty
line_unless_empty text = ground arith

end_line-collect : (bs : List ℕ) → NoNewline bs → end_line (collect bs no_bytes) ≡ frames_of bs
unfolding end_line
end_line-collect bs h =
    let (over, input) = collect-IsAfter bs no_bytes h (omega arith) in
    elim (Bool-cases (has_control bs || ltb 1024 (length (kept bs)))) [
      | inl bad ↦ ground (arith, over, bad)
      | inr good ↦
          let clean : (collect bs no_bytes).overflow ≡ false = ground (arith, over, good) in
          rw (clean, input clean, good) (line_unless_empty (kept bs))
    ]

-- Lines as they are sent, each with its line end, and all their frames.
abbrev pub joined : List (List ℕ) → List ℕ
joined [] = []
joined (l ∷ ls) = l ++ (10 ∷ joined ls)

abbrev pub all_frames : List (List ℕ) → List Frame
all_frames [] = []
all_frames (l ∷ ls) = frames_of l ++ all_frames ls

receive_line :
    (bs rest : List ℕ) (k : ℕ)
    → NoNewline bs
    → receive_bytes (length bs + suc k) (bs ++ (10 ∷ rest)) no_bytes ≡ (
        let (more, left, last) = receive_bytes k rest no_bytes in
        (frames_of bs ++ more, left, last))
unfolding receive
receive_line bs rest k h =
    rw (receive_bytes-collect bs (10 ∷ rest) (suc k) no_bytes h (omega arith))
      (unfold receive_bytes in rw (end_line-collect bs h) refl)

-- Lines without a line end in them, sent one after the other, each give their own frames whatever
-- stood before: the line without its returns, too_large if it holds another control character or
-- more than 1024 bytes, nothing if it is empty.
pub receive_bytes-joined :
    (ls : List (List ℕ))
    → All NoNewline ls
    → receive_bytes (length (joined ls)) (joined ls) no_bytes ≡ (all_frames ls, [], no_bytes)
receive_bytes-joined [] h = receive_bytes-nil 0 no_bytes
receive_bytes-joined (l ∷ ls) h =
    let size : length (l ++ (10 ∷ joined ls)) ≡ length l + suc (length (joined ls)) =
      length-append l (10 ∷ joined ls) in
    rw (size, receive_line l (joined ls) (length (joined ls)) h.0, receive_bytes-joined ls h.1) refl
