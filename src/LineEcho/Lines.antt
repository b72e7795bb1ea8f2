-- ===== src/LineEcho/Lines.antt =====
-- The line servers against the lines that a client sends.
use yolanda.Rot13.Laws.{length-map, map-rot13_char}
use yolanda.Prelude.Slices.{take-of_ge, take-append_le}
use yolanda.Rot13.{rot13_char}
use yolanda.Memory.{Bytes}
use yolanda.LineEcho.{
  Ending, Recv, echo_loop, sending, byte, child_room, child_run, closed, loop_echo, broken,
  returned, thread_room, exited,
}
use yolanda.Prelude.{
  ◌+◌, ◌≡◌, ◌≢◌, ◌∷◌, ◌++◌, if◌then◌else◌, refl, inl, inr, ℕ, List, le-cases, length, ltb, [], ◌∙◌,
  sym, ap, arith, take, map, append_assoc, length-append, length-take, ◌<◌, ap₂, append-nil,
}

abbrev pub HasNoLf : Bytes → Type 0
HasNoLf [] = Unit {0}
HasNoLf (c ∷ line) = (c ≢ 10) × HasNoLf line

abbrev pub AreLines : List Bytes → Type 0
AreLines [] = Unit {0}
AreLines (line ∷ lines) = HasNoLf line × AreLines lines

-- The bytes of a text, received one by one before `rest`.
abbrev pub received : Bytes → List Recv → List Recv
received [] rest = rest
received (c ∷ text) rest = byte c ∷ received text rest

-- Complete lines before `rest`.
abbrev pub lines_then : List Bytes → List Recv → List Recv
lines_then [] rest = rest
lines_then (line ∷ lines) rest = received line (byte 10 ∷ lines_then lines rest)

-- The answer to a line: the line with its end, rotated, as much of it as `room` bytes hold.
abbrev pub answer : ℕ → Bytes → Bytes
answer room line = take room (map rot13_char (line ++ (10 ∷ [])))

abbrev pub answers : ℕ → List Bytes → List Bytes
answers room [] = []
answers room (line ∷ lines) = answer room line ∷ answers room lines

-- What ends a run: nothing more has come, the client has closed, or `recv` fails.
pub data Stops : List Recv → Type 0 where
  waiting : Stops []
  hung_up : (s : List Recv) → Stops (closed ∷ s)
  failing : (s : List Recv) → Stops (broken ∷ s)

module _ (room : ℕ) (on_error : Ending) where
  -- Adding a byte to the buffer, if it fits.
  abbrev put : Bytes → ℕ → Bytes
  put outbuf ch = if ltb (length outbuf) room then outbuf ++ (rot13_char ch ∷ []) else outbuf

  put-take :
      (stored : Bytes) (ch : ℕ)
      → put (take room stored) ch ≡ take room (stored ++ (rot13_char ch ∷ []))
  put-take stored ch = elim (le-cases (length stored + 1) room) [
    | inl fits ↦
        let e = take-of_ge room stored (omega arith) in
        let n = length-append stored (rot13_char ch ∷ []) in
        ap (λ xs. put xs ch) e
        ∙ ground arith
        ∙ sym (take-of_ge room (stored ++ (rot13_char ch ∷ [])) (omega (arith, n)))
    | inr full ↦
        ground (arith, length-take room stored)
        ∙ sym (take-append_le room stored (rot13_char ch ∷ []) (omega arith))
  ]

  echo_loop-other :
      (outbuf : Bytes) (ch : ℕ) (s : List Recv)
      → ch ≢ 10
      → echo_loop room on_error outbuf (byte ch ∷ s) ≡ echo_loop room on_error (put outbuf ch) s
  unfolding echo_loop
  echo_loop-other outbuf ch s h = ground arith

  line-received :
      (stored line : Bytes) (rest : List Recv)
      → HasNoLf line
      → echo_loop room on_error (take room stored) (received line (byte 10 ∷ rest))
        ≡ sending
            (take room (stored ++ map rot13_char (line ++ (10 ∷ []))))
            (echo_loop room on_error [] rest)
  unfolding echo_loop
  line-received stored [] rest h =
      ap (λ xs. sending xs (echo_loop room on_error [] rest)) (put-take stored 10)
  line-received stored (c ∷ line) rest h =
      echo_loop-other (take room stored) c (received line (byte 10 ∷ rest)) h.0
      ∙ ap (λ xs. echo_loop room on_error xs (received line (byte 10 ∷ rest))) (put-take stored c)
      ∙ line-received (stored ++ (rot13_char c ∷ [])) line rest h.1
      ∙ ap (λ xs. sending (take room xs) (echo_loop room on_error [] rest))
          (append_assoc stored (rot13_char c ∷ []) (map rot13_char (line ++ (10 ∷ []))))

  pub lines-received :
      (lines : List Bytes) (rest : List Recv)
      → AreLines lines
      → (echo_loop room on_error [] (lines_then lines rest)).sent
        ≡ answers room lines ++ (echo_loop room on_error [] rest).sent
  unfolding sending
  lines-received [] rest h = refl
  lines-received (line ∷ lines) rest h =
      ap (λ xs. (echo_loop room on_error xs (lines_then (line ∷ lines) rest)).sent)
        (sym (take-of_ge room [] (omega arith)))
      ∙ ap (λ r. r.sent) (line-received [] line (lines_then lines rest) h.0)
      ∙ ap (◌∷◌ (answer room line)) (lines-received lines rest h.1)

  -- A line that is not finished is not answered.
  pub unfinished-sent :
      (outbuf text : Bytes) {last : List Recv}
      → HasNoLf text
      → Stops last
      → (echo_loop room on_error outbuf (received text last)).sent ≡ []
  unfolding echo_loop
  unfinished-sent outbuf [] h waiting = refl
  unfinished-sent outbuf [] h (hung_up s) = refl
  unfinished-sent outbuf [] h (failing s) = refl
  unfinished-sent outbuf (c ∷ text) {last} h stop =
      ap (λ r. r.sent) (echo_loop-other outbuf c (received text last) h.0)
      ∙ unfinished-sent (put outbuf c) text h.1 stop

-- Each line, with its end, fits into `room` bytes.
abbrev pub AreShort : ℕ → List Bytes → Type 0
AreShort room [] = Unit {0}
AreShort room (line ∷ lines) = (length line < room) × AreShort room lines

-- The lines with their ends, rotated, and as they were.
abbrev pub rotated : List Bytes → List Bytes
rotated [] = []
rotated (line ∷ lines) = map rot13_char (line ++ (10 ∷ [])) ∷ rotated lines

abbrev pub ended : List Bytes → List Bytes
ended [] = []
ended (line ∷ lines) = (line ++ (10 ∷ [])) ∷ ended lines

answers-rotated :
    (room : ℕ) (lines : List Bytes) → AreShort room lines → answers room lines ≡ rotated lines
answers-rotated room [] h = refl
answers-rotated room (line ∷ lines) h =
    let n = length-append line (10 ∷ []) in
    let m = length-map rot13_char (line ++ (10 ∷ [])) in
    ap₂ ◌∷◌ (take-of_ge room (map rot13_char (line ++ (10 ∷ []))) (omega (arith, n, m)))
      (answers-rotated room lines h.1)

rotated-rotated : (lines : List Bytes) → map (map rot13_char) (rotated lines) ≡ ended lines
rotated-rotated [] = refl
rotated-rotated (line ∷ lines) =
    ap₂ ◌∷◌ (map-rot13_char (line ++ (10 ∷ []))) (rotated-rotated lines)

sent-lines :
    (room : ℕ) (on_error : Ending) (lines : List Bytes) (text : Bytes) {last : List Recv}
    → AreLines lines
    → HasNoLf text
    → Stops last
    → AreShort room lines
    → (echo_loop room on_error [] (lines_then lines (received text last))).sent ≡ rotated lines
sent-lines room on_error lines text {last} h k stop short =
    lines-received room on_error lines (received text last) h
    ∙ ap (λ xs. answers room lines ++ xs) (unfinished-sent room on_error [] text k stop)
    ∙ append-nil (answers room lines)
    ∙ answers-rotated room lines short

-- `loop_echo` answers every finished line, one answer a line and in order, with the line and its end
-- rotated by 13, as much of it as the buffer holds; then it does what it does with what follows.
pub loop_echo_lem :
    (lines : List Bytes) (rest : List Recv)
    → AreLines lines
    → (loop_echo (lines_then lines rest)).sent ≡ answers thread_room lines ++ (loop_echo rest).sent
unfolding loop_echo
loop_echo_lem lines rest h = lines-received thread_room (exited 1) lines rest h

-- If no line is longer than 16384 bytes, rotating the answers of `loop_echo` gives back the lines,
-- whatever part of a line is left when it stops.
pub loop_echo-rotated :
    (lines : List Bytes) (text : Bytes) {last : List Recv}
    → AreLines lines
    → HasNoLf text
    → Stops last
    → AreShort thread_room lines
    → map (map rot13_char) (loop_echo (lines_then lines (received text last))).sent ≡ ended lines
unfolding loop_echo
loop_echo-rotated lines text h k stop short =
    ap (map (map rot13_char)) (sent-lines thread_room (exited 1) lines text h k stop short)
    ∙ rotated-rotated lines

weaken : (lines : List Bytes) → AreShort child_room lines → AreShort thread_room lines
weaken [] h = tt
weaken (line ∷ lines) h = (omega (arith, h.0), weaken lines h.1)

-- If no line is longer than 4096 bytes, the process of chap-25 and the thread of chap-26 send the
-- same answers.
pub child_run-loop_echo :
    (lines : List Bytes) (text : Bytes) {last : List Recv}
    → AreLines lines
    → HasNoLf text
    → Stops last
    → AreShort child_room lines
    → (child_run (lines_then lines (received text last))).sent
      ≡ (loop_echo (lines_then lines (received text last))).sent
unfolding child_run loop_echo
child_run-loop_echo lines text h k stop short =
    sent-lines child_room returned lines text h k stop short
    ∙ sym (sent-lines thread_room (exited 1) lines text h k stop (weaken lines short))
