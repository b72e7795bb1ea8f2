-- ===== src/LineEcho.antt =====
-- The servers that answer each line with its rotation by 13: `loop_echo` of chap-26/echo.c, run by a
-- thread, and `child_run` of chap-25/fork01.c, run by a process.
pub mod Lines
mod Tests
use yolanda.Rot13.{rot13_char}
use yolanda.Memory.{Bytes}
use yolanda.Prelude.{◌∷◌, ◌++◌, ◌==◌, if◌then◌else◌, true, false, ℕ, List, length, ltb, []}

-- What `recv` of one byte comes to: the byte, 0 or -1.
pub data Recv : Type 0 where
  byte : ℕ → Recv
  closed broken : Recv

-- How a run stands when what has been received is used up: the function has returned, the process
-- has ended with a status, or it waits in `recv`.
pub data Ending : Type 0 where
  returned : Ending
  exited : ℕ → Ending
  waits : Bytes → Ending

-- The blocks that were handed to `send`, whose result is not looked at.
pub record Echoed : Type 0 where
  pub sent : List Bytes
  pub ending : Ending

pub sending : Bytes → Echoed → Echoed
sending block r = record r { sent = block ∷ r.sent }

-- The loop, with the bytes of `outbuf` that are used, for a buffer of `room` bytes; `on_error` is
-- what the run comes to when `recv` fails.
pub echo_loop : ℕ → Ending → Bytes → List Recv → Echoed
unfolding sending
echo_loop room on_error outbuf [] = record { sent = []; ending = waits outbuf }
echo_loop room on_error outbuf (closed ∷ s) = record { sent = []; ending = returned }
echo_loop room on_error outbuf (broken ∷ s) = record { sent = []; ending = on_error }
echo_loop room on_error outbuf (byte ch ∷ s) =
    let used = if ltb (length outbuf) room then outbuf ++ (rot13_char ch ∷ []) else outbuf in
    elim (ch == 10) [
      | true ↦ sending used (echo_loop room on_error [] s)
      | false ↦ echo_loop room on_error used s
    ]

-- MAX_LINE + 1 in chap-26, where a failed `recv` ends the process.
abbrev pub thread_room : ℕ
thread_room = 16385

pub loop_echo : List Recv → Echoed
loop_echo s = echo_loop thread_room (exited 1) [] s

-- MAX_LINE + 1 in chap-25, where a failed `recv` ends the loop.
abbrev pub child_room : ℕ
child_room = 4097

pub child_run : List Recv → Echoed
child_run s = echo_loop child_room returned [] s
