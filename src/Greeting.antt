-- ===== src/Greeting.antt =====
-- The servers that answer "Hi, " and what they were sent: chap-6/udpserver.c, chap-7/unixstreamserver.c,
-- chap-7/unixdataserver.c, chap-11/graceserver.c and chap-14/udpconnectserver.c. What they print, the
-- sleep and the setting up of their sockets are left out.
pub mod Answers
pub mod Overlay
mod Tests
use yolanda.TelnetServer.{same_start}
use yolanda.Http.Text.{codes}
use yolanda.Outcome.{Outcome, fault, ok, ◌>>=◌, exited, out_of_bounds, ◌>>◌}
use yolanda.Memory.{Bytes, memcpy, store}
use yolanda.Prelude.{
  ◌+◌, ◌-◌, ◌∷◌, ◌++◌, if◌then◌else◌, none, some, true, false, ℕ, List, Option, Bool, zero, suc,
  length, ltb, [], replicate, set,
}

abbrev pub maxline : ℕ
maxline = 4096

abbrev pub hi : Bytes
hi = codes "Hi, "

-- The string at the start of an array, as `%s` and `strlen` read it.
unfoldable pub string_in : Bytes → Outcome Bytes
string_in [] = fault out_of_bounds
string_in (zero ∷ cs) = ok []
string_in (suc c ∷ cs) = do s ← string_in cs; ok (suc c ∷ s)

-- `sprintf(send_line, "Hi, %s", message)`, where `send_line` has MAXLINE bytes.
unfoldable pub greet : Bytes → Outcome Bytes
greet message = do
  s ← string_in message
  if ltb (length hi + length s) maxline then ok (hi ++ s) else fault out_of_bounds

-- What a read into an array comes to: at most as many bytes as it is asked for, or `none` for an error.
abbrev pub Arrival : Type 0
Arrival = Option Bytes

-- The bytes go to the start of `message`, and `message[n] = 0`.
unfoldable pub receive : Bytes → Bytes → Outcome Bytes
receive arrival message = do message' ← memcpy message 0 arrival; store message' (length arrival) 0

-- A server: its array, the number of datagrams, and the texts that it has handed to `send`.
pub record Server : Type 0 where
  pub message : Bytes
  pub count : ℕ
  pub sent : List Bytes

unfoldable pub answer : Bytes → Server → Outcome Server
answer arrival s = do
  message' ← receive arrival s.message
  text ← greet message'
  ok (record { message = message'; count = s.count + 1; sent = s.sent ++ text ∷ [] })

-- A round of chap-11/graceserver.c: what `read` delivers, and whether `send` works.
unfoldable pub grace_round : Arrival → Bool → Server → Outcome Server
grace_round none sends s = fault (exited 1)
grace_round (some []) sends s = fault (exited 1)
grace_round (some (c ∷ cs)) sends s = do
  s' ← answer (c ∷ cs) s
  if sends then ok s' else fault (exited 1)

-- A round of chap-6/udpserver.c: after a failure -1 is the index of the zero.
unfoldable pub udp_round : Arrival → Server → Outcome Server
udp_round none s = fault out_of_bounds
udp_round (some arrival) s = answer arrival s

unfoldable pub udp_run : List Arrival → Server → Outcome Server
udp_run [] s = ok s
udp_run (a ∷ arrivals) s = do s' ← udp_round a s; udp_run arrivals s'

-- chap-14/udpconnectserver.c: `strncmp(message, "goodbye", 7) == 0`
unfoldable pub is_goodbye : Bytes → Bool
is_goodbye message = same_start 7 message (codes "goodbye" ++ 0 ∷ [])

-- The datagrams after the first go to the array without a zero, and a failure, which is a large number
-- in `rc`, is not noticed.
unfoldable pub receive_next : Arrival → Bytes → Outcome Bytes
receive_next none message = ok message
receive_next (some arrival) message = memcpy message 0 arrival

-- The loop over the datagrams that arrive: whether it has ended, or waits for another.
unfoldable pub connected_loop : List Arrival → Server → Outcome (Bool × Server)
connected_loop [] s =
    if is_goodbye s.message
    then ok (true, s)
    else (do text ← greet s.message; ok (false, record s { sent = s.sent ++ text ∷ [] }))
connected_loop (a ∷ arrivals) s = if is_goodbye s.message then ok (true, s) else (do
  text ← greet s.message
  message' ← receive_next a s.message
  connected_loop arrivals
      (record { message = message'; count = s.count + 1; sent = s.sent ++ text ∷ [] }))

-- The whole program: the array as it was, the first datagram, whether `connect` works, and the others.
unfoldable pub connected_server : Bytes → Arrival → Bool → List Arrival → Outcome (Bool × Server)
connected_server junk none connects arrivals = fault (exited 1)
connected_server junk (some first) connects arrivals = do
  message' ← receive first (set junk 0 0)
  elim connects [
    | true ↦ connected_loop arrivals (record { message = message'; count = 0; sent = [] })
    | false ↦ fault (exited 1)
  ]

-- What the servers of chap-7 make of a read into their array, which they clear before: a failure is
-- answered as an empty text, and `none` in the result is the end of the loop.
unfoldable pub cleared_reply : Arrival → Outcome (Option Bytes)
cleared_reply none = do text ← greet (replicate maxline 0); ok (some text)
cleared_reply (some []) = ok none
cleared_reply (some (c ∷ cs)) = do
  buf ← memcpy (replicate maxline 0) 0 (c ∷ cs)
  text ← greet buf
  ok (some text)

unfoldable pub write_reply : Bool → Bytes → Outcome (Option Bytes)
write_reply sends bytes = if sends then ok (some bytes) else fault (exited 1)

-- A round of chap-7/unixdataserver.c: what arrives, and whether the whole reply is sent.
unfoldable pub data_round : Arrival → Bool → Outcome (Option Bytes)
data_round a sends = do
  reply ← cleared_reply a
  elim reply [ none ↦ ok none | some text ↦ write_reply sends text ]

-- A round of chap-7/unixstreamserver.c: all of `send_line` is written.
unfoldable pub stream_round : Arrival → Bool → Outcome (Option Bytes)
stream_round a sends = do
  reply ← cleared_reply a
  elim reply [
    | none ↦ ok none
    | some text ↦ write_reply sends (text ++ replicate (maxline - length text) 0)
  ]
