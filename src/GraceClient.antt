-- ===== src/GraceClient.antt =====
-- chap-11/graceclient.c: a client that can close one direction of its connection and go on reading.
pub mod HalfClose
mod Tests
use yolanda.Memory.{Bytes}
use yolanda.Yolandapp.Http.{c_str}
use yolanda.Http.Text.{codes}
use yolanda.TelnetServer.{same_start}
use yolanda.Outcome.{Fault, exited, out_of_bounds}
use yolanda.Prelude.{
  ◌-◌, ◌∷◌, ◌++◌, ◌==◌, if◌then◌else◌, none, some, true, false, ℕ, List, Option, Bool, zero, suc,
  length, [],
}

-- What a `read` of the socket comes to: text of at most MAXLINE bytes, the end, or an error. An error of
-- `select`, which ends the program before anything else of the round, counts as one of `read`.
pub data SocketRead : Type 0 where
  text : Bytes → SocketRead
  ended failed : SocketRead

-- A round of the loop: whether the socket is ready, and with what; whether the standard input is, and
-- what `fgets` gives, NULL or a line, as what stands before its zero; and whether `shutdown` or
-- `close` works.
pub record Round : Type 0 where
  pub socket : Option SocketRead
  pub input : Option (Option Bytes)
  pub closes_well : Bool

-- The client: whether `allreads` has the standard input, and what it has printed of the server's
-- texts and handed to `write`.
pub record GraceClient : Type 0 where
  pub watches_input : Bool
  pub printed : List Bytes
  pub written : List Bytes

abbrev pub fresh_client : GraceClient
fresh_client = record { watches_input = true; printed = []; written = [] }

-- The loop goes on, or the program has ended.
pub data Next : Type 0 where
  goes_on : GraceClient → Next
  stops : GraceClient → Fault → Next

unfoldable pub socket_part : Option SocketRead → GraceClient → Next
socket_part none c = goes_on c
socket_part (some (text t)) c = goes_on (record c { printed = c.printed ++ c_str t ∷ [] })
socket_part (some ended) c = stops c (exited 1)
socket_part (some failed) c = stops c (exited 1)

-- `strncmp(send_line, word, n) == 0` for a word of n characters.
abbrev pub begins : Bytes → Bytes → Bool
begins word line = same_start (length word) (line ++ zero ∷ []) (word ++ zero ∷ [])

-- `send_line` without a line feed at its end.
unfoldable pub without_line_end : Bytes → Bytes
without_line_end [] = []
without_line_end (c ∷ []) = if c == 10 then [] else c ∷ []
without_line_end (c ∷ d ∷ cs) = c ∷ without_line_end (d ∷ cs)

-- An empty line has `send_line[i - 1]` read before the array. The result of `write` is unsigned, so a
-- failure is not noticed.
unfoldable pub send_text : Bytes → GraceClient → Next
send_text [] c = stops c out_of_bounds
send_text (d ∷ ds) c = goes_on (record c { written = c.written ++ without_line_end (d ∷ ds) ∷ [] })

unfoldable pub on_line : Bytes → Bool → GraceClient → Next
on_line line closes_well c =
    if begins (codes "shutdown") line
    then (if closes_well
        then goes_on (record c { watches_input = false })
        else stops (record c { watches_input = false }) (exited 1))
    else if begins (codes "close") line
    then stops (record c { watches_input = false }) (exited (if closes_well then 0 else 1))
    else send_text line c

-- The standard input, if it is still watched. At its end the loop goes on, and finds it ready again.
unfoldable pub input_part : Option (Option Bytes) → Bool → GraceClient → Next
input_part none closes_well c = goes_on c
input_part (some none) closes_well c = goes_on c
input_part (some (some line)) closes_well c =
    if c.watches_input then on_line line closes_well c else goes_on c

unfoldable pub client_step : Round → GraceClient → Next
client_step r c = elim (socket_part r.socket c) [
  | goes_on c' ↦ input_part r.input r.closes_well c'
  | stops c' reason ↦ stops c' reason
]

unfoldable pub client_run : List Round → GraceClient → Next
client_run [] c = goes_on c
client_run (r ∷ rs) c = elim (client_step r c) [
  | goes_on c' ↦ client_run rs c'
  | stops c' reason ↦ stops c' reason
]
