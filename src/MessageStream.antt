-- ===== src/MessageStream.antt =====
-- chap-16/streamclient.c and chap-16/streamserver.c: lines sent as messages over a stream, and read back
-- by `read_message`. The order of bytes is that of a little-endian machine.
pub mod Delivery
mod Tests
use yolanda.Memory.{Bytes}
use yolanda.Fgets.{fgets}
use yolanda.Prelude.Int.{ℤ, pos, negsuc}
use yolanda.Outcome.{Outcome, ok, fault, exited, ◌>>=◌}
use yolanda.Yolandapp.Http.{c_str}
use yolanda.Read.{Stream, ReadResult, read_message, done, failed}
use yolanda.Prelude.{
  ◌+◌, ◌/◌, ◌%◌, ◌^◌, ◌∷◌, ◌++◌, ◌==◌, if◌then◌else◌, ℕ, List, zero, suc, length, [], ltb, take,
}

-- `htonl`, as the four bytes that it puts into memory.
unfoldable pub htonl : ℕ → Bytes
htonl n = n / 2 ^ 24 % 256 ∷ n / 2 ^ 16 % 256 ∷ n / 2 ^ 8 % 256 ∷ n % 256 ∷ []

-- `message_type = 1`, as it is in memory.
abbrev pub message_type : Bytes
message_type = 1 ∷ 0 ∷ 0 ∷ 0 ∷ []

-- `sizeof(message.data)`, and `sizeof(buf)` of the server.
abbrev pub data_size : ℕ
data_size = 128

-- What the client hands to `send` for a line, up to its first zero.
unfoldable pub message_of : Bytes → Bytes
message_of line = htonl (length (c_str line)) ++ (message_type ++ c_str line)

-- The loop of the client over its standard input. `sends` is what the calls of `send` return: a
-- negative result ends the program. The fuel is the number of characters, since `fgets` takes at least
-- one of them.
unfoldable pub client_loop : ℕ → (Bytes → ℤ) → Bytes → Outcome Bytes
client_loop fuel sends [] = ok []
client_loop zero sends (c ∷ cs) = ok []
client_loop (suc fuel) sends (c ∷ cs) =
    let line = fgets 127 (c ∷ cs) in
    let message = message_of line.0 in
    let rest = client_loop fuel sends line.1 in
    elim (sends message) [
      | pos n ↦ (do more ← rest; ok (take n message ++ more))
      | negsuc n ↦ fault (exited 1)
    ]

-- Where the loop of the server stands: `error` has ended the program, the zero behind the record has
-- been written out of the buffer, or the rounds are used up.
pub data ServerEnd : Type 0 where
  closed unreadable overran : ServerEnd
  running : Stream → ServerEnd

-- What was printed for each message, n and the text, and how it ended.
pub record Served : Type 0 where
  pub printed : List (ℕ × Bytes)
  pub end : ServerEnd

unfoldable pub stops : ServerEnd → Served
stops end = record { printed = []; end = end }

unfoldable pub server_loop : ℕ → Stream → Served
server_loop zero s = stops (running s)
server_loop (suc rounds) s = elim (read_message data_size s) [
  | failed ds s' ↦ stops unreadable
  | done n ds s' ↦
      let rest = server_loop rounds s' in
      if n == 0
      then stops closed
      else if ltb n data_size
      then record { printed = (n, c_str ds) ∷ rest.printed; end = rest.end }
      else stops overran
]
