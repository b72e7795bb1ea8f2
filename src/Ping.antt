-- ===== src/Ping.antt =====
-- chap-12/pingclient.c and chap-12/pingserver.c: a client that sends heartbeats while its server is
-- silent. Times are whole seconds, and `select` takes the time that it waited off its timeout, as it
-- does on Linux. Arguments, addresses and messages on the console are left out.
pub mod Silence
pub mod Exchange
mod Tests
use yolanda.Read.{ntohl}
use yolanda.Prelude.Int.{ℤ, leb_ℤ, pos}
use yolanda.Outcome.{Outcome, fault, exited, ok}
use yolanda.Memory.{Bytes}
use yolanda.Prelude.{
  ◌+◌, ◌/◌, ◌%◌, ◌∷◌, ◌++◌, ◌==◌, if◌then◌else◌, none, some, ℕ, Option, Bool, length, ltb, [], ◌||◌,
  drop, take,
}

-- `sizeof(messageObject)`: a type of four bytes and 1024 bytes of data.
abbrev pub data_size : ℕ
data_size = 1024

abbrev pub message_size : ℕ
message_size = 1028

abbrev pub msg_ping : ℕ
msg_ping = 1

abbrev pub msg_pong : ℕ
msg_pong = 2

abbrev pub msg_type1 : ℕ
msg_type1 = 11

abbrev pub msg_type2 : ℕ
msg_type2 = 21

abbrev pub keep_alive_time : ℕ
keep_alive_time = 10

abbrev pub keep_alive_interval : ℕ
keep_alive_interval = 3

abbrev pub keep_alive_probetimes : ℕ
keep_alive_probetimes = 3

-- `htonl(n)` as the bytes that it puts into memory, and `n` itself on a machine with the low byte
-- first, for n < 2^16.
abbrev pub network_bytes : ℕ → Bytes
network_bytes n = 0 ∷ 0 ∷ (n / 256) ∷ (n % 256) ∷ []

abbrev pub host_bytes : ℕ → Bytes
host_bytes n = (n % 256) ∷ (n / 256) ∷ 0 ∷ 0 ∷ []

-- What a round of the client's loop meets. The last two carry the time that is left of the timeout.
pub data Wakeup : Type 0 where
  select_failed : Wakeup
  -- the timeout, and whether the `send` that may follow works
  timed_out : Bool → Wakeup
  -- the socket is readable, and what `read` returns
  socket_ready : ℤ → ℕ → Wakeup
  -- only the standard input is, which the client does not read
  input_ready : ℕ → Wakeup

-- `tv` is `tv.tv_sec`; `junk` are the bytes of `messageObject.data`, which are never set.
pub record Client : Type 0 where
  pub heartbeats : ℕ
  pub tv : ℕ
  pub junk : Bytes

unfoldable pub client_start : Bytes → Client
client_start junk = record { heartbeats = 0; tv = keep_alive_time; junk = junk }

-- A round, with the message that it sends. `error(1, …)` ends the process.
unfoldable pub client_round : Wakeup → Client → Outcome (Option Bytes × Client)
client_round select_failed c = fault (exited 1)
client_round (timed_out sends) c =
    if ltb keep_alive_probetimes (c.heartbeats + 1)
    then fault (exited 1)
    else if sends
    then ok (
      some (network_bytes msg_ping ++ c.junk),
      record c { heartbeats = c.heartbeats + 1; tv = keep_alive_interval },
    )
    else fault (exited 1)
client_round (socket_ready n left) c =
    if leb_ℤ n (pos 0)
    then fault (exited 1)
    else ok (none, record c { heartbeats = 0; tv = keep_alive_time })
client_round (input_ready left) c = ok (none, record c { tv = left })

-- What the server keeps: the bytes of `message`, of which a short read changes the first ones only,
-- and `count`.
pub record PingServer : Type 0 where
  pub message : Bytes
  pub count : ℕ

-- The answer to a message of some kind; the wait before a pong is left out.
unfoldable pub answer : ℕ → Bool → Bytes → PingServer → Outcome (Option Bytes × PingServer)
answer kind sends pong_junk s =
    if kind == msg_type1 || kind == msg_type2
    then ok (none, s)
    else if kind == msg_ping
    then (if sends then ok (some (host_bytes msg_pong ++ pong_junk), s) else fault (exited 1))
    else fault (exited 1)

-- A round of the server's loop: `received` are the bytes that `read` delivers, none at the end of the
-- stream, and `none` for a failure; `pong_junk` are the bytes of the answer that are not set.
unfoldable pub server_round :
    Option Bytes → Bool → Bytes → PingServer → Outcome (Option Bytes × PingServer)
unfolding answer
server_round none sends pong_junk s = fault (exited 1)
server_round (some []) sends pong_junk s = fault (exited 1)
server_round (some (b ∷ bs)) sends pong_junk s =
    let message = (b ∷ bs) ++ drop (length (b ∷ bs)) s.message in
    answer (ntohl (take 4 message)) sends pong_junk
      (record { message = message; count = s.count + 1 })
