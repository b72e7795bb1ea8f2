-- ===== src/Ping/Exchange.antt =====
-- A heartbeat and its answer.
use yolanda.Prelude.Int.{pos}
use yolanda.Outcome.{ok, fault, exited}
use yolanda.Read.{ntohl}
use yolanda.Memory.{Bytes}
use yolanda.Ping.{
  client_round, server_round, answer, PingServer, client_start, Client, msg_ping,
  keep_alive_probetimes, msg_type1, msg_type2, timed_out, network_bytes, host_bytes, socket_ready,
  msg_pong, keep_alive_interval,
}
use yolanda.Prelude.{
  ◌+◌, ◌<◌, ◌≡◌, ◌≢◌, ◌∷◌, ◌++◌, refl, none, some, true, ℕ, arith, length, [], drop,
}

-- What the client sends when its timeout has passed, with fewer than three heartbeats unanswered, has
-- the server answer with a whole message, and the answer sets the client back to where it started.
pub heartbeat-answered :
    (c : Client) (s : PingServer) (pong_junk : Bytes) (left : ℕ)
    → c.heartbeats < keep_alive_probetimes
    → (ping pong : Bytes) × (c' : Client) × (s' : PingServer) × (client_round (timed_out true) c
        ≡ ok (some ping, c'))
      × (server_round (some ping) true pong_junk s ≡ ok (some pong, s'))
      × (length ping ≡ 4 + length c.junk)
      × (length pong ≡ 4 + length pong_junk)
      × (s'.count ≡ s.count + 1)
      × (client_round (socket_ready (pos (length pong)) left) c' ≡ ok (none, client_start c.junk))
unfolding client_round server_round answer client_start ntohl
heartbeat-answered c s pong_junk left h = (
  network_bytes msg_ping ++ c.junk,
  host_bytes msg_pong ++ pong_junk,
  record c { heartbeats = c.heartbeats + 1; tv = keep_alive_interval },
  record s {
    message =
        (network_bytes msg_ping ++ c.junk)
        ++ drop (length (network_bytes msg_ping ++ c.junk)) s.message;
    count = s.count + 1;
  },
  ground arith,
  refl,
  ground arith,
  ground arith,
  refl,
  ground arith,
)

-- A ping of which only the first bytes have arrived is answered at once, and what follows is taken
-- for another message: with data that begins with no known type, it ends the server.
pub heartbeat-split :
    (s : PingServer) (pong_junk : Bytes) (a b c d : ℕ) (rest : Bytes)
    → ntohl (a ∷ b ∷ c ∷ d ∷ []) ≢ msg_ping
    → ntohl (a ∷ b ∷ c ∷ d ∷ []) ≢ msg_type1
    → ntohl (a ∷ b ∷ c ∷ d ∷ []) ≢ msg_type2
    → (s' : PingServer) × (server_round (some (network_bytes msg_ping)) true pong_junk s
        ≡ ok (some (host_bytes msg_pong ++ pong_junk), s'))
      × (server_round (some (a ∷ b ∷ c ∷ d ∷ rest)) true pong_junk s' ≡ fault (exited 1))
unfolding server_round answer
heartbeat-split s pong_junk a b c d rest p q r = (
  record { message = network_bytes msg_ping ++ drop 4 s.message; count = s.count + 1 },
  unfold ntohl in refl,
  ground (arith, p, q, r),
)
