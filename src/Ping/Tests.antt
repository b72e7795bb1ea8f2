-- ===== src/Ping/Tests.antt =====
-- The theorems about the heartbeats at short runs.
use yolanda.Outcome.{fault, exited}
use yolanda.Ping.Silence.{silence, waited, Running, after, gives_up, begins}
use yolanda.Ping.{
  Client, PingServer, client_round, client_start, timed_out, network_bytes, msg_ping, input_ready,
}
use yolanda.Prelude.{◌+◌, ◌≡◌, ◌↔◌, ◌∷◌, ◌++◌, refl, none, some, true, arith, [], replicate}

abbrev fresh : Client
fresh = record { heartbeats = 0; tv = 10; junk = 7 ∷ [] }

-- The standard input wakes the client after 4 seconds, and the timeout passes after 6 more.
abbrev probed : Client
probed = record { heartbeats = 1; tv = 3; junk = 7 ∷ [] }

run_of_10 : Running (7 ∷ []) probed 10
unfolding client_start client_round silence waited
run_of_10 =
    after {since = 4} (timed_out true) (some (network_bytes msg_ping ++ (7 ∷ [])))
      (after {since = 0} (input_ready 6) none begins (omega arith) refl) tt refl

gives_up_example : (client_round (timed_out true) probed ≡ fault (exited 1)) ↔ (10 + 3 ≡ 19)
gives_up_example = gives_up run_of_10

abbrev server : PingServer
server = record { message = replicate 6 9; count = 2 }
