-- ===== src/TcpServer/Tests.antt =====
-- Five connections at a server for two threads.
use yolanda.Prelude.Int.{ℤ, pos}
use yolanda.Outcome.{Outcome, ok}
use yolanda.Buffer.{Buffer}
use yolanda.Channel.{Channel, channel_new, connection}
use yolanda.TcpConnection.{Connection}
use yolanda.TcpServer.{
  Sockets, Acceptor, TcpServer, tcp_server_init, tcp_server_set_data, tcp_server_start,
}
use yolanda.TcpServer.Turns.{establish_all, AreMade, established_in_turn}
use yolanda.Prelude.{
  ◌+◌, ◌%◌, ◌<◌, ◌≡◌, refl, some, true, ℕ, List, arith, length, get_elem?, [], none,
}

-- The state counts the calls; descriptors are handed out in order.
abbrev sys : Sockets ℕ
sys = record {
  socket = λ s. (pos s, s + 1);
  set_nonblocking = λ fd s. s + 1;
  reuse_address = λ fd s. s + 1;
  bind = λ fd port s. (pos 0, s + 1);
  listen = λ fd backlog s. (pos 0, s + 1);
  ignore_sigpipe = λ s. s + 1;
  accept = λ fd s. (pos s, s + 1);
  connect = λ fd address port s. (pos 0, s + 1);
}

abbrev nothing : Buffer
nothing = record { bytes = []; read_index = 0; write_index = 0; total_size = 0 }

-- A connection carries the number of its loop until it is given the data of the server.
abbrev new_connection : ℕ → ℤ → ℕ → Outcome (Connection ℕ × ℕ)
new_connection l fd s = ok (
  record {
    channel = channel_new fd 2 none none (connection 0);
    name = fd;
    input_buffer = nothing;
    output_buffer = nothing;
    app = l;
  },
  s + 1,
)

abbrev set : ℕ → ℕ → ℕ
set x l = x + l

abbrev acceptor : Acceptor
acceptor = record { listen_port = 80; listen_fd = pos 3 }

abbrev add : ℕ → Channel → ℕ → Outcome ℕ
add l c s = ok (s + 1)

established_in_turn_example :
    (t t' : TcpServer ℕ ℕ) × (ls : List ℕ) × (cs : List (Connection ℕ)) × (s' : ℕ)
    × (tcp_server_start add true
          (λ i. i + 7)
          (tcp_server_set_data (tcp_server_init 0 acceptor (pos 2)) (some 100))
          4
        ≡ ok (t, 5))
    × (establish_all sys new_connection set 5 t 5 ≡ ok (cs, t', s'))
    × (length ls ≡ 5)
    × ((i : ℕ) → i < 5 → get_elem? ls i ≡ some (i % 2 + 7))
    × AreMade sys new_connection set (pos 3) (some 100) ls cs 5 s'
established_in_turn_example =
    established_in_turn sys new_connection set (λ l fd s. (_, _, refl)) 5 2 0 acceptor 100 add
      (λ i. i + 7) 4 5 (omega arith) refl
