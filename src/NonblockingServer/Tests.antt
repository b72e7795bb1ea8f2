-- ===== src/NonblockingServer/Tests.antt =====
-- The theorems about the select server at a client with a fresh buffer.
use yolanda.NonblockingServer.Serving.{all_served, service, chosen, due}
use yolanda.NonblockingServer.Rounds.{admitted, server_round_lem, Documented, Tidy-set}
use yolanda.NonblockingServer.Serving.{all_served, services, service}
use yolanda.NonblockingServer.Watching.{Tidy}
use yolanda.NonblockingServer.MainLoop.{
  Calls, FdSet, server_round, watch, watch_clients, watch_client, fd_isset,
}
use mathlib.Core.Option.{some-injective}
use yolanda.NonblockingServer.Sending.{serve_client-conserves}
use yolanda.NonblockingServer.Leftover.{accept_client-leftover}
use yolanda.Outcome.{ok}
use yolanda.Prelude.Int.{pos}
use yolanda.Http.Text.{codes}
use yolanda.Rot13.{rot13_char}
use yolanda.NonblockingServer.Buffering.{IsValid, contents}
use yolanda.NonblockingServer.{
  Buffers, Readiness, SocketBuffer, accept_client, read_client, serve_client, end_of_file, max_line,
  on_socket_read, would_block, store_bytes, store_byte, fd_init_size, write_client, close_if_done,
}
use yolanda.Prelude.{
  ◌≡◌, ◌∷◌, ◌++◌, refl, none, some, false, arith, [], length-replicate, replicate, set, ℕ, ◌∙◌, sym,
  ap, inl, zero, suc, get_elem?, true, ◌-◌,
}

abbrev client : SocketBuffer
client = record {
  connect_fd = 5;
  buffer = replicate max_line 0;
  write_index = 0;
  read_index = 0;
  readable = false;
}

client-IsValid : IsValid client
client-IsValid = record {
  block = length-replicate {A = ℕ} max_line 0;
  order = omega arith;
  within = omega arith;
}

-- "ab", and a line feed that comes later, of which two bytes can be sent.
abbrev round : Readiness
round = record {
  receives = some (codes "ab" ∷ (10 ∷ []) ∷ [], would_block);
  sends = some (2 ∷ [], would_block);
}

serve_client-conserves_example :
    let (sent, closes, b') = serve_client round client in
    IsValid b' × (sent ++ contents b' ≡ codes "no" ++ (10 ∷ []))
unfolding rot13_char read_client on_socket_read store_bytes store_byte
serve_client-conserves_example =
    serve_client-conserves round client client-IsValid ((omega arith), tt)

-- The array when that client has hung up before it was sent anything.
abbrev kept : SocketBuffer
kept =
    (serve_client (record { receives = some (codes "ab" ∷ [], end_of_file); sends = none })
      client).2

abbrev buffers : Buffers
buffers = client ∷ kept ∷ []

accept_client-leftover_example :
    (c : SocketBuffer) × (accept_client (pos 1) buffers ≡ ok (set buffers 1 c))
    × (c.connect_fd ≡ 1)
    × (contents c ≡ codes "no")
    × ((serve_client
          (record {
            receives = none;
            sends = some ((c.write_index - c.read_index) ∷ [], would_block);
          })
          c).0
        ≡ codes "no")
unfolding rot13_char
accept_client-leftover_example =
    accept_client-leftover buffers 1 client (codes "ab" ∷ []) none client-IsValid (omega arith) refl

-- The array with the client 5. In the round the listening socket 3 is ready for a client 4, and the
-- client 5 sends "ab" and hangs up.
abbrev unused_entry : SocketBuffer
unused_entry = record client { connect_fd = 0 }

abbrev with_client : Buffers
with_client = set (replicate fd_init_size unused_entry) 5 client

replicate-unused :
    (n i : ℕ) (b c : SocketBuffer)
    → b.connect_fd ≡ 0
    → get_elem? (replicate n b) i ≡ some c
    → c.connect_fd ≡ 0
replicate-unused zero i b c h at = cc
replicate-unused (suc n) zero b c h at = ap (λ d. d.connect_fd) (sym (some-injective b c at)) ∙ h
replicate-unused (suc n) (suc i) b c h at = replicate-unused n i b c h at

with_client-Tidy : Tidy with_client
with_client-Tidy =
    Tidy-set (replicate fd_init_size unused_entry) 5 client
      (record {
        room = length-replicate {A = SocketBuffer} fd_init_size unused_entry;
        own = λ i b at. inl (replicate-unused fd_init_size i unused_entry b refl at);
      })
      (omega arith) refl

abbrev sets : FdSet × FdSet
sets = (5 ∷ 3 ∷ [], [])

abbrev calls : Calls
calls = record {
  selected = some sets;
  accepted = pos 4;
  received = λ i. (codes "ab" ∷ [], end_of_file);
  taken = λ i. ([], would_block);
}

calls-Documented : Documented 3 calls with_client sets 4
unfolding watch watch_clients watch_client fd_isset
calls-Documented = record {
  selects = refl;
  reads = λ i e. e;
  writes = λ i e. absurd cc;
  accepts = λ e. refl;
  small = λ e. omega arith;
  unused = λ e. refl;
}

server_round_lem_example :
    let bs = all_served 3 calls sets 0 (admitted 3 (5 ∷ 3 ∷ []) 4 with_client) in
    (server_round 3 calls with_client ≡ ok (record { fd = 5; sent = []; closed = true } ∷ [], bs))
    × Tidy bs
unfolding services service chosen due fd_isset serve_client read_client write_client close_if_done
    on_socket_read admitted
server_round_lem_example =
    server_round_lem 3 calls with_client sets 4 with_client-Tidy calls-Documented
