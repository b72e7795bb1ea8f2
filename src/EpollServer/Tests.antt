-- ===== src/EpollServer/Tests.antt =====
-- A round with a client that is served and one that is not.
use yolanda.Outcome.{ok}
use yolanda.Rot13.{rot13_char}
use yolanda.Prelude.{◌≡◌, ◌∷◌, some, [], true}
use yolanda.EpollServer.{server_round, client, would_block, writes}
use yolanda.EpollServer.Skipping.{server_round-skips, client_deeds}

server_round-skips_example :
    server_round (
      client 5 ((97 ∷ [], true) ∷ []) would_block
      ∷ client 6 ((98 ∷ [], true) ∷ []) would_block
      ∷ [])
    ≡ ok (some (writes 5 (110 ∷ []) ∷ []))
unfolding client_deeds rot13_char
server_round-skips_example =
    server_round-skips 5 ((97 ∷ [], true) ∷ []) would_block
      (client 6 ((98 ∷ [], true) ∷ []) would_block ∷ []) (λ e. cc) tt
