-- ===== src/Greeting/Tests.antt =====
-- The connected server at three datagrams: "morning", and "hi", of which the array makes "hirning".
use yolanda.Greeting.Overlay.{connected_server-overlaid}
use yolanda.Outcome.{ok}
use yolanda.Http.Text.{codes}
use yolanda.TelnetServer.{same_start}
use yolanda.Memory.{Bytes}
use yolanda.Greeting.{is_goodbye, Server, maxline, connected_server}
use yolanda.Prelude.{◌≡◌, ◌∷◌, refl, some, true, ℕ, arith, [], replicate, length-replicate}

abbrev array : Bytes
array = replicate maxline 1

connected_server-overlaid_example :
    (s : Server) × (connected_server array
        (some (codes "morning"))
        true
        (some (codes "hi") ∷ some (codes "goodbye") ∷ [])
      ≡ ok (true, s))
    × (s.sent ≡ codes "Hi, morning" ∷ codes "Hi, hirning" ∷ [])
    × (s.count ≡ 2)
unfolding is_goodbye same_start
connected_server-overlaid_example =
    connected_server-overlaid array (codes "morning") (some (codes "hi") ∷ []) []
      (length-replicate {A = ℕ} maxline 1) tt (omega arith) (omega arith) (tt, omega arith, tt)
      (refl, (refl, tt))
