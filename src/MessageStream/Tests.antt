-- ===== src/MessageStream/Tests.antt =====
-- A text of two lines over a network that delivers byte by byte.
use mathlib.Core.List.{flatten}
use yolanda.Memory.{Bytes}
use yolanda.Outcome.{ok}
use yolanda.Prelude.Int.{ℤ, pos}
use yolanda.Read.{Stream, bytes, eof, interrupted}
use yolanda.Read.Exact.{available}
use yolanda.Read.Fragments.{IsIntact}
use yolanda.MessageStream.{client_loop, server_loop, closed}
use yolanda.MessageStream.Delivery.{text-delivered, printed_for}
use yolanda.Prelude.{◌≡◌, ◌∷◌, refl, ap, List, suc, length, [], map}

abbrev dribble : Bytes → Stream
dribble [] = eof ∷ []
dribble (c ∷ cs) = interrupted ∷ bytes c [] ∷ dribble cs

available-dribble : (sent : Bytes) → available (dribble sent) ≡ sent
available-dribble [] = refl
available-dribble (c ∷ cs) = ap (◌∷◌ c) (available-dribble cs)

dribble-IsIntact : (sent : Bytes) → IsIntact (dribble sent)
dribble-IsIntact [] = tt
dribble-IsIntact (c ∷ cs) = dribble-IsIntact cs

abbrev takes_whole : Bytes → ℤ
takes_whole m = pos (length m)

-- "ab", a line feed and "c"
abbrev two_lines : Bytes
two_lines = 97 ∷ 98 ∷ 10 ∷ 99 ∷ []

text-delivered_example :
    (sent : Bytes) × (lines : List Bytes) × (client_loop 4 takes_whole two_lines ≡ ok sent)
    × (server_loop (suc (length lines)) (dribble sent)
        ≡ record { printed = map printed_for lines; end = closed })
    × (flatten lines ≡ two_lines)
text-delivered_example =
    text-delivered dribble takes_whole two_lines available-dribble dribble-IsIntact (λ m. refl) tt
