-- ===== src/GraceClient/Tests.antt =====
-- "hi", then "shutdown", while the server sends two texts and closes.
use yolanda.Yolandapp.Http.{c_str}
use yolanda.Http.Text.{codes}
use yolanda.GraceClient.{Round, client_run, ended, fresh_client, text, without_line_end}
use yolanda.GraceClient.HalfClose.{client_of, client_run-shutdown, heard, told}
use yolanda.TelnetServer.{same_start}
use yolanda.Prelude.{◌≡◌, ◌∷◌, ◌++◌, refl, none, some, true, false, []}

abbrev says_hi : Round
says_hi = record { socket = none; input = some (some (codes "hi" ++ 10 ∷ [])); closes_well = true }

abbrev shuts_down : Round
shuts_down = record {
  socket = some (text (codes "a"));
  input = some (some (codes "shutdown" ++ 10 ∷ []));
  closes_well = true;
}

-- The input is at its end, and not looked at.
abbrev hears : Round
hears = record { socket = some (text (codes "b")); input = some none; closes_well = true }

abbrev closes : Round
closes = record { socket = some ended; input = none; closes_well = true }

client_run-shutdown_example :
    client_of (client_run (says_hi ∷ shuts_down ∷ hears ∷ closes ∷ []) fresh_client) ≡ record {
      watches_input = false;
      printed = codes "a" ∷ codes "b" ∷ [];
      written = codes "hi" ∷ [];
    }
unfolding same_start heard told without_line_end c_str
client_run-shutdown_example =
    client_run-shutdown (says_hi ∷ []) (hears ∷ closes ∷ []) shuts_down
      (codes "shutdown" ++ 10 ∷ []) (tt, (refl, refl), tt) tt refl refl refl
