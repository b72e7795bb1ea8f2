-- ===== src/TelnetServer/Tests.antt =====
-- A listing of eight characters, in a block that held others.
use yolanda.Memory.{Bytes}
use yolanda.Outcome.{ok}
use yolanda.Prelude.Int.{pos}
use yolanda.Http.Text.{codes}
use yolanda.TelnetServer.{Shell, on_input, sent}
use yolanda.TelnetServer.Listing.{on_input-ls}
use yolanda.Prelude.{
  ◌-◌, ◌≡◌, ◌∷◌, ◌++◌, refl, none, some, ℕ, List, [], replicate, length-replicate, arith,
}

-- What has been sent, the last first.
abbrev shell : Shell (List Bytes)
shell = record {
  popen_ls = λ s. some (codes "a b c d ");
  malloc = λ n s. replicate 8 120 ++ 65 ∷ 66 ∷ 0 ∷ replicate (n - 11) 120;
  getcwd = λ n s. none;
  chdir = λ path s. s;
  send = λ text s. (pos 1, text ∷ s);
}

on_input-ls_example : on_input shell (codes "l") [] ≡ ok (codes "a b c d AB" ∷ [])
unfolding sent
on_input-ls_example =
    on_input-ls shell (codes "l") (codes "s") [] (codes "a b c d ") (codes "AB")
      (replicate 16373 120) (omega arith) refl refl tt tt (omega arith)
      (omega (arith, length-replicate {A = ℕ} 16373 120)) refl
