-- ===== src/LineEcho/Tests.antt =====
-- The theorems about the line servers at two short lines and a piece of a third one.
use yolanda.Rot13.{rot13_char}
use yolanda.Http.Text.{codes}
use yolanda.Memory.{Bytes}
use yolanda.LineEcho.Lines.{AreLines, lines_then, received, ended, loop_echo-rotated, hung_up}
use yolanda.LineEcho.{loop_echo, closed, echo_loop}
use yolanda.Prelude.{◌≡◌, ◌∷◌, ◌++◌, refl, List, arith, [], map}

abbrev two_lines : List Bytes
two_lines = codes "hello" ∷ codes "Yolanda" ∷ []

two-AreLines : AreLines two_lines
two-AreLines = ground arith

loop_echo-rotated_example :
    map
      (map rot13_char)
      (loop_echo (lines_then two_lines (received (codes "x") (closed ∷ [])))).sent
    ≡ ended two_lines
loop_echo-rotated_example =
    loop_echo-rotated two_lines (codes "x") two-AreLines (ground arith) (hung_up []) (omega arith)

hello_run :
    (loop_echo (lines_then two_lines [])).sent
    ≡ (codes "uryyb" ++ (10 ∷ [])) ∷ (codes "Lbynaqn" ++ (10 ∷ [])) ∷ []
unfolding loop_echo rot13_char echo_loop
hello_run = refl
