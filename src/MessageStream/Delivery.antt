-- ===== src/MessageStream/Delivery.antt =====
-- The text that the client reads is the text that the server prints.
use mathlib.Core.List.{flatten}
use yolanda.Memory.{Bytes}
use yolanda.Fgets.{IsText, c_str-IsText, fgets, fgets-Taken, fgets-takes}
use yolanda.Outcome.{ok}
use yolanda.Prelude.Int.{ℤ, pos}
use yolanda.Prelude.{
  ◌≡◌, ◌≤◌, ◌<◌, ◌^◌, ◌∙◌, ◌∷◌, ◌++◌, refl, sym, ap, ℕ, List, arith, zero, suc, length, [], map,
  length-append,
}
use yolanda.Prelude.Slices.{take-of_ge}
use yolanda.Read.{Stream, ntohl}
use yolanda.Read.Exact.{available}
use yolanda.Read.Fragments.{IsIntact, read_message-framed, read_message-ended}
use yolanda.MessageStream.{
  htonl, message_of, message_type, client_loop, server_loop, closed, data_size, stops, overran,
}

ntohl-htonl : (n : ℕ) → n < 2 ^ 32 → ntohl (htonl n) ≡ n
unfolding ntohl htonl
ntohl-htonl n h = omega arith

-- What is sent for lines.
abbrev pub messages : List Bytes → Bytes
messages lines = flatten (map message_of lines)

abbrev AreLines : List Bytes → Type 0
AreLines [] = Unit
AreLines (l ∷ ls) = IsText l × (0 < length l) × (length l < data_size) × AreLines ls

client_loop-lines :
    (fuel : ℕ) (sends : Bytes → ℤ) (text : Bytes)
    → ((m : Bytes) → sends m ≡ pos (length m))
    → length text ≤ fuel
    → IsText text
    → (lines : List Bytes) × (client_loop fuel sends text ≡ ok (messages lines))
      × AreLines lines
      × (flatten lines ≡ text)
unfolding client_loop flatten
client_loop-lines fuel sends [] all h t = ([], refl, tt, refl)
client_loop-lines zero sends (c ∷ cs) all h t = absurd (omega arith)
client_loop-lines (suc fuel) sends (c ∷ cs) all h t =
    let l = fgets-Taken 127 (c ∷ cs) t in
    let some_taken = fgets-takes 126 c cs in
    let shorter = ap length l.whole in
    let split = length-append ((fgets 127 (c ∷ cs)).0) ((fgets 127 (c ∷ cs)).1) in
    let (lines, run, are, flat) =
      client_loop-lines fuel sends ((fgets 127 (c ∷ cs)).1) all
        (omega (arith, some_taken, shorter, split)) l.left in
    let m = message_of ((fgets 127 (c ∷ cs)).0) in
    (
      (fgets 127 (c ∷ cs)).0 ∷ lines,
      ground (arith, all m, run, take-of_ge (length m) m (omega arith)),
      (l.taken, some_taken, omega (arith, l.fits), are),
      ap (λ xs. (fgets 127 (c ∷ cs)).0 ++ xs) flat ∙ l.whole,
    )

abbrev pub printed_for : Bytes → ℕ × Bytes
printed_for line = (length line, line)

server_loop-lines :
    (lines : List Bytes) (s : Stream)
    → AreLines lines
    → available s ≡ messages lines
    → IsIntact s
    → server_loop (suc (length lines)) s ≡ record { printed = map printed_for lines; end = closed }
unfolding server_loop stops flatten message_of htonl
server_loop-lines [] s are e i =
    let (s', run) = read_message-ended data_size s e i in ground (arith, run)
server_loop-lines (l ∷ ls) s (t, some_chars, short, are) e i =
    let text = c_str-IsText l t in
    let (s', run, left, intact) =
      read_message-framed data_size (htonl (length l)) message_type l (messages ls) s refl refl
        (ntohl-htonl (length l) (omega arith)) (omega arith) (omega arith)
        (e ∙ ap (λ z. (htonl (length z) ++ (message_type ++ z)) ++ messages ls) text) in
    let rest = server_loop-lines ls s' are left (intact i) in
    ground (arith, run, rest, text, some_chars, short)

-- Whatever pieces and interruptions a network makes of the bytes that are sent, if it delivers them and
-- then ends, and `send` takes whole messages: the client sends a text without zeros to its end, and
-- the server, one round after the last line, has printed lines with their lengths that make up the
-- text, and has stopped because the client has closed.
pub text-delivered :
    (network : Bytes → Stream) (sends : Bytes → ℤ) (text : Bytes)
    → ((sent : Bytes) → available (network sent) ≡ sent)
    → ((sent : Bytes) → IsIntact (network sent))
    → ((m : Bytes) → sends m ≡ pos (length m))
    → IsText text
    → (sent : Bytes) × (lines : List Bytes) × (client_loop (length text) sends text ≡ ok sent)
      × (server_loop (suc (length lines)) (network sent)
          ≡ record { printed = map printed_for lines; end = closed })
      × (flatten lines ≡ text)
text-delivered network sends text delivers intact all t =
    let (lines, run, are, flat) = client_loop-lines (length text) sends text all (omega arith) t in
    (
      messages lines,
      lines,
      run,
      server_loop-lines lines (network (messages lines)) are (delivers (messages lines))
          (intact (messages lines)),
      flat,
    )

-- A message whose record fills the buffer has the server write behind the buffer.
pub server_loop-full :
    (type text rest : Bytes) (rounds : ℕ) (s : Stream)
    → length type ≡ 4
    → length text ≡ data_size
    → available s ≡ htonl data_size ++ (type ++ (text ++ rest))
    → server_loop (suc rounds) s ≡ stops overran
unfolding server_loop htonl
server_loop-full type text rest rounds s four full e =
    let (s', run, left, intact) =
      read_message-framed data_size (htonl data_size) type text rest s refl four
        (ntohl-htonl data_size (omega arith) ∙ sym full) (omega (arith, full)) (omega (arith, full))
        e in
    ground (arith, run, full)
