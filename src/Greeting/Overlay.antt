-- ===== src/Greeting/Overlay.antt =====
-- The datagrams of the connected server lie over each other: each is written over the start of the last.
use yolanda.Greeting.Answers.{greet-text, receive-text, memcpy_start}
use yolanda.Prelude.Slices.{drop-append_le}
use yolanda.Outcome.{ok, Outcome, ◌>>=◌}
use yolanda.Http.Text.{codes}
use yolanda.Fgets.{IsText, append-IsText, drop-IsText}
use yolanda.TelnetServer.{same_start}
use yolanda.Memory.{Bytes}
use yolanda.Greeting.{
  Arrival, is_goodbye, receive_next, Server, connected_loop, hi, connected_server, maxline,
}
use yolanda.Prelude.{
  ◌≤◌, ◌≡◌, ◌&&◌, ◌∙◌, ◌∷◌, ◌++◌, ◌==◌, refl, sym, ap, none, some, true, false, ℕ, List, arith,
  zero, suc, length, [], drop, ◌||◌, length-append, append_assoc, ◌+◌, ◌<◌, subst, length-drop, map,
  ap₂, Bool, set, length-set,
}

-- What a datagram makes of the text in the array.
abbrev pub overlay : Arrival → Bytes → Bytes
overlay none s = s
overlay (some t) s = t ++ drop (length t) s

-- The texts that the array holds one after the other, and the last of them.
abbrev pub overlays : List Arrival → Bytes → List Bytes
overlays [] s = s ∷ []
overlays (a ∷ arrivals) s = s ∷ overlays arrivals (overlay a s)

abbrev pub overlaid : List Arrival → Bytes → Bytes
overlaid [] s = s
overlaid (a ∷ arrivals) s = overlaid arrivals (overlay a s)

-- No datagram is longer than the first, and each is a text.
abbrev pub NoLonger : ℕ → List Arrival → Type 0
NoLonger n [] = Unit {0}
NoLonger n (none ∷ arrivals) = NoLonger n arrivals
NoLonger n (some t ∷ arrivals) = IsText t × (length t ≤ n) × NoLonger n arrivals

-- None of these texts begins with "goodbye".
abbrev pub GoesOn : List Bytes → Type 0
GoesOn [] = Unit {0}
GoesOn (s ∷ ss) = (is_goodbye (s ++ 0 ∷ []) ≡ false) × GoesOn ss

-- `strncmp` stops at the zero.
same_start-beyond :
    (n : ℕ) (s rest q : Bytes) → same_start n (s ++ 0 ∷ rest) q ≡ same_start n (s ++ 0 ∷ []) q
unfolding same_start
same_start-beyond zero s rest q = refl
same_start-beyond (suc n) [] rest [] = refl
same_start-beyond (suc n) [] rest (d ∷ ds) = ap (λ b. 0 == d && b) refl
same_start-beyond (suc n) (c ∷ cs) rest [] = refl
same_start-beyond (suc n) (c ∷ cs) rest (d ∷ ds) =
    ap (λ b. c == d && (c == 0 || b)) (same_start-beyond n cs rest ds)

is_goodbye-beyond : (s rest : Bytes) → is_goodbye (s ++ 0 ∷ rest) ≡ is_goodbye (s ++ 0 ∷ [])
unfolding is_goodbye
is_goodbye-beyond s rest = same_start-beyond 7 s rest (codes "goodbye" ++ 0 ∷ [])

is_goodbye-said : (rest : Bytes) → is_goodbye (codes "goodbye" ++ rest) ≡ true
unfolding is_goodbye same_start
is_goodbye-said rest = refl

receive_next-overlay :
    (t s rest : Bytes)
    → length t ≤ length s
    → receive_next (some t) (s ++ 0 ∷ rest) ≡ ok (overlay (some t) s ++ 0 ∷ rest)
unfolding receive_next
receive_next-overlay t s rest h =
    let long = length-append s (0 ∷ rest) in
    memcpy_start t (s ++ 0 ∷ rest) (omega (arith, h, long))
    ∙ ap (λ z. ok (t ++ z)) (drop-append_le (length t) s (0 ∷ rest) h)
    ∙ ap ok (sym (append_assoc t (drop (length t) s) (0 ∷ rest)))

overlay-IsText : (t s : Bytes) → IsText t → IsText s → IsText (overlay (some t) s)
overlay-IsText t s h k = append-IsText t (drop (length t) s) h (drop-IsText (length t) s k)

length-overlay : (t s : Bytes) → length t ≤ length s → length (overlay (some t) s) ≡ length s
length-overlay t s h =
    length-append t (drop (length t) s) ∙ omega (arith, h, length-drop (length t) s)

abbrev holding : Bytes → Bytes → ℕ → List Bytes → Server
holding s rest count sent = record { message = s ++ 0 ∷ rest; count = count; sent = sent }

-- One step of the loop, while the text does not begin with "goodbye".
loop_step :
    (a : Arrival) (arrivals : List Arrival) (s s' rest : Bytes) (count : ℕ) (sent : List Bytes)
    → IsText s
    → length s < 4092
    → is_goodbye (s ++ 0 ∷ []) ≡ false
    → receive_next a (s ++ 0 ∷ rest) ≡ ok (s' ++ 0 ∷ rest)
    → connected_loop (a ∷ arrivals) (holding s rest count sent)
      ≡ connected_loop arrivals (holding s' rest (count + 1) (sent ++ (hi ++ s) ∷ []))
unfolding connected_loop
loop_step a arrivals s s' rest count sent t h on received =
    let on' = is_goodbye-beyond s rest ∙ on in
    let greeted = greet-text s rest t h in ground (arith, on', greeted, received)

loop_ends :
    (arrivals : List Arrival) (s rest : Bytes) (count : ℕ) (sent : List Bytes)
    → is_goodbye (s ++ 0 ∷ rest) ≡ true
    → connected_loop arrivals (holding s rest count sent) ≡ ok (true, holding s rest count sent)
unfolding connected_loop
loop_ends [] s rest count sent h = ground (arith, h)
loop_ends (a ∷ arrivals) s rest count sent h = ground (arith, h)

regroup :
    (s rest : Bytes) (count n : ℕ) (sent more : List Bytes) (text : Bytes)
    → ◌≡◌ {A = Outcome (Bool × Server)}
        (ok (true, holding s rest (count + 1 + n + 1) ((sent ++ text ∷ []) ++ more)))
        (ok (true, holding s rest (count + suc n + 1) (sent ++ text ∷ more)))
regroup s rest count n sent more text =
    ap₂ (λ k ys. ok (true, holding s rest k ys)) {x = count + 1 + n + 1} (omega arith)
      (append_assoc sent (text ∷ []) more)

receive_next-none : (message : Bytes) → receive_next none message ≡ ok message
unfolding receive_next
receive_next-none message = refl

connected_loop-overlaid :
    (arrivals later : List Arrival) (s rest : Bytes) (count : ℕ) (sent : List Bytes)
    → IsText s
    → length s < 4092
    → 7 ≤ length s
    → NoLonger (length s) arrivals
    → GoesOn (overlays arrivals s)
    → connected_loop (arrivals ++ some (codes "goodbye") ∷ later) (holding s rest count sent)
      ≡ ok (
        true,
        holding
            (overlay (some (codes "goodbye")) (overlaid arrivals s))
            rest
            (count + length arrivals + 1)
            (sent ++ map (◌++◌ hi) (overlays arrivals s)),
      )
connected_loop-overlaid [] later s rest count sent t h k no_longer on =
    let bye = codes "goodbye" ++ drop 7 s in
    loop_step (some (codes "goodbye")) later s bye rest count sent t h on.0
      (receive_next-overlay (codes "goodbye") s rest k)
    ∙ loop_ends later bye rest (count + 1) (sent ++ (hi ++ s) ∷ []) (
        ap is_goodbye (append_assoc (codes "goodbye") (drop 7 s) (0 ∷ rest))
        ∙ is_goodbye-said (drop 7 s ++ 0 ∷ rest))
    ∙ ap (λ n. ok (true, holding bye rest n (sent ++ (hi ++ s) ∷ []))) {y = count + 0 + 1}
        (omega arith)
connected_loop-overlaid (none ∷ arrivals) later s rest count sent t h k no_longer on =
    loop_step none (arrivals ++ some (codes "goodbye") ∷ later) s s rest count sent t h on.0
      (receive_next-none (s ++ 0 ∷ rest))
    ∙ connected_loop-overlaid arrivals later s rest (count + 1) (sent ++ (hi ++ s) ∷ []) t h k
        no_longer on.1
    ∙ regroup (overlay (some (codes "goodbye")) (overlaid arrivals s)) rest count (length arrivals)
        sent (map (◌++◌ hi) (overlays arrivals s)) (hi ++ s)
connected_loop-overlaid (some u ∷ arrivals) later s rest count sent t h k (text, short, no_longer)
      on =
    let same = length-overlay u s short in
    loop_step (some u) (arrivals ++ some (codes "goodbye") ∷ later) s (overlay (some u) s) rest
      count sent t h on.0 (receive_next-overlay u s rest short)
    ∙ connected_loop-overlaid arrivals later (overlay (some u) s) rest (count + 1)
        (sent ++ (hi ++ s) ∷ []) (overlay-IsText u s text t) (omega (arith, same, h))
        (omega (arith, same, k)) (subst (λ n. NoLonger n arrivals) (sym same) no_longer) on.1
    ∙ regroup (overlay (some (codes "goodbye")) (overlaid arrivals (overlay (some u) s))) rest count
        (length arrivals) sent (map (◌++◌ hi) (overlays arrivals (overlay (some u) s))) (hi ++ s)

-- If the first datagram is a text of 7 to 4091 bytes and no later one is longer, the server answers
-- each but with all that the array holds: a datagram, and then what a longer one before it has left
-- there, with a failure to receive counting as a datagram that changes nothing. The datagram
-- "goodbye" ends the program, if none of these texts began with it before.
pub connected_server-overlaid :
    (junk first : Bytes) (arrivals later : List Arrival)
    → length junk ≡ maxline
    → IsText first
    → length first < 4092
    → 7 ≤ length first
    → NoLonger (length first) arrivals
    → GoesOn (overlays arrivals first)
    → (s : Server) × (connected_server junk
          (some first)
          true
          (arrivals ++ some (codes "goodbye") ∷ later)
        ≡ ok (true, s))
      × (s.sent ≡ map (◌++◌ hi) (overlays arrivals first))
      × (s.count ≡ length arrivals + 1)
unfolding connected_server
connected_server-overlaid junk first arrivals later size t h k no_longer on =
    let rest = drop (suc (length first)) (set junk 0 0) in
    let received =
      receive-text first (set junk 0 0) (omega (arith, h, size, length-set junk 0 0)) in
    let run = connected_loop-overlaid arrivals later first rest 0 [] t h k no_longer on in
    (
      _,
      ap
            (λ o. o >>= λ m.
              connected_loop (arrivals ++ some (codes "goodbye") ∷ later)
                (record { message = m; count = 0; sent = [] }))
            received
          ∙ run,
      refl,
      omega arith,
    )
