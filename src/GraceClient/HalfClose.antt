-- ===== src/GraceClient/HalfClose.antt =====
-- What is written and printed around a `shutdown`.
use yolanda.Memory.{Bytes}
use yolanda.Yolandapp.Http.{c_str}
use yolanda.Http.Text.{codes}
use yolanda.GraceClient.{
  SocketRead, Round, GraceClient, fresh_client, Next, begins, client_run, client_step, ended,
  failed, goes_on, input_part, on_line, send_text, socket_part, stops, text, without_line_end,
}
use yolanda.Prelude.{
  ◌≡◌, ◌∙◌, ◌∷◌, ◌++◌, refl, sym, ap, none, some, true, false, List, Option, Bool, arith, [],
  append-nil, append_assoc, ap₂,
}

abbrev pub client_of : Next → GraceClient
client_of (goes_on c) = c
client_of (stops c reason) = c

-- The texts that are printed until the server's end.
abbrev heard_of : Option SocketRead → List Bytes → List Bytes
heard_of none more = more
heard_of (some (text t)) more = c_str t ∷ more
heard_of (some ended) more = []
heard_of (some failed) more = []

unfoldable pub heard : List Round → List Bytes
heard [] = []
heard (r ∷ rs) = heard_of r.socket (heard rs)

-- The lines that are read, without their ends.
abbrev told_of : Option (Option Bytes) → List Bytes
told_of none = []
told_of (some none) = []
told_of (some (some line)) = without_line_end line ∷ []

unfoldable pub told : List Round → List Bytes
told [] = []
told (r ∷ rs) = told_of r.input ++ told rs

-- A line that is not empty and no command.
abbrev pub IsPlain : Option (Option Bytes) → Type 0
IsPlain none = Unit
IsPlain (some none) = Unit
IsPlain (some (some [])) = ⊥
IsPlain (some (some (c ∷ cs))) =
    (begins (codes "shutdown") (c ∷ cs) ≡ false) × (begins (codes "close") (c ∷ cs) ≡ false)

abbrev pub IsOpen : Option SocketRead → Type 0
IsOpen none = Unit
IsOpen (some (text t)) = Unit
IsOpen (some ended) = ⊥
IsOpen (some failed) = ⊥

abbrev pub ArePlain : List Round → Type 0
ArePlain [] = Unit
ArePlain (r ∷ rs) = IsOpen r.socket × IsPlain r.input × ArePlain rs

abbrev client : Bool → List Bytes → List Bytes → GraceClient
client watches printed written = record {
  watches_input = watches;
  printed = printed;
  written = written;
}

-- Once the input is not watched any more, nothing is written.
deaf_run :
    (rs : List Round) (ps ws : List Bytes)
    → client_of (client_run rs (client false ps ws)) ≡ client false (ps ++ heard rs) ws
unfolding client_run client_step socket_part input_part heard
deaf_run [] ps ws = ap (λ xs. client false xs ws) (sym (append-nil ps))
deaf_run (r ∷ rs) ps ws = heard_round r.socket r.input (deaf_run rs)
  where
    follow : Next → GraceClient
    follow z = client_of (elim z [ goes_on c ↦ client_run rs c | stops c reason ↦ stops c reason ])

    quiet :
        (input : Option (Option Bytes)) (qs : List Bytes)
        → input_part input r.closes_well (client false qs ws) ≡ goes_on (client false qs ws)
    quiet none qs = refl
    quiet (some none) qs = refl
    quiet (some (some line)) qs = refl

    heard_round :
        (socket : Option SocketRead) (input : Option (Option Bytes))
        → ((qs vs : List Bytes)
            → client_of (client_run rs (client false qs vs)) ≡ client false (qs ++ heard rs) vs)
        → client_of
            (client_run (record r { socket = socket; input = input } ∷ rs) (client false ps ws))
          ≡ client false (ps ++ heard (record r { socket = socket; input = input } ∷ rs)) ws
    heard_round none input rest = ap follow (quiet input ps) ∙ rest ps ws
    heard_round (some (text t)) input rest =
        ap follow (quiet input (ps ++ c_str t ∷ []))
        ∙ rest (ps ++ c_str t ∷ []) ws
        ∙ ap (λ xs. client false xs ws) (append_assoc ps (c_str t ∷ []) (heard rs))
    heard_round (some ended) input rest = ap (λ xs. client false xs ws) (sym (append-nil ps))
    heard_round (some failed) input rest = ap (λ xs. client false xs ws) (sym (append-nil ps))

-- A round with plain input.
plain_input :
    (input : Option (Option Bytes)) (closes_well : Bool) (ps ws : List Bytes)
    → IsPlain input
    → input_part input closes_well (client true ps ws)
      ≡ goes_on (client true ps (ws ++ told_of input))
unfolding input_part on_line send_text
plain_input none closes_well ps ws i = ap (λ xs. goes_on (client true ps xs)) (sym (append-nil ws))
plain_input (some none) closes_well ps ws i =
    ap (λ xs. goes_on (client true ps xs)) (sym (append-nil ws))
plain_input (some (some [])) closes_well ps ws i = absurd i
plain_input (some (some (c ∷ cs))) closes_well ps ws (go, on) = ground (arith, go, on)

plain_run :
    (rs rest : List Round) (ps ws : List Bytes)
    → ArePlain rs
    → client_run (rs ++ rest) (client true ps ws)
      ≡ client_run rest (client true (ps ++ heard rs) (ws ++ told rs))
unfolding client_run client_step socket_part heard told
plain_run [] rest ps ws h =
    ap (λ xs. client_run rest (client true xs ws)) (sym (append-nil ps))
    ∙ ap (λ xs. client_run rest (client true (ps ++ []) xs)) (sym (append-nil ws))
plain_run (r ∷ rs) rest ps ws (begun, plain, h) =
    let more : (qs : List Bytes) → _ = λ qs. plain_run rs rest qs (ws ++ told_of r.input) h in
    heard_round r.socket begun more
  where
    follow : Next → Next
    follow z = elim z [ goes_on c ↦ client_run (rs ++ rest) c | stops c reason ↦ stops c reason ]

    heard_round :
        (socket : Option SocketRead)
        → IsOpen socket
        → ((qs : List Bytes)
            → client_run (rs ++ rest) (client true qs (ws ++ told_of r.input))
              ≡ client_run rest (client true (qs ++ heard rs) ((ws ++ told_of r.input) ++ told rs)))
        → client_run (record r { socket = socket } ∷ (rs ++ rest)) (client true ps ws)
          ≡ client_run rest
              (client true (ps ++ heard_of socket (heard rs)) (ws ++ (told_of r.input ++ told rs)))
    heard_round none o more =
        ap follow (plain_input r.input r.closes_well ps ws plain)
        ∙ more ps
        ∙ ap (λ xs. client_run rest (client true (ps ++ heard rs) xs))
            (append_assoc ws (told_of r.input) (told rs))
    heard_round (some (text t)) o more =
        ap follow (plain_input r.input r.closes_well (ps ++ c_str t ∷ []) ws plain)
        ∙ more (ps ++ c_str t ∷ [])
        ∙ ap₂ (λ xs ys. client_run rest (client true xs ys))
            (append_assoc ps (c_str t ∷ []) (heard rs))
            (append_assoc ws (told_of r.input) (told rs))
    heard_round (some ended) o more = absurd o
    heard_round (some failed) o more = absurd o

pub client_run-shutdown :
    (rs rs' : List Round) (r : Round) (line : Bytes)
    → ArePlain rs
    → IsOpen r.socket
    → r.input ≡ some (some line)
    → begins (codes "shutdown") line ≡ true
    → r.closes_well ≡ true
    → client_of (client_run (rs ++ r ∷ rs') fresh_client)
      ≡ record { watches_input = false; printed = heard rs ++ heard (r ∷ rs'); written = told rs }
unfolding client_run client_step socket_part input_part on_line heard
client_run-shutdown rs rs' r line plain open' reads commands well =
    ap client_of (plain_run rs (r ∷ rs') [] [] plain) ∙ commanded r.socket open'
  where
    follow : Next → GraceClient
    follow z = client_of (elim z [ goes_on c ↦ client_run rs' c | stops c reason ↦ stops c reason ])

    shuts :
        (ps ws : List Bytes)
        → input_part r.input r.closes_well (client true ps ws) ≡ goes_on (client false ps ws)
    shuts ps ws = ground (arith, reads, commands, well)

    commanded :
        (socket : Option SocketRead)
        → IsOpen socket
        → client_of
            (client_run (record r { socket = socket } ∷ rs') (client true (heard rs) (told rs)))
          ≡ client false (heard rs ++ heard_of socket (heard rs')) (told rs)
    commanded none o = ap follow (shuts (heard rs) (told rs)) ∙ deaf_run rs' (heard rs) (told rs)
    commanded (some (text t)) o =
        ap follow (shuts (heard rs ++ c_str t ∷ []) (told rs))
        ∙ deaf_run rs' (heard rs ++ c_str t ∷ []) (told rs)
        ∙ ap (λ xs. client false xs (told rs)) (append_assoc (heard rs) (c_str t ∷ []) (heard rs'))
    commanded (some ended) o = absurd o
    commanded (some failed) o = absurd o
