-- ===== src/PollServer/Rounds.antt =====
-- A round of the server serves each ready client once: the counting loses none.
use Prim.Native.Nat.{bit_and}
use yolanda.Memory.{Bytes}
use mathlib.Core.Option.{some-injective}
use yolanda.Prelude.Int.{ℤ, minus_one, is_neg}
use yolanda.Outcome.{Outcome, ok}
use yolanda.Poll.{PollFd, pollrdnorm}
use yolanda.PollServer.{
  PollTable, ReadAnswer, received, ended, reset, failed, Deed, writes, closes, Report, set_revents,
  place, serve_client, is_passed, serve_clients, accept_round, poll_round,
}
use yolanda.Prelude.{
  ◌+◌, ◌-◌, ◌≡◌, ◌≢◌, ◌≤◌, ◌∷◌, ◌==◌, if◌then◌else◌, refl, none, some, true, false, ℕ, List, Option,
  Bool, arith, [], ◌∙◌, sym, inl, inr, Bool-cases, le-cases, ==_iff, ap, not, ◌||◌,
}

-- The entries with events, which is what `poll` counts.
unfoldable pub pending : List PollFd → ℕ
pending [] = 0
pending (p ∷ ps) = let more = pending ps in if p.revents == 0 then more else more + 1

unfoldable pub counted : Report → List PollFd → ℕ
counted r ps = (if r.of_listener == 0 then 0 else 1) + pending (set_revents r.of_clients ps)

-- The clients after a new one has been given its entry, if the listening socket is ready.
unfoldable pub admitted : Report → ℤ → List PollFd → Option (List PollFd)
admitted r fd ps =
    if bit_and r.of_listener pollrdnorm == 0
    then some (set_revents r.of_clients ps)
    else place fd (set_revents r.of_clients ps)

-- A client that is readable or has an error: POLLRDNORM, 64, or POLLERR, 8, is in its `revents`.
unfoldable pub is_due : PollFd → Bool
is_due p = if is_neg p.fd then false else if bit_and p.revents 72 == 0 then false else true

is_passed-is_due : (p : PollFd) → is_passed p ≡ not (is_due p)
unfolding is_passed is_due
is_passed-is_due p = passed (is_neg p.fd) (bit_and p.revents 72 == 0)
  where
    passed :
        (free idle : Bool)
        → (free || idle) ≡ not (if free then false else if idle then false else true)
    passed true idle = refl
    passed false true = refl
    passed false false = refl

is_due-not : (p : PollFd) → is_passed p ≡ true → is_due p ≡ false
is_due-not p h = ground (arith, h, is_passed-is_due p)

is_due-served : (p : PollFd) → is_passed p ≡ false → is_due p ≡ true
is_due-served p h = ground (arith, h, is_passed-is_due p)

-- The entry of a client, and what is done to it, for what its `read` delivers.
abbrev pub entry_after : ReadAnswer → PollFd → PollFd
entry_after (received c cs) p = p
entry_after ended p = record p { fd = minus_one }
entry_after reset p = record p { fd = minus_one }
entry_after failed p = p

abbrev pub deed_for : ReadAnswer → ℤ → Deed
deed_for (received c cs) fd = writes fd (c ∷ cs)
deed_for ended fd = closes fd
deed_for reset fd = closes fd
deed_for failed fd = closes fd

unneeded : (p : PollFd) → p.revents ≡ 0 → is_passed p ≡ true
unfolding is_passed
unneeded p h = ground (arith, h)

pending-passed : (p : PollFd) (ps : List PollFd) → pending ps ≤ pending (p ∷ ps)
unfolding pending
pending-passed p ps = ground arith

pending-served :
    (p : PollFd) (ps : List PollFd) → is_passed p ≡ false → pending (p ∷ ps) ≡ pending ps + 1
unfolding pending
pending-served p ps h = elim (Bool-cases (p.revents == 0)) [
  | inl e ↦ (let passed = unneeded p ((==_iff p.revents 0).0 e) in cc)
  | inr e ↦ ground (arith, e)
]

-- A new client takes an entry over with what is in its `revents`.
pending-place : (fd : ℤ) (ps ps' : List PollFd) → place fd ps ≡ some ps' → pending ps' ≡ pending ps
unfolding place pending
pending-place fd [] ps' e = cc
pending-place fd (p ∷ ps) ps' e = placed (is_neg p.fd) (place fd ps) (pending-place fd ps) e
  where
    placed :
        (free : Bool) (o : Option (List PollFd))
        → ((rest : List PollFd) → o ≡ some rest → pending rest ≡ pending ps)
        → (if free
            then some (record p { fd = fd; events = pollrdnorm } ∷ ps)
            else elim o [ none ↦ none | some rest ↦ some (p ∷ rest) ])
          ≡ some ps'
        → pending ps' ≡ pending (p ∷ ps)
    placed true o k h = ap pending (sym (some-injective _ _ h))
    placed false none k h = cc
    placed false (some rest) k h =
        let more = k rest refl in
        ap pending (sym (some-injective _ _ h)) ∙ ap (λ n. if p.revents == 0 then n else n + 1) more

counted-quiet :
    (r : Report) (ps : List PollFd) → pending (set_revents r.of_clients ps) ≤ counted r ps
unfolding counted
counted-quiet r ps = ground arith

counted-ready :
    (r : Report) (ps : List PollFd)
    → (bit_and r.of_listener pollrdnorm == 0) ≡ false
    → counted r ps ≡ pending (set_revents r.of_clients ps) + 1
unfolding counted
counted-ready r ps h = elim (Bool-cases (r.of_listener == 0)) [
  | inl e ↦ let zero_events = (==_iff r.of_listener 0).0 e in ground (arith, zero_events, h)
  | inr e ↦ ground (arith, e)
]

module _ (reads : ℤ → ReadAnswer) (accepts : ℤ → Bytes → Bool) where
  unfoldable pub entries_after : List PollFd → List PollFd
  entries_after [] = []
  entries_after (p ∷ ps) = (if is_due p then entry_after (reads p.fd) p else p) ∷ entries_after ps

  unfoldable pub deeds_for : List PollFd → List Deed
  deeds_for [] = []
  deeds_for (p ∷ ps) =
      let more = deeds_for ps in if is_due p then deed_for (reads p.fd) p.fd ∷ more else more

  none_pending : (ps : List PollFd) → pending ps ≡ 0 → (entries_after ps ≡ ps) × (deeds_for ps ≡ [])
  unfolding entries_after deeds_for
  none_pending [] h = (refl, refl)
  none_pending (p ∷ ps) h = elim (Bool-cases (is_passed p)) [
    | inl e ↦
        let (same, nothing) = none_pending ps (omega (arith, h, pending-passed p ps)) in
        let idle = is_due-not p e in (ground (arith, idle, same), ground (arith, idle, nothing))
    | inr e ↦ absurd (omega (arith, h, pending-served p ps e))
  ]

  module _ (read : (fd : ℤ) → reads fd ≢ failed)
      (taken : (fd : ℤ) (bs : Bytes) → accepts fd bs ≡ true) where
    serve_client_lem :
        (p : PollFd)
        → serve_client reads accepts p ≡ ok (entry_after (reads p.fd) p, deed_for (reads p.fd) p.fd)
    unfolding serve_client
    serve_client_lem p = answered (reads p.fd) refl
      where
        answered :
            (a : ReadAnswer)
            → reads p.fd ≡ a
            → serve_client reads accepts p ≡ ok (entry_after a p, deed_for a p.fd)
        answered (received c cs) e =
            (let accepted = taken p.fd (c ∷ cs) in ground (arith, e, accepted))
        answered ended e = ground (arith, e)
        answered reset e = ground (arith, e)
        answered failed e = absurd (read p.fd e)

    serve_clients_lem :
        (ready : ℕ) (ps : List PollFd)
        → pending ps ≤ ready
        → serve_clients reads accepts ready ps ≡ ok (entries_after ps, deeds_for ps)
    unfolding serve_clients entries_after deeds_for
    serve_clients_lem ready [] h = refl
    serve_clients_lem ready (p ∷ ps) h = elim (Bool-cases (is_passed p)) [
      | inl e ↦
          let rest = serve_clients_lem ready ps (omega (arith, h, pending-passed p ps)) in
          let idle = is_due-not p e in ground (arith, e, idle, rest)
      | inr e ↦ elim (le-cases ready 1) [
        | inl last ↦
            let (same, nothing) = none_pending ps (omega (arith, h, pending-served p ps e)) in
            let this = serve_client_lem p in
            let wants = is_due-served p e in ground (arith, e, wants, last, this, same, nothing)
        | inr more ↦
            let rest = serve_clients_lem (ready - 1) ps (omega (arith, h, pending-served p ps e)) in
            let this = serve_client_lem p in
            let wants = is_due-served p e in ground (arith, e, wants, more, this, rest)
      ]
    ]

    serve_ready :
        (fd : ℤ) (ready : ℕ) (t : PollTable) (clients' : List PollFd)
        → place fd (t.clients) ≡ some clients'
        → pending clients' + 1 ≤ ready
        → ready ≤ pending clients' + 1
        → accept_round reads accepts fd ready t
          ≡ ok (record t { clients = entries_after clients' }, deeds_for clients')
    unfolding accept_round
    serve_ready fd ready t clients' e h k = elim (le-cases ready 1) [
      | inl last ↦
          let (same, nothing) = none_pending clients' (omega (arith, h, last)) in
          ground (arith, e, last, same, nothing)
      | inr more ↦
          let served = serve_clients_lem (ready - 1) clients' (omega (arith, h)) in
          ground (arith, e, more, served)
    ]

    -- If no read fails but with `ECONNRESET`, no write fails, the number that `poll` returns is that of
    -- the entries with events, and a new client finds a free entry, then a round serves exactly the
    -- clients that are readable or have an error, each once and in the order of the table: it
    -- echoes what they sent, and closes and frees the entries of those that have ended; the other
    -- entries stay as they are.
    pub poll_round_lem :
        (r : Report) (fd : ℤ) (t : PollTable) (clients' : List PollFd)
        → r.ready_number ≡ counted r (t.clients)
        → admitted r fd (t.clients) ≡ some clients'
        → poll_round reads accepts (some r) fd t
          ≡ ok (
            record t {
              listener = record (t.listener) { revents = r.of_listener };
              clients = entries_after clients';
            },
            deeds_for clients',
          )
    unfolding poll_round counted admitted
    poll_round_lem r fd t clients' number admits =
        elim (Bool-cases (bit_and r.of_listener pollrdnorm == 0)) [
          | inl quiet ↦
              let same =
                some-injective (set_revents r.of_clients (t.clients)) clients'
                  (ground (arith, admits, quiet)) in
              let served =
                serve_clients_lem r.ready_number (set_revents r.of_clients (t.clients))
                  (omega (arith, number, counted-quiet r (t.clients))) in
              let round : List PollFd → Outcome (PollTable × List Deed) = λ ps. ok (
                record t {
                  listener = record (t.listener) { revents = r.of_listener };
                  clients = entries_after ps;
                },
                deeds_for ps,
              ) in
              (ground (arith, quiet, served)) ∙ ap round same
          | inr ready ↦
              let placed : place fd (set_revents r.of_clients (t.clients)) ≡ some clients' =
                ground (arith, admits, ready) in
              let n = counted-ready r (t.clients) ready in
              let m = pending-place fd (set_revents r.of_clients (t.clients)) clients' placed in
              let round =
                serve_ready fd r.ready_number
                  (record t {
                    listener = record (t.listener) { revents = r.of_listener };
                    clients = set_revents r.of_clients (t.clients);
                  })
                  clients' placed (omega (arith, n, m, number)) (omega (arith, n, m, number)) in
              ground (arith, ready, round)
        ]
