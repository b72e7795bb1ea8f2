-- ===== src/PollServer.antt =====
-- chap-21/pollserver.c: an echo server around `poll`, with a fixed table of clients. The listening
-- socket is the first entry of `event_set`.
pub mod Rounds
mod Tests
use Prim.Native.Nat.{bit_and}
use yolanda.Memory.{Bytes}
use yolanda.Prelude.Int.{ℤ, is_neg, minus_one}
use yolanda.Outcome.{Outcome, ok, fault, exited, ◌>>=◌}
use yolanda.Poll.{PollFd, pollrdnorm}
use yolanda.Prelude.{
  ◌-◌, ◌∷◌, ◌==◌, ◌||◌, none, some, true, false, ℕ, List, Option, Bool, leb, [], replicate,
  if◌then◌else◌,
}

abbrev pub init_size : ℕ
init_size = 128

-- `POLLRDNORM | POLLERR`
abbrev pub readable_or_error : ℕ
readable_or_error = 0x48

-- `event_set`: its first entry and the others.
pub record PollTable : Type 0 where
  pub listener : PollFd
  pub clients : List PollFd

-- The table before the first round. What `events` and `revents` of a free entry hold is not read.
unfoldable pub start : ℤ → PollTable
start listen_fd = record {
  listener = record { fd = listen_fd; events = pollrdnorm; revents = 0 };
  clients = replicate (init_size - 1) (record { fd = minus_one; events = 0; revents = 0 });
}

-- What `read` of a client comes to: bytes, the end of the stream, `ECONNRESET`, or another error.
pub data ReadAnswer : Type 0 where
  received : ℕ → Bytes → ReadAnswer
  ended reset failed : ReadAnswer

-- What the server does to a client: it writes bytes to it, or closes it.
pub data Deed : Type 0 where
  writes : ℤ → Bytes → Deed
  closes : ℤ → Deed

-- What `poll` reports: the number of entries with events, and `revents` of the entries.
pub record Report : Type 0 where
  pub ready_number : ℕ
  pub of_listener : ℕ
  pub of_clients : List ℕ

unfoldable pub set_revents : List ℕ → List PollFd → List PollFd
set_revents [] ps = ps
set_revents (r ∷ rs) [] = []
set_revents (r ∷ rs) (p ∷ ps) = record p { revents = r } ∷ set_revents rs ps

-- The first free entry is taken: `none` means that there is none. What `accept` returns is not tested.
unfoldable pub place : ℤ → List PollFd → Option (List PollFd)
place fd [] = none
place fd (p ∷ ps) =
    let rest = place fd ps in
    if is_neg p.fd
    then some (record p { fd = fd; events = pollrdnorm } ∷ ps)
    else elim rest [ none ↦ none | some ps' ↦ some (p ∷ ps') ]

-- An entry that the loop over the clients passes over.
unfoldable pub is_passed : PollFd → Bool
is_passed p = is_neg p.fd || bit_and p.revents readable_or_error == 0

-- `reads` and `accepts` are what `read` delivers from a client, and whether `write` to it works.
module _ (reads : ℤ → ReadAnswer) (accepts : ℤ → Bytes → Bool) where
  unfoldable pub serve_client : PollFd → Outcome (PollFd × Deed)
  serve_client p = elim (reads p.fd) [
    | received c cs ↦ elim (accepts p.fd (c ∷ cs)) [
      | true ↦ ok (p, writes p.fd (c ∷ cs))
      | false ↦ fault (exited 1)
    ]
    | ended ↦ ok (record p { fd = minus_one }, closes p.fd)
    | reset ↦ ok (record p { fd = minus_one }, closes p.fd)
    | failed ↦ fault (exited 1)
  ]

  -- The loop over the clients. `--ready_number <= 0` holds if the number is at most 1; from there on it
  -- stays above 0.
  unfoldable pub serve_clients : ℕ → List PollFd → Outcome (List PollFd × List Deed)
  serve_clients ready [] = ok ([], [])
  serve_clients ready (p ∷ ps) =
      let passed = serve_clients ready ps in
      let served = serve_clients (ready - 1) ps in
      elim (is_passed p) [
        | true ↦ do (ps', deeds) ← passed; ok (p ∷ ps', deeds)
        | false ↦ do
          (p', deed) ← serve_client p
          elim (leb ready 1) [
            | true ↦ ok (p' ∷ ps, deed ∷ [])
            | false ↦ do (ps', deeds) ← served; ok (p' ∷ ps', deed ∷ deeds)
          ]
      ]

  -- The listening socket is ready: `fd` is what `accept` returns.
  unfoldable pub accept_round : ℤ → ℕ → PollTable → Outcome (PollTable × List Deed)
  accept_round fd ready t = elim (place fd t.clients) [
    | none ↦ fault (exited 1)
    | some clients' ↦ elim (leb ready 1) [
      | true ↦ ok (record t { clients = clients' }, [])
      | false ↦ do
        (clients'', deeds) ← serve_clients (ready - 1) clients'
        ok (record t { clients = clients'' }, deeds)
    ]
  ]

  -- A round of the loop of `main`; `none` is a failure of `poll`. What was done before a fault is not
  -- part of the result.
  unfoldable pub poll_round : Option Report → ℤ → PollTable → Outcome (PollTable × List Deed)
  poll_round none fd t = fault (exited 1)
  poll_round (some r) fd t = do
    let listener' = record t.listener { revents = r.of_listener }
    let t' = record t { listener = listener'; clients = set_revents r.of_clients t.clients }
    elim (bit_and r.of_listener pollrdnorm == 0) [
      | false ↦ accept_round fd r.ready_number t'
      | true ↦ do
        (clients', deeds) ← serve_clients r.ready_number t'.clients
        ok (record t' { clients = clients' }, deeds)
    ]
