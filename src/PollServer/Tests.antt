-- ===== src/PollServer/Tests.antt =====
-- A round with a new client, one that sends and one that has closed.
use yolanda.Memory.{Bytes}
use yolanda.Outcome.{ok}
use yolanda.Poll.{PollFd, pollrdnorm}
use yolanda.Prelude.Int.{ℤ, pos, minus_one, eqb_ℤ}
use yolanda.PollServer.{
  failed, PollTable, ReadAnswer, received, ended, writes, closes, Report, poll_round, set_revents,
  place, failed,
}
use yolanda.PollServer.Rounds.{
  poll_round_lem, pending, counted, admitted, entries_after, deeds_for, is_due,
}
use yolanda.Prelude.{◌≡◌, ◌∷◌, refl, some, true, ℕ, Bool, [], ◌≢◌, if◌then◌else◌, false}

abbrev entry : ℤ → ℕ → ℕ → PollFd
entry fd events revents = record { fd = fd; events = events; revents = revents }

-- The listening socket 3 and the clients 5 and 6, with a free entry between them.
abbrev table : PollTable
table = record {
  listener = entry (pos 3) pollrdnorm 0;
  clients = entry (pos 5) pollrdnorm 0 ∷ entry minus_one 0 0 ∷ entry (pos 6) pollrdnorm 0 ∷ [];
}

abbrev report : Report
report = record { ready_number = 3; of_listener = 64; of_clients = 64 ∷ 0 ∷ 64 ∷ [] }

-- The client 6 has closed, and every other one sends "a".
abbrev reads : ℤ → ReadAnswer
reads fd = if eqb_ℤ fd (pos 6) then ended else received 97 []

abbrev takes_all : ℤ → Bytes → Bool
takes_all fd bs = true

answered : (b : Bool) → (if b then ended else received 97 []) ≢ failed
answered true e = cc
answered false e = cc

poll_round_lem_example :
    poll_round reads takes_all (some report) (pos 7) table
    ≡ ok (
      record {
        listener = entry (pos 3) pollrdnorm 64;
        clients =
            entry (pos 5) pollrdnorm 64
            ∷ entry (pos 7) pollrdnorm 0
            ∷ entry minus_one pollrdnorm 64
            ∷ [];
      },
      writes (pos 5) (97 ∷ []) ∷ closes (pos 6) ∷ [],
    )
unfolding counted pending set_revents admitted place entries_after deeds_for is_due
poll_round_lem_example =
    poll_round_lem reads takes_all (λ fd. answered (eqb_ℤ fd (pos 6))) (λ fd bs. refl) report
      (pos 7) table
      (entry (pos 5) pollrdnorm 64 ∷ entry (pos 7) pollrdnorm 0 ∷ entry (pos 6) pollrdnorm 64 ∷ [])
      refl refl
