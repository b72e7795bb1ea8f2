-- ===== src/Poll.antt =====
-- lib/poll_dispatcher.c: the dispatcher over `poll`, a fixed table of `struct pollfd`.
pub mod Table
pub mod Laws
mod Tests
use yolanda.Outcome.{Outcome, fault, ok, ◌>>=◌, exited, out_of_bounds}
use yolanda.Prelude.Int.{ℤ, eqb_ℤ, is_neg, minus_one, pos}
use yolanda.Dispatcher.{Dispatcher}
use yolanda.Channel.{Channel, event_read, event_write}
use Prim.Native.Nat.{bit_and, bit_or}
use yolanda.Prelude.{
  ◌+◌, ◌-◌, ◌∷◌, ◌==◌, if◌then◌else◌, none, some, true, false, ℕ, List, Option, Bool, zero, suc,
  not, get_elem?, leb, [], map, ◌||◌,
}

-- `struct pollfd`. A slot with a negative `fd` is free.
pub record PollFd : Type 0 where
  pub fd : ℤ
  pub events : ℕ
  pub revents : ℕ

-- `struct poll_dispatcher_data`. `event_count`, `nfds`, `realloc_copy` and `event_set_copy` are set
-- to zero or not at all, and read nowhere.
pub record PollData : Type 0 where
  pub event_set : List PollFd

abbrev pub init_poll_size : ℕ
init_poll_size = 1024

abbrev pub pollrdnorm : ℕ
pollrdnorm = 0x40

abbrev pub pollwrnorm : ℕ
pollwrnorm = 0x100

-- The event mask that `poll` is given for a channel.
pub poll_events : ℕ → ℕ
poll_events events =
    let readable = if bit_and events event_read == 0 then 0 else pollrdnorm in
    if bit_and events event_write == 0 then readable else bit_or readable pollwrnorm

-- `event_set` as `malloc` gives it, with each `fd` set to -1.
pub poll_init : List PollFd → PollData
poll_init block = record { event_set = map freed block }
  where
    freed : PollFd → PollFd
    freed s = record s { fd = minus_one }

-- The loops of `poll_add`, `poll_del` and `poll_update` stop at the first slot with a property,
-- change it, and report whether they met one.
pub add_slot : ℤ → ℕ → List PollFd → Bool × List PollFd
add_slot fd events [] = (false, [])
add_slot fd events (s ∷ ss) =
    let (done, ss') = add_slot fd events ss in
    if is_neg s.fd then (true, record s { fd = fd; events = events } ∷ ss) else (done, s ∷ ss')

unfoldable pub del_slot : ℤ → List PollFd → Bool × List PollFd
del_slot fd [] = (false, [])
del_slot fd (s ∷ ss) =
    let (done, ss') = del_slot fd ss in
    if eqb_ℤ s.fd fd then (true, record s { fd = minus_one } ∷ ss) else (done, s ∷ ss')

pub update_slot : ℤ → ℕ → List PollFd → Bool × List PollFd
update_slot fd events [] = (false, [])
update_slot fd events (s ∷ ss) =
    let (done, ss') = update_slot fd events ss in
    if eqb_ℤ s.fd fd then (true, record s { events = events } ∷ ss) else (done, s ∷ ss')

-- All three return 0, and log the case that no slot was met.
pub poll_add : Channel → PollData → Outcome PollData
unfolding add_slot poll_events
poll_add c s = ok (record { event_set = (add_slot c.fd (poll_events c.events) s.event_set).1 })

unfoldable pub poll_del : Channel → PollData → Outcome (ℤ × PollData)
unfolding del_slot
poll_del c s = ok (pos 0, record { event_set = (del_slot c.fd s.event_set).1 })

pub poll_update : Channel → PollData → Outcome PollData
unfolding update_slot poll_events
poll_update c s =
    ok (record { event_set = (update_slot c.fd (poll_events c.events) s.event_set).1 })

abbrev pub poll_dispatcher : Dispatcher PollData
poll_dispatcher = record { add = poll_add; del = poll_del; update = poll_update }

-- `poll_dispatch`, over a world that holds the table. The table is read slot by slot while the
-- callbacks run, so a slot may have changed since `poll` returned. `activate w fd event` is
-- `channel_event_activate`.
module _ {W : Type 0} (table : W → PollData) (activate : W → ℤ → ℕ → Outcome (ℤ × W)) where
  unfoldable pub activate_if : Bool → W → ℤ → ℕ → Outcome W
  activate_if false w fd event = ok w
  activate_if true w fd event = do (result, w') ← activate w fd event; ok w'

  -- The two activations for a slot with events.
  unfoldable pub serve_slot : W → PollFd → Outcome W
  unfolding activate_if
  serve_slot w s = do
    w₁ ← activate_if (not (bit_and s.revents pollrdnorm == 0)) w s.fd event_read
    activate_if (not (bit_and s.revents pollwrnorm == 0)) w₁ s.fd event_write

  -- `left` slots are still to be looked at, from slot i on; `ready` is `ready_number`.
  pub serve_slots : ℕ → ℕ → ℕ → W → Outcome W
  serve_slots zero i ready w = ok w
  serve_slots (suc left) i ready w = elim (get_elem? (table w).event_set i) [
    | none ↦ fault out_of_bounds
    | some s ↦ elim (is_neg s.fd || s.revents == 0) [
      | true ↦ serve_slots left (i + 1) ready w
      | false ↦ do
        w' ← serve_slot w s
        elim (leb ready 1) [ true ↦ ok w' | false ↦ serve_slots left (i + 1) (ready - 1) w' ]
    ]
  ]

  -- `polled` is what `poll` comes to: the world with the events it reports, and its result, `none`
  -- for -1, upon which `error` ends the process with status 1.
  pub poll_dispatch : Option (ℕ × W) → Outcome W
  unfolding serve_slots
  poll_dispatch none = fault (exited 1)
  poll_dispatch (some (ready, w)) =
      if ready == 0 then ok w else serve_slots init_poll_size 0 ready w

pub poll_clear : PollData → Option PollData
poll_clear s = none
