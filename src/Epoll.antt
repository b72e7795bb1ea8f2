-- ===== src/Epoll.antt =====
-- lib/epoll_dispatcher.c: the dispatcher over `epoll`. The interest list is the kernel's: `K` is its
-- state, and what `epoll_ctl` does to it is an interface.
pub mod Laws
mod Tests
use yolanda.Outcome.{Outcome, fault, ok, ◌>>=◌, exited}
use yolanda.Prelude.Int.{ℤ, eqb_ℤ, minus_one, pos}
use yolanda.Dispatcher.{Dispatcher}
use yolanda.Channel.{Channel, event_read, event_write}
use Prim.Native.Nat.{bit_and, bit_or}
use yolanda.Prelude.{
  ◌∷◌, ◌==◌, if◌then◌else◌, none, some, true, false, ℕ, List, Option, Bool, not, [], ◌||◌,
}

pub data Control : Type 0 where
  ctl_add ctl_del ctl_mod : Control

-- `epoll_ctl(efd, op, fd, &event)`: `none` is -1.
abbrev pub EpollCtl : Type 0 → Type 0
EpollCtl K = Control → ℤ → ℕ → K → Option K

abbrev pub epollin : ℕ
epollin = 1

abbrev pub epollout : ℕ
epollout = 4

abbrev pub epollerr : ℕ
epollerr = 8

abbrev pub epollhup : ℕ
epollhup = 16

abbrev pub max_events : ℕ
max_events = 128

-- `epoll_dispatcher_data`, of which the descriptor of the instance and the kernel's side of it
-- matter; the counters are set to zero and read nowhere.
pub record EpollData (K : Type 0) : Type 0 where
  pub efd : ℤ
  pub kernel : K

-- `epoll_create1`: a failure ends the process.
pub epoll_init : {K : Type 0} → ℤ → K → Outcome (EpollData K)
epoll_init efd k =
    if eqb_ℤ efd minus_one then fault (exited 1) else ok (record { efd = efd; kernel = k })

-- The event mask that `epoll_ctl` is given for a channel.
pub epoll_events : ℕ → ℕ
epoll_events events =
    let readable = if bit_and events event_read == 0 then 0 else epollin in
    if bit_and events event_write == 0 then readable else bit_or readable epollout

module _ {K : Type 0} (ctl : EpollCtl K) where
  -- A failure of `epoll_ctl` ends the process with status 1.
  control : Control → Channel → EpollData K → Outcome (EpollData K)
  unfolding epoll_events
  control op c s = elim (ctl op c.fd (epoll_events c.events) s.kernel) [
    | none ↦ fault (exited 1)
    | some k ↦ ok (record s { kernel = k })
  ]

  pub epoll_add : Channel → EpollData K → Outcome (EpollData K)
  unfolding control
  epoll_add c s = control ctl_add c s

  pub epoll_del : Channel → EpollData K → Outcome (ℤ × EpollData K)
  unfolding control
  epoll_del c s = do s' ← control ctl_del c s; ok (pos 0, s')

  pub epoll_update : Channel → EpollData K → Outcome (EpollData K)
  unfolding control
  epoll_update c s = control ctl_mod c s

  abbrev pub epoll_dispatcher : Dispatcher (EpollData K)
  epoll_dispatcher = record { add = epoll_add; del = epoll_del; update = epoll_update }

-- One `struct epoll_event` that `epoll_wait` reports.
pub record EpollEvent : Type 0 where
  pub fd : ℤ
  pub events : ℕ

-- `epoll_dispatch`: the events are a copy, so what the callbacks do to the interest list does not
-- change them. `activate` is `channel_event_activate`, `close_fd` is `close`.
module _ {W : Type 0} (activate : W → ℤ → ℕ → Outcome (ℤ × W)) (close_fd : ℤ → W → W) where
  activate_for : Bool → W → ℤ → ℕ → Outcome W
  activate_for false w fd event = ok w
  activate_for true w fd event = do (result, w') ← activate w fd event; ok w'

  serve_event : W → EpollEvent → Outcome W
  unfolding activate_for
  serve_event w e =
      if not (bit_and e.events epollerr == 0) || not (bit_and e.events epollhup == 0)
      then ok (close_fd e.fd w)
      else do
        w₁ ← activate_for (not (bit_and e.events epollin == 0)) w e.fd event_read
        activate_for (not (bit_and e.events epollout == 0)) w₁ e.fd event_write

  -- The list is what `epoll_wait` reports, at most `max_events`; it is empty if `epoll_wait` fails.
  pub epoll_dispatch : List EpollEvent → W → Outcome W
  unfolding serve_event
  epoll_dispatch [] w = ok w
  epoll_dispatch (e ∷ es) w = do w' ← serve_event w e; epoll_dispatch es w'

-- `epoll_clear` frees the array, closes the instance and frees the data.
pub epoll_clear : {K W : Type 0} → (ℤ → W → W) → EpollData K → W → W
epoll_clear close_fd s w = close_fd s.efd w
