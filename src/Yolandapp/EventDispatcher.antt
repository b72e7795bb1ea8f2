-- ===== src/Yolandapp/EventDispatcher.antt =====
-- yolandapp/event_dispatcher.cpp: the dispatcher of the port, which is always one over `epoll`. As in
-- the C library, the interest list is the kernel's.
use yolanda.Outcome.{Outcome, ok, fault, ◌>>=◌, exited}
use yolanda.Prelude.Int.{ℤ, eqb_ℤ, minus_one, pos}
use yolanda.Dispatcher.{Dispatcher}
use yolanda.Channel.{Channel, event_read, event_write}
use Prim.Native.Nat.{bit_and, bit_or}
use yolanda.Prelude.{
  ◌∷◌, ◌==◌, if◌then◌else◌, none, some, true, false, ℕ, List, Bool, not, [], ◌||◌,
}
use yolanda.Epoll.{
  EpollCtl, EpollEvent, epollin, epollout, epollerr, epollhup, ctl_add, ctl_del, ctl_mod,
}

pub record EventDispatcher (K : Type 0) : Type 0 where
  pub efd : ℤ
  pub kernel : K

-- `init`: `efd` is what `epoll_create1` returns.
pub dispatcher_init : {K : Type 0} → ℤ → K → Outcome (EventDispatcher K)
dispatcher_init efd k =
    if eqb_ℤ efd minus_one then fault (exited 1) else ok (record { efd = efd; kernel = k })

unfoldable pub event_mask : ℕ → ℕ
event_mask events =
    let readable = if bit_and events event_read == 0 then 0 else epollin in
    if bit_and events event_write == 0 then readable else bit_or readable epollout

module _ {K : Type 0} (ctl : EpollCtl K) where
  unfoldable pub dispatcher_add : Channel → EventDispatcher K → Outcome (EventDispatcher K)
  dispatcher_add c s = elim (ctl ctl_add c.fd (event_mask c.events) s.kernel) [
    | none ↦ fault (exited 1)
    | some k ↦ ok (record s { kernel = k })
  ]

  unfoldable pub dispatcher_del : Channel → EventDispatcher K → Outcome (ℤ × EventDispatcher K)
  dispatcher_del c s = elim (ctl ctl_del c.fd (event_mask c.events) s.kernel) [
    | none ↦ fault (exited 1)
    | some k ↦ ok (pos 0, record s { kernel = k })
  ]

  unfoldable pub dispatcher_update : Channel → EventDispatcher K → Outcome (EventDispatcher K)
  dispatcher_update c s = elim (ctl ctl_mod c.fd (event_mask c.events) s.kernel) [
    | none ↦ fault (exited 1)
    | some k ↦ ok (record s { kernel = k })
  ]

  abbrev pub event_dispatcher : Dispatcher (EventDispatcher K)
  event_dispatcher = record {
    add = dispatcher_add;
    del = dispatcher_del;
    update = dispatcher_update;
  }

-- `dispatch`: `activate` is the loop's `channel_event_activate`, whose result is dropped, and
-- `close_fd` is `close`.
module _ {W : Type 0} (activate : W → ℤ → ℕ → Outcome (ℤ × W)) (close_fd : ℤ → W → W) where
  activate_when : Bool → W → ℤ → ℕ → Outcome W
  activate_when false w fd event = ok w
  activate_when true w fd event = do (result, w') ← activate w fd event; ok w'

  dispatch_event : W → EpollEvent → Outcome W
  unfolding activate_when
  dispatch_event w e =
      if not (bit_and e.events epollerr == 0) || not (bit_and e.events epollhup == 0)
      then ok (close_fd e.fd w)
      else do
        w₁ ← activate_when (not (bit_and e.events epollin == 0)) w e.fd event_read
        activate_when (not (bit_and e.events epollout == 0)) w₁ e.fd event_write

  -- The list is what `epoll_wait` reports; it is empty if `epoll_wait` fails.
  pub dispatch : List EpollEvent → W → Outcome W
  unfolding dispatch_event
  dispatch [] w = ok w
  dispatch (e ∷ es) w = do w' ← dispatch_event w e; dispatch es w'

-- `clear`
pub dispatcher_clear : {K W : Type 0} → (ℤ → W → W) → EventDispatcher K → W → W
dispatcher_clear close_fd s w = close_fd s.efd w
