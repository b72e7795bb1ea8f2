-- ===== src/Yolandapp/EventLoop.antt =====
-- yolandapp/event_loop.hpp and yolandapp/event_loop.cpp: the loop of the port, with a map from
-- descriptors to channels. The mutex is held for each of the functions that takes it.
use Prim.Native.Nat.{bit_and}
pub mod Port
pub mod Sameness
use yolanda.Prelude.Int.{ℤ, eqb_ℤ, is_neg, pos, minus_one}
use yolanda.Outcome.{Outcome, fault, ok, ◌>>=◌, ◌>>◌, assert, exited}
use yolanda.Dispatcher.{Dispatcher}
use yolanda.Channel.{Callback, Channel, Target, channel_new, event_read, event_write}
use yolanda.Prelude.{
  ◌+◌, ◌-◌, ◌∷◌, ◌++◌, ◌==◌, if◌then◌else◌, none, some, true, false, ℕ, List, Option, Bool, zero,
  suc, not, [],
}
use yolanda.EventLoop.{Element, kind_add, kind_remove, kind_update}

-- `std::map<int, channel *>`, by what it holds for a key.
abbrev pub KeyedMap : Type 0
KeyedMap = ℤ → Option ℕ

-- `map[fd] = channel` and `map.erase(fd)`
abbrev pub set_key : KeyedMap → ℤ → Option ℕ → KeyedMap
set_key map fd e other = if eqb_ℤ other fd then e else map other

-- `struct event_loop`; `channels` is the store of the channels, and `wakeups` counts the bytes that
-- wait in the loop's socket pair.
pub record PortLoop (D : Type 0) : Type 0 where
  pub quit : Bool
  pub dispatcher : D
  pub channel_map : KeyedMap
  pub is_handle_pending : Bool
  pub pending : List Element
  pub owner_thread : ℕ
  pub wakeups : ℕ
  pub channels : ℕ → Channel

module _ {D : Type 0} (d : Dispatcher D) where
  unfoldable pub handle_pending_add : PortLoop D → ℤ → ℕ → Outcome (ℤ × PortLoop D)
  handle_pending_add l fd p = if is_neg fd then ok (pos 0, l) else elim (l.channel_map fd) [
    | some other ↦ ok (pos 0, l)
    | none ↦ do
      dispatcher' ← d.add (l.channels p) l.dispatcher
      ok (
        pos 1,
        record l { channel_map = set_key l.channel_map fd (some p); dispatcher = dispatcher' },
      )
  ]

  -- The channel that is deleted is the one in the map.
  unfoldable pub handle_pending_remove : PortLoop D → ℤ → ℕ → Outcome (ℤ × PortLoop D)
  handle_pending_remove l fd p = do
    assert (eqb_ℤ fd (l.channels p).fd)
    if is_neg fd then ok (pos 0, l) else elim (l.channel_map fd) [
      | none ↦ ok (minus_one, l)
      | some q ↦ do
        (result, dispatcher') ← d.del (l.channels q) l.dispatcher
        ok (
          if eqb_ℤ result minus_one then minus_one else pos 1,
          record l { channel_map = set_key l.channel_map fd none; dispatcher = dispatcher' },
        )
    ]

  unfoldable pub handle_pending_update : PortLoop D → ℤ → ℕ → Outcome (ℤ × PortLoop D)
  handle_pending_update l fd p = if is_neg fd then ok (pos 0, l) else elim (l.channel_map fd) [
    | none ↦ ok (minus_one, l)
    | some other ↦ do
      dispatcher' ← d.update (l.channels p) l.dispatcher
      ok (pos 0, record l { dispatcher = dispatcher' })
  ]

  -- One round of the loop in `handle_pending_channel`. Results are dropped.
  unfoldable pub handle_one : PortLoop D → Element → Outcome (PortLoop D)
  handle_one l e =
      let fd = (l.channels e.channel).fd in
      if e.kind == kind_add
      then (do (result, l') ← handle_pending_add l fd e.channel; ok l')
      else if e.kind == kind_remove
      then (do (result, l') ← handle_pending_remove l fd e.channel; ok l')
      else if e.kind == kind_update
      then (do (result, l') ← handle_pending_update l fd e.channel; ok l')
      else ok l

  unfoldable pub handle_all : PortLoop D → List Element → Outcome (PortLoop D)
  handle_all l [] = ok l
  handle_all l (e ∷ es) = do l' ← handle_one l e; handle_all l' es

  unfoldable pub handle_pending_channel : PortLoop D → Outcome (PortLoop D)
  handle_pending_channel l = do
    l' ← handle_all (record l { is_handle_pending = true }) l.pending
    ok (record l' { pending = []; is_handle_pending = false })

  unfoldable pub channel_buffer_nolock : PortLoop D → ℕ → ℕ → PortLoop D
  channel_buffer_nolock l p kind = record l {
    pending = l.pending ++ record { kind = kind; channel = p } ∷ [];
  }

  -- `sent` says whether the socket pair takes the byte; a failure is logged.
  unfoldable pub wakeup : Bool → PortLoop D → PortLoop D
  wakeup sent l = record l { wakeups = if sent then l.wakeups + 1 else l.wakeups }

  -- `handleWakeup`: an empty pair is left alone.
  pub take_wakeup : PortLoop D → PortLoop D
  take_wakeup l = record l { wakeups = l.wakeups - 1 }

  -- `self` is the thread that makes the call.
  unfoldable pub do_channel_event : ℕ → Bool → PortLoop D → ℕ → ℕ → Outcome (PortLoop D)
  do_channel_event self sent l p kind = do
    assert (not l.is_handle_pending)
    let l' = channel_buffer_nolock l p kind
    if l'.owner_thread == self then handle_pending_channel l' else ok (wakeup sent l')

  pub add_channel_event : ℕ → Bool → PortLoop D → ℕ → Outcome (PortLoop D)
  add_channel_event self sent l p = do_channel_event self sent l p kind_add

  pub remove_channel_event : ℕ → Bool → PortLoop D → ℕ → Outcome (PortLoop D)
  remove_channel_event self sent l p = do_channel_event self sent l p kind_remove

  pub update_channel_event : ℕ → Bool → PortLoop D → ℕ → Outcome (PortLoop D)
  update_channel_event self sent l p = do_channel_event self sent l p kind_update

  -- The constructor: the socket pair has the descriptor `wakeup_fd` to read from, and its channel
  -- stands at the address `p` of the store.
  pub event_loop_new : ℕ → Bool → D → ℤ → ℕ → (ℕ → Channel) → Outcome (PortLoop D)
  event_loop_new self sent dispatcher wakeup_fd p channels = add_channel_event self sent fresh p
    where
      fresh : PortLoop D
      fresh = record {
        quit = false;
        dispatcher = dispatcher;
        channel_map = λ fd. none;
        is_handle_pending = false;
        pending = [];
        owner_thread = self;
        wakeups = 0;
        channels = λ q.
            if q == p
            then channel_new wakeup_fd event_read (some Callback.handle_wakeup) none Target.loop
            else channels q;
      }

-- Event dispatch, over a world that holds the loop: `call` runs a callback with its `data`.
module _ {D W : Type 0} (loop_of : W → PortLoop D) (call : Callback → Target → W → Outcome W) where
  run_if : Bool → Option Callback → Target → W → Outcome W
  run_if false callback target w = ok w
  run_if true none target w = ok w
  run_if true (some callback) target w = call callback target w

  unfoldable pub channel_event_activate : W → ℤ → ℕ → Outcome (ℤ × W)
  unfolding run_if
  channel_event_activate w fd revents =
      if is_neg fd then ok (pos 0, w) else elim ((loop_of w).channel_map fd) [
        | none ↦ ok (minus_one, w)
        | some p ↦ do
          let c = (loop_of w).channels p
          assert (eqb_ℤ fd c.fd)
          w₁ ← run_if (not (bit_and revents event_read == 0)) c.read_callback c.target w
          let c₁ = (loop_of w₁).channels p
          w₂ ← run_if (not (bit_and revents event_write == 0)) c₁.write_callback c₁.target w₁
          ok (pos 0, w₂)
      ]

-- `run`: each round waits for events and runs their callbacks, and then handles what is pending. The
-- rounds are fuel, for the loop ends with `quit` alone.
module _ {D W : Type 0} (loop_of : W → PortLoop D) (dispatch handle_pending : W → Outcome W) where
  rounds : ℕ → W → Outcome W
  rounds zero w = ok w
  rounds (suc n) w = elim (loop_of w).quit [
    | true ↦ ok w
    | false ↦ do w₁ ← dispatch w; w₂ ← handle_pending w₁; rounds n w₂
  ]

  pub run : ℕ → ℕ → W → Outcome W
  unfolding rounds
  run self n w = if (loop_of w).owner_thread == self then rounds n w else fault (exited 1)
