-- ===== src/EventLoop.antt =====
-- lib/event_loop.h, lib/event_loop.c and lib/utils.c: the loop that owns a table of channels, and
-- the list of changes that wait for it. A channel is named by the address of its struct.
pub mod Registry
pub mod Pending
pub mod Activation
mod Tests
use Prim.Native.Nat.{bit_and}
use yolanda.Prelude.Int.{ℤ, eqb_ℤ, minus_one, negsuc, pos}
use yolanda.Dispatcher.{Dispatcher}
use yolanda.Channel.{Channel, Callback, Target, channel_new, event_read, event_write}
use yolanda.Outcome.{Outcome, fault, ok, exited, out_of_bounds, ◌>>=◌, ◌>>◌, assert, deref}
use yolanda.ChannelMap.{ChannelMap, map_make_space, map_init}
use yolanda.Prelude.{
  ◌==◌, if◌then◌else◌, none, some, ℕ, List, Option, Bool, get_elem?, set, ◌+◌, ◌-◌, ◌∷◌, ◌++◌, true,
  false, zero, suc, not, leb, [],
}

-- `struct channel_element`; `next` is the order of the list.
pub record Element : Type 0 where
  pub kind : ℕ
  pub channel : ℕ

abbrev pub kind_add : ℕ
kind_add = 1

abbrev pub kind_remove : ℕ
kind_remove = 2

abbrev pub kind_update : ℕ
kind_update = 3

-- `channels` is the store of the channel structs. `wakeups` counts the bytes that wait in the
-- loop's socket pair. The mutex is held for each of the functions below that takes it, so it has
-- no field: a run of several threads is a sequence of these functions.
pub record EventLoop (D : Type 0) : Type 0 where
  pub quit : Bool
  pub dispatcher : D
  pub map : ChannelMap ℕ
  pub is_handle_pending : Bool
  pub pending : List Element
  pub owner_thread : ℕ
  pub wakeups : ℕ
  pub channels : ℕ → Channel

-- `map->entries[fd]`
abbrev pub entry : ChannelMap ℕ → ℕ → Outcome (Option ℕ)
entry map fd = elim (get_elem? map.entries fd) [ none ↦ fault out_of_bounds | some e ↦ ok e ]

abbrev pub set_entry : ChannelMap ℕ → ℕ → Option ℕ → ChannelMap ℕ
set_entry map fd e = record map { entries = set map.entries fd e }

-- `isInSameThread`: `self` is the thread that makes the call.
unfoldable pub is_in_same_thread : {D : Type 0} → ℕ → EventLoop D → Bool
is_in_same_thread self l = l.owner_thread == self

-- `assertInSameThread` ends the process with status -1, which is 255 to the parent.
pub assert_in_same_thread : {D : Type 0} → ℕ → EventLoop D → Outcome (Unit {0})
assert_in_same_thread self l = if l.owner_thread == self then ok tt else fault (exited 255)

-- `entries[fd]` with the table grown first where it is too short; `none` if it could not grow.
unfoldable pub reach : (ℕ → Bool) → ChannelMap ℕ → ℕ → Outcome (Option (ChannelMap ℕ))
reach room map fd =
    if leb map.nentries fd
    then (do
      (result, map') ← map_make_space room map fd 8
      ok (if eqb_ℤ result minus_one then none else some map'))
    else ok (some map)

-- The loop's own functions, over its dispatcher and over what `realloc` answers.
module _ {D : Type 0} (d : Dispatcher D) (room : ℕ → Bool) where
  -- The first channel of a descriptor is entered and added; a second one changes nothing.
  unfoldable pub add_first :
      EventLoop D → ℕ → ℕ → ChannelMap ℕ → Option ℕ → Outcome (ℤ × EventLoop D)
  add_first l fd p map (some other) = ok (pos 0, record l { map = map })
  add_first l fd p map none = do
    dispatcher' ← d.add (l.channels p) l.dispatcher
    ok (pos 1, record l { map = set_entry map fd (some p); dispatcher = dispatcher' })

  unfoldable pub handle_add_at : EventLoop D → ℤ → ℕ → Outcome (ℤ × EventLoop D)
  unfolding add_first reach
  handle_add_at l (negsuc n) p = ok (pos 0, l)
  handle_add_at l (pos fd) p = do
    reached ← reach room l.map fd
    elim reached [
      | none ↦ ok (minus_one, l)
      | some map ↦ entry map fd >>= λ e. add_first l fd p map e
    ]

  unfoldable pub event_loop_handle_pending_add : EventLoop D → ℕ → Outcome (ℤ × EventLoop D)
  unfolding handle_add_at
  event_loop_handle_pending_add l p = handle_add_at l (l.channels p).fd p

  -- `del` is handed the entry as it is, and reads through it.
  unfoldable pub handle_remove_at : EventLoop D → ℤ → Outcome (ℤ × EventLoop D)
  handle_remove_at l (negsuc n) = ok (pos 0, l)
  handle_remove_at l (pos fd) = if leb l.map.nentries fd then ok (minus_one, l) else do
    e ← entry l.map fd
    p ← deref e
    (result, dispatcher') ← d.del (l.channels p) l.dispatcher
    ok (
      if eqb_ℤ result minus_one then minus_one else pos 1,
      record l { map = set_entry l.map fd none; dispatcher = dispatcher' },
    )

  unfoldable pub event_loop_handle_pending_remove : EventLoop D → ℕ → Outcome (ℤ × EventLoop D)
  unfolding handle_remove_at
  event_loop_handle_pending_remove l p = handle_remove_at l (l.channels p).fd

  unfoldable pub update_known : EventLoop D → ℕ → Option ℕ → Outcome (EventLoop D)
  update_known l p none = ok l
  update_known l p (some other) = do
    dispatcher' ← d.update (l.channels p) l.dispatcher
    ok (record l { dispatcher = dispatcher' })

  -- There is no test of `fd` against the length of the table. Past the dispatcher's `update` the
  -- source returns no value, so the model returns none at all.
  unfoldable pub handle_update_at : EventLoop D → ℤ → ℕ → Outcome (EventLoop D)
  unfolding update_known
  handle_update_at l (negsuc n) p = ok l
  handle_update_at l (pos fd) p = do e ← entry l.map fd; update_known l p e

  unfoldable pub event_loop_handle_pending_update : EventLoop D → ℕ → Outcome (EventLoop D)
  unfolding handle_update_at
  event_loop_handle_pending_update l p = handle_update_at l (l.channels p).fd p

  -- One round of the loop over the pending list. Results are dropped.
  unfoldable pub handle_element : EventLoop D → Element → Outcome (EventLoop D)
  handle_element l e =
      if e.kind == kind_add
      then (do (result, l') ← event_loop_handle_pending_add l e.channel; ok l')
      else if e.kind == kind_remove
      then (do (result, l') ← event_loop_handle_pending_remove l e.channel; ok l')
      else if e.kind == kind_update
      then event_loop_handle_pending_update l e.channel
      else ok l

  unfoldable pub handle_elements : EventLoop D → List Element → Outcome (EventLoop D)
  handle_elements l [] = ok l
  handle_elements l (e ∷ es) = do l' ← handle_element l e; handle_elements l' es

  unfoldable pub event_loop_handle_pending_channel : EventLoop D → Outcome (EventLoop D)
  unfolding handle_elements
  event_loop_handle_pending_channel l = do
    l' ← handle_elements (record l { is_handle_pending = true }) l.pending
    ok (record l' { pending = []; is_handle_pending = false })

  unfoldable pub event_loop_channel_buffer_nolock : EventLoop D → ℕ → ℕ → EventLoop D
  event_loop_channel_buffer_nolock l p kind = record l {
    pending = l.pending ++ record { kind = kind; channel = p } ∷ [];
  }

  -- `sent` says whether the socket pair takes the byte; a failure is logged.
  unfoldable pub event_loop_wakeup : Bool → EventLoop D → EventLoop D
  event_loop_wakeup sent l = record l { wakeups = if sent then l.wakeups + 1 else l.wakeups }

  -- The read side: one byte is taken out if there is one. An empty pair, which blocks a blocking
  -- socket, is left alone.
  pub handle_wakeup : EventLoop D → EventLoop D
  handle_wakeup l = record l { wakeups = l.wakeups - 1 }

  unfoldable pub event_loop_do_channel_event :
      ℕ → Bool → EventLoop D → ℕ → ℕ → Outcome (EventLoop D)
  unfolding event_loop_channel_buffer_nolock event_loop_wakeup is_in_same_thread
  event_loop_do_channel_event self sent l p kind = do
    assert (not l.is_handle_pending)
    let l' = event_loop_channel_buffer_nolock l p kind
    if is_in_same_thread self l'
        then event_loop_handle_pending_channel l'
        else ok (event_loop_wakeup sent l')

  pub event_loop_add_channel_event : ℕ → Bool → EventLoop D → ℕ → Outcome (EventLoop D)
  event_loop_add_channel_event self sent l p = event_loop_do_channel_event self sent l p kind_add

  pub event_loop_remove_channel_event : ℕ → Bool → EventLoop D → ℕ → Outcome (EventLoop D)
  event_loop_remove_channel_event self sent l p =
      event_loop_do_channel_event self sent l p kind_remove

  pub event_loop_update_channel_event : ℕ → Bool → EventLoop D → ℕ → Outcome (EventLoop D)
  event_loop_update_channel_event self sent l p =
      event_loop_do_channel_event self sent l p kind_update

-- Event dispatch, over a world that holds the loop: `call` runs a callback with its `data`.
module _ {D W : Type 0} (loop_of : W → EventLoop D) (call : Callback → Target → W → Outcome W) where
  call_if : Bool → Option Callback → Target → W → Outcome W
  call_if false callback target w = ok w
  call_if true none target w = ok w
  call_if true (some callback) target w = call callback target w

  activate_at : W → ℕ → ℕ → Outcome (ℤ × W)
  unfolding call_if
  activate_at w fd revents = if leb (loop_of w).map.nentries fd then ok (minus_one, w) else do
    e ← entry (loop_of w).map fd
    p ← deref e
    let c = (loop_of w).channels p
    assert (eqb_ℤ (pos fd) c.fd)
    w₁ ← call_if (not (bit_and revents event_read == 0)) c.read_callback c.target w
    let c₁ = (loop_of w₁).channels p
    w₂ ← call_if (not (bit_and revents event_write == 0)) c₁.write_callback c₁.target w₁
    ok (pos 0, w₂)

  pub channel_event_activate : W → ℤ → ℕ → Outcome (ℤ × W)
  unfolding activate_at
  channel_event_activate w (negsuc n) revents = ok (pos 0, w)
  channel_event_activate w (pos fd) revents = activate_at w fd revents

-- `event_loop_init_with_name`: the socket pair has the descriptor `wakeup_fd` to read from, and its
-- channel stands at the address `p` of the store.
module _ {D : Type 0} (d : Dispatcher D) (room : ℕ → Bool) where
  pub event_loop_init_with_name : ℕ → Bool → D → ℤ → ℕ → (ℕ → Channel) → Outcome (EventLoop D)
  event_loop_init_with_name self sent dispatcher wakeup_fd p channels =
      event_loop_add_channel_event d room self sent fresh p
    where
      fresh : EventLoop D
      fresh = record {
        quit = false;
        dispatcher = dispatcher;
        map = map_init;
        is_handle_pending = false;
        pending = [];
        owner_thread = self;
        wakeups = 0;
        channels = λ q.
            if q == p
            then channel_new wakeup_fd event_read (some Callback.handle_wakeup) none Target.loop
            else channels q;
      }

-- `event_loop_run`: each round waits for events and runs their callbacks, and then handles what is
-- pending. `dispatch` is the dispatcher's; the rounds are fuel, for the loop ends with `quit`
-- alone. A caller that is not the owner ends the process.
module _ {D W : Type 0} (loop_of : W → EventLoop D) (dispatch handle_pending : W → Outcome W) where
  run_rounds : ℕ → W → Outcome W
  run_rounds zero w = ok w
  run_rounds (suc rounds) w = elim (loop_of w).quit [
    | true ↦ ok w
    | false ↦ do w₁ ← dispatch w; w₂ ← handle_pending w₁; run_rounds rounds w₂
  ]

  pub event_loop_run : ℕ → ℕ → W → Outcome W
  unfolding run_rounds
  event_loop_run self rounds w =
      if (loop_of w).owner_thread == self then run_rounds rounds w else fault (exited 1)
