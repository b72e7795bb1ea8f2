-- ===== src/Channel.antt =====
-- lib/channel.h and lib/channel.c: a file descriptor, the events that it waits for, and what its
-- callbacks are handed. A callback is named by what it is; the code that runs for it is in the
-- modules of the parts that declare it.
pub mod Events
use Prim.Native.Nat.{bit_and, bit_or}
use yolanda.Prelude.Int.{ℤ}
use yolanda.Prelude.{ℕ, Option, ◌^◌, ◌-◌}
use yolanda.Outcome.{Outcome, ok, fault, bad_cast, ◌>>◌, ◌>>=◌}

-- What the `void *data` of a channel points to: an event loop, the server, or the connection whose
-- descriptor this is.
pub data Target : Type 0 where
  loop server : Target
  connection : ℕ → Target

-- The functions that the library passes to `channel_new`.
pub data Callback : Type 0 where
  handle_wakeup handle_connection_established handle_read handle_write : Callback

pub record Channel : Type 0 where
  pub fd : ℤ
  pub events : ℕ
  pub read_callback : Option Callback
  pub write_callback : Option Callback
  pub target : Target

abbrev pub event_timeout : ℕ
event_timeout = 1

abbrev pub event_read : ℕ
event_read = 2

abbrev pub event_write : ℕ
event_write = 4

abbrev pub event_signal : ℕ
event_signal = 8

-- `~EVENT_WRITE` as the bit pattern of a 32-bit `int`
abbrev pub not_event_write : ℕ
not_event_write = 2 ^ 32 - 1 - 4

unfoldable pub channel_new : ℤ → ℕ → Option Callback → Option Callback → Target → Channel
channel_new fd events read write target = record {
  fd = fd;
  events = events;
  read_callback = read;
  write_callback = write;
  target = target;
}

unfoldable pub channel_write_event_is_enabled : Channel → ℕ
channel_write_event_is_enabled c = bit_and c.events event_write

-- `(struct event_loop *) channel->data`
unfoldable pub as_event_loop : Target → Outcome (Unit {0})
as_event_loop loop = ok tt
as_event_loop server = fault bad_cast
as_event_loop (connection n) = fault bad_cast

-- `update` stands for `event_loop_update_channel_event` on the loop that `data` is taken for. It is
-- handed the changed channel, and goes on with the state of the loop.
module _ {S : Type 0} (update : Channel → S → Outcome S) where
  unfoldable pub channel_write_event_enable : Channel → S → Outcome (Channel × S)
  unfolding as_event_loop
  channel_write_event_enable c s = do
    let c' = record c { events = bit_or c.events event_write }
    as_event_loop c.target
    s' ← update c' s
    ok (c', s')

  unfoldable pub channel_write_event_disable : Channel → S → Outcome (Channel × S)
  unfolding as_event_loop
  channel_write_event_disable c s = do
    let c' = record c { events = bit_and c.events not_event_write }
    as_event_loop c.target
    s' ← update c' s
    ok (c', s')
