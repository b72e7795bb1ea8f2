-- ===== src/Yolandapp/Channel.antt =====
-- yolandapp/channel.hpp and yolandapp/channel.cpp: the channel has the fields of `struct channel`, and
-- its methods update the loop that `data` is taken for.
use yolanda.Outcome.{Outcome, ◌>>◌, ◌>>=◌, ok}
use Prim.Native.Nat.{bit_and, bit_or}
use yolanda.Prelude.{ℕ}
use yolanda.Channel.{Channel, as_event_loop, event_write, not_event_write}

unfoldable pub write_event_is_enabled : Channel → ℕ
write_event_is_enabled c = bit_and c.events event_write

-- `update` stands for `update_channel_event` of the loop.
module _ {S : Type 0} (update : Channel → S → Outcome S) where
  unfoldable pub write_event_enable : Channel → S → Outcome (Channel × S)
  write_event_enable c s = do
    let c' = record c { events = bit_or c.events event_write }
    as_event_loop c.target
    s' ← update c' s
    ok (c', s')

  unfoldable pub write_event_disable : Channel → S → Outcome (Channel × S)
  write_event_disable c s = do
    let c' = record c { events = bit_and c.events not_event_write }
    as_event_loop c.target
    s' ← update c' s
    ok (c', s')
