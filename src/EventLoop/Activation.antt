-- ===== src/EventLoop/Activation.antt =====
-- Events of a channel that its own callback has removed.
use Prim.Native.Nat.{bit_and}
use yolanda.Prelude.Int.{pos, ℤ}
use yolanda.Poll.{serve_slot, activate_if, PollData, PollFd, pollrdnorm, pollwrnorm}
use yolanda.Outcome.{Outcome, ok, fault, null_pointer}
use yolanda.Channel.{Callback, Target, event_read, event_write}
use yolanda.EventLoop.{EventLoop, channel_event_activate, activate_at, entry}
use yolanda.Prelude.{◌<◌, ◌≡◌, ◌≢◌, none, ℕ, arith}

module _ {D W : Type 0} (loop_of : W → EventLoop D) (call : Callback → Target → W → Outcome W) where
  activate_removed :
      (w : W) (fd revents : ℕ)
      → entry (loop_of w).map fd ≡ ok none
      → fd < (loop_of w).map.nentries
      → channel_event_activate loop_of call w (pos fd) revents ≡ fault null_pointer
  unfolding channel_event_activate activate_at
  activate_removed w fd revents e h = ground (arith, e)

  -- When `poll` reports a descriptor for reading and for writing, and the read callback leaves its
  -- entry in the table empty, the write event of the same round reads through the null entry.
  pub serve_slot_removed :
      (table : W → PollData) (w w₁ : W) (s : PollFd) (fd : ℕ) (result : ℤ)
      → s.fd ≡ pos fd
      → bit_and s.revents pollrdnorm ≢ 0
      → bit_and s.revents pollwrnorm ≢ 0
      → channel_event_activate loop_of call w (pos fd) event_read ≡ ok (result, w₁)
      → entry (loop_of w₁).map fd ≡ ok none
      → fd < (loop_of w₁).map.nentries
      → serve_slot table (channel_event_activate loop_of call) w s ≡ fault null_pointer
  unfolding serve_slot activate_if
  serve_slot_removed table w w₁ s fd result i r x a e h =
      ground (arith, i, a, activate_removed w₁ fd event_write e h)
