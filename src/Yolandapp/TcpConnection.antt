-- ===== src/Yolandapp/TcpConnection.antt =====
-- yolandapp/tcp_connection.hpp and yolandapp/tcp_connection.cpp: the connection of the port. The loop
-- is the interface that the connection of the library has, and what the kernel answers is an argument.
pub mod Sending
use yolanda.Prelude.Int.{ℤ, leb_ℤ, pos}
use yolanda.Outcome.{Outcome, ok, ◌>>=◌, fault, to_int, exited, out_of_bounds}
use yolanda.Memory.{Bytes}
use yolanda.Channel.{Channel, channel_new, event_read, Callback, connection}
use yolanda.Prelude.{
  ◌+◌, ◌&&◌, ◌==◌, if◌then◌else◌, none, some, true, false, ℕ, Option, Bool, zero, suc, length, leb,
  take, ◌||◌, drop,
}
use yolanda.TcpConnection.{
  LoopOps, Errno, WriteResult, wrote, failed, ewouldblock, epipe, econnreset, other_error,
}
use yolanda.Yolandapp.Buffer.{StringBuffer, append_data, readable, socket_read, as_int, sub_size}
use yolanda.Yolandapp.Channel.{write_event_is_enabled, write_event_enable, write_event_disable}

-- `struct tcp_connection`; `app` stands for `data`, `request` and `response`. Of the name
-- `connection-%d` the number is kept.
pub record PortConnection (R : Type 0) : Type 0 where
  pub channel : Channel
  pub name : ℤ
  pub input_buffer : StringBuffer
  pub output_buffer : StringBuffer
  pub app : R

abbrev pub PortAction : Type 0 → Type 0 → Type 0
PortAction R S = PortConnection R → S → Outcome (PortConnection R × S)

-- A callback that is NULL is `none`.
pub record PortCallbacks (R S : Type 0) : Type 0 where
  pub connection_completed : Option (PortAction R S)
  pub message : Option (PortAction R S)
  pub write_completed : Option (PortAction R S)
  pub connection_closed : Option (PortAction R S)

unfoldable pub run_callback : {R S : Type 0} → Option (PortAction R S) → PortAction R S
run_callback none c s = ok (c, s)
run_callback (some f) c s = f c s

-- The bytes at `data + nwrited`, `nleft` of them, where `data` points at `offset` in `block`.
unfoldable pub bytes_at : Bytes → ℕ → ℕ → ℕ → Outcome Bytes
bytes_at block offset nwrited nleft =
    if leb (offset + nwrited + nleft) (length block)
    then ok (take nleft (drop (offset + nwrited) block))
    else fault out_of_bounds

-- The first write: `nwrited`, `nleft` and `fault` after it.
pub record Attempt : Type 0 where
  pub nwrited : ℕ
  pub nleft : ℕ
  pub broken : Bool

unfoldable pub after_write : ℕ → WriteResult → Attempt
after_write size (wrote n) = record { nwrited = n; nleft = sub_size size n; broken = false }
after_write size (failed ewouldblock) = record { nwrited = 0; nleft = size; broken = false }
after_write size (failed epipe) = record { nwrited = 0; nleft = size; broken = true }
after_write size (failed econnreset) = record { nwrited = 0; nleft = size; broken = true }
after_write size (failed other_error) = record { nwrited = 0; nleft = size; broken = false }

module _ {R S : Type 0} (ops : LoopOps S) (callbacks : PortCallbacks R S) (max_size : ℕ) where
  open ops use {add_channel, remove_channel, update_channel, shutdown_write, hand_over}
  open callbacks use {connection_completed, message, write_completed, connection_closed}

  pub handle_connection_closed : PortAction R S
  unfolding run_callback
  handle_connection_closed c s = do
    s' ← remove_channel c.channel s
    run_callback connection_closed c s'

  pub handle_read : Option Bytes → PortAction R S
  unfolding run_callback handle_connection_closed
  handle_read received c s = do
    (result, input) ← socket_read max_size c.input_buffer received
    let c' = record c { input_buffer = input }
    if leb_ℤ result (pos 0) then handle_connection_closed c' s else run_callback message c' s

  -- After a `write` that took n > 0 bytes.
  port_written : ℕ → PortAction R S
  unfolding run_callback
  port_written n c s = do
    let out = record c.output_buffer { read_index = c.output_buffer.read_index + n }
    let c₁ = record c { output_buffer = out }
    (channel', s') ← elim (readable out == 0) [
      | true ↦ write_event_disable update_channel c.channel s
      | false ↦ ok (c.channel, s)
    ]
    run_callback write_completed (record c₁ { channel = channel' }) s'

  -- `same` says whether the loop's own thread makes the call; `write` is the kernel's answer.
  pub handle_write : Bool → (Bytes → WriteResult) → PortAction R S
  unfolding port_written
  handle_write false write c s = fault (exited 255)
  handle_write true write c s = do
    bytes ← bytes_at c.output_buffer.chars c.output_buffer.read_index 0 (readable c.output_buffer)
    let s' = hand_over c.channel.fd bytes s
    elim (write bytes) [
      | failed e ↦ ok (c, s')
      | wrote zero ↦ ok (c, s')
      | wrote (suc k) ↦ port_written (suc k) c s'
    ]

  -- The constructor, on two new buffers; `app` is what the other fields hold.
  unfoldable pub tcp_connection :
      ℤ → ℕ → R → StringBuffer → StringBuffer → S → Outcome (PortConnection R × S)
  unfolding run_callback
  tcp_connection fd self app input output s = do
    (c, s') ← run_callback connection_completed fresh s
    s'' ← add_channel c.channel s'
    ok (c, s'')
    where
      fresh : PortConnection R
      fresh = record {
        channel =
            channel_new fd event_read (some Callback.handle_read) (some Callback.handle_write)
              (connection self);
        name = fd;
        input_buffer = input;
        output_buffer = output;
        app = app;
      }

  -- The write is tried only if nothing waits.
  unfoldable pub attempt :
      (Bytes → WriteResult) → Bytes → ℕ → ℕ → PortConnection R → S → Outcome (Attempt × S)
  attempt write block offset size c s =
      if write_event_is_enabled c.channel == 0 && readable c.output_buffer == 0
      then (do
        bytes ← bytes_at block offset 0 size
        ok (after_write size (write bytes), hand_over c.channel.fd bytes s))
      else ok (record { nwrited = 0; nleft = size; broken = false }, s)

  -- What is left goes to the output buffer, and the write event is enabled. A size that no `int` can
  -- hold, which the source turns into another one, is a fault here.
  unfoldable pub keep_rest : Bytes → ℕ → Attempt → PortAction R S
  keep_rest block offset t c s = do
    size ← to_int t.nleft
    rest ← bytes_at block offset t.nwrited size
    out ← append_data max_size c.output_buffer (some rest)
    let c' = record c { output_buffer = out }
    elim (write_event_is_enabled c.channel == 0) [
      | true ↦ do
        (channel', s') ← write_event_enable update_channel c.channel s
        ok (record c' { channel = channel' }, s')
      | false ↦ ok (c', s)
    ]

  -- `data` points at `offset` in `block`. The result is `nwrited` as an `int`.
  unfoldable pub send_data :
      (Bytes → WriteResult)
      → Bytes
      → ℕ
      → ℕ
      → PortConnection R
      → S
      → Outcome (ℤ × PortConnection R × S)
  send_data write block offset size c s = do
    (t, s₁) ← attempt write block offset size c s
    (c', s') ← elim (t.broken || t.nleft == 0) [
      | true ↦ ok (c, s₁)
      | false ↦ keep_rest block offset t c s₁
    ]
    ok (as_int t.nwrited, c', s')

  unfoldable pub send_buffer :
      (Bytes → WriteResult)
      → StringBuffer
      → PortConnection R
      → S
      → Outcome (ℤ × StringBuffer × PortConnection R × S)
  send_buffer write buffer c s = do
    (result, c', s') ← send_data write buffer.chars buffer.read_index (readable buffer) c s
    ok (result, record buffer { read_index = buffer.read_index + readable buffer }, c', s')

  unfoldable pub shutdown : PortConnection R → S → S
  shutdown c s = shutdown_write c.channel.fd s
