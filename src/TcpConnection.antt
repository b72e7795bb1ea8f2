-- ===== src/TcpConnection.antt =====
-- lib/tcp_connection.h and lib/tcp_connection.c: a connection with its two buffers. What the kernel
-- answers to a call of `readv` or `write` is an argument; what the connection asks of its event
-- loop is an interface.
pub mod Sending
pub mod Draining
mod Tests
use yolanda.Prelude.Int.{ℤ, eqb_ℤ, minus_one, leb_ℤ, negsuc, pos}
use yolanda.Buffer.{Buffer, buffer_readable_size, buffer_socket_read, buffer_append}
use yolanda.Outcome.{Outcome, ok, fault, ◌>>=◌, exited, to_int, out_of_bounds}
use yolanda.Memory.{Bytes, Realloc}
use yolanda.Channel.{
  Channel, channel_write_event_is_enabled, channel_new, event_read, Callback,
  channel_write_event_disable, channel_write_event_enable, connection,
}
use yolanda.Prelude.{
  ◌+◌, ◌-◌, ◌%◌, ◌^◌, ◌&&◌, ◌==◌, if◌then◌else◌, none, some, true, false, ℕ, Option, Bool, zero,
  suc, length, leb, take, drop,
}

-- `event_loop_add_channel_event` and the like on the connection's loop, with the calling thread and
-- the loop inside `S`; `shutdown(fd, SHUT_WR)`, whose failure is logged; and what a `write` of these
-- bytes to a descriptor does to the kernel, whatever it answers, which is told apart below.
pub record LoopOps (S : Type 0) : Type 0 where
  pub add_channel : Channel → S → Outcome S
  pub remove_channel : Channel → S → Outcome S
  pub update_channel : Channel → S → Outcome S
  pub shutdown_write : ℤ → S → S
  pub hand_over : ℤ → Bytes → S → S

-- `struct tcp_connection`; `app` stands for its `data`, `request` and `response`. The four callbacks
-- are those of the server, below. Of the name `connection-%d` the number is kept.
pub record Connection (R : Type 0) : Type 0 where
  pub channel : Channel
  pub name : ℤ
  pub input_buffer : Buffer
  pub output_buffer : Buffer
  pub app : R

abbrev pub Action : Type 0 → Type 0 → Type 0
Action R S = Connection R → S → Outcome (Connection R × S)

-- A callback that is NULL is `none`. The message callback is handed the input buffer within its
-- connection.
pub record ConnectionCallbacks (R S : Type 0) : Type 0 where
  pub connection_completed : Option (Action R S)
  pub message : Option (Action R S)
  pub write_completed : Option (Action R S)
  pub connection_closed : Option (Action R S)

pub call_back : {R S : Type 0} → Option (Action R S) → Action R S
call_back none c s = ok (c, s)
call_back (some f) c s = f c s

-- `errno` after a failed `write`
pub data Errno : Type 0 where
  ewouldblock epipe econnreset other_error : Errno

-- What `write` comes to: the number of bytes taken, or -1 with `errno`.
pub data WriteResult : Type 0 where
  wrote : ℕ → WriteResult
  failed : Errno → WriteResult

-- The result as the `size_t` that it is assigned to.
abbrev pub as_size : WriteResult → ℕ
as_size (wrote n) = n
as_size (failed e) = 2 ^ 64 - 1

-- The bytes at `data + nwrited`, `nleft` of them, where `data` points at `offset` in `block`.
pub source_bytes : Bytes → ℕ → ℕ → ℕ → Outcome Bytes
source_bytes block offset nwrited nleft =
    let p = (offset + nwrited) % 2 ^ 64 in
    if leb (p + nleft) (length block) then ok (take nleft (drop p block)) else fault out_of_bounds

module _ {R S : Type 0} (ops : LoopOps S) (callbacks : ConnectionCallbacks R S)
    (realloc : Realloc) where
  open ops use {add_channel, remove_channel, update_channel, shutdown_write, hand_over}
  open callbacks use {connection_completed, message, write_completed, connection_closed}

  pub handle_connection_closed : Action R S
  unfolding call_back
  handle_connection_closed c s = do
    s' ← remove_channel c.channel s
    call_back connection_closed c s'

  pub handle_read : Option Bytes → Action R S
  unfolding call_back handle_connection_closed
  handle_read received c s = do
    (result, input) ← buffer_socket_read realloc c.input_buffer received
    let c' = record c { input_buffer = input }
    if leb_ℤ result (pos 0) then handle_connection_closed c' s else call_back message c' s

  -- After a `write` that took n > 0 bytes.
  handle_written : ℕ → Action R S
  unfolding call_back
  handle_written n c s = do
    let out = record c.output_buffer { read_index = c.output_buffer.read_index + n }
    let c₁ = record c { output_buffer = out }
    (channel', s') ← elim (eqb_ℤ (buffer_readable_size out) (pos 0)) [
      | true ↦ channel_write_event_disable update_channel c.channel s
      | false ↦ ok (c.channel, s)
    ]
    call_back write_completed (record c₁ { channel = channel' }) s'

  -- `same` says whether the loop's own thread makes the call; `write` is the kernel's answer to the
  -- readable bytes.
  pub handle_write : Bool → (Bytes → WriteResult) → Action R S
  unfolding handle_written
  handle_write false write c s = fault (exited 255)
  handle_write true write c s = elim (buffer_readable_size c.output_buffer) [
    | negsuc n ↦ fault out_of_bounds
    | pos n ↦ do
      bytes ← source_bytes c.output_buffer.bytes c.output_buffer.read_index 0 n
      let s' = hand_over c.channel.fd bytes s
      elim (write bytes) [
        | failed e ↦ ok (c, s')
        | wrote zero ↦ ok (c, s')
        | wrote (suc k) ↦ handle_written (suc k) c s'
      ]
  ]

  -- The two buffers are what `buffer_new` returns, `app` what the struct's other fields hold.
  pub tcp_connection_new : ℤ → ℕ → R → Buffer → Buffer → S → Outcome (Connection R × S)
  unfolding call_back
  tcp_connection_new fd self app input output s = do
    (c, s') ← call_back connection_completed fresh s
    s'' ← add_channel c.channel s'
    ok (c, s'')
    where
      fresh : Connection R
      fresh = record {
        channel =
            channel_new fd event_read (some Callback.handle_read) (some Callback.handle_write)
              (connection self);
        name = fd;
        input_buffer = input;
        output_buffer = output;
        app = app;
      }

  -- What is left after the attempt to write goes to the output buffer, and the write event is
  -- enabled. `nwrited` and `nleft` are `size_t`.
  queue_rest : Bytes → ℕ → ℕ → ℕ → Action R S
  queue_rest block offset nwrited nleft c s = do
    size ← to_int nleft
    rest ← source_bytes block offset nwrited size
    out ← buffer_append realloc c.output_buffer (some rest)
    let c' = record c { output_buffer = out }
    elim (channel_write_event_is_enabled c.channel == 0) [
      | true ↦ do
        (channel', s') ← channel_write_event_enable update_channel c.channel s
        ok (record c' { channel = channel' }, s')
      | false ↦ ok (c', s)
    ]

  -- The first write is tried only if nothing waits. `nwrited` is unsigned, so the test
  -- `nwrited >= 0` passes also when `write` failed, and the branch that looks at `errno` is dead.
  first_write : (Bytes → WriteResult) → Bytes → ℕ → ℕ → Connection R → S → Outcome (ℕ × S)
  first_write write block offset size c s =
      if channel_write_event_is_enabled c.channel == 0
        && eqb_ℤ (buffer_readable_size c.output_buffer) (pos 0)
      then source_bytes block offset 0 size
        >>= (λ bytes. ok (as_size (write bytes), hand_over c.channel.fd bytes s))
      else ok (0, s)

  -- `data` points at `offset` in `block`, and `size` bytes are to be sent. The result is `nwrited` as
  -- an `int`: a failed write returns -1.
  pub tcp_connection_send_data :
      (Bytes → WriteResult) → Bytes → ℕ → ℕ → Connection R → S → Outcome (ℤ × Connection R × S)
  unfolding first_write queue_rest
  tcp_connection_send_data write block offset size c s = do
    (nwrited, s₁) ← first_write write block offset size c s
    let nleft = (size + 2 ^ 64 - nwrited) % 2 ^ 64
    (c', s') ← elim (nleft == 0) [
      | true ↦ ok (c, s₁)
      | false ↦ queue_rest block offset nwrited nleft c s₁
    ]
    ok (if nwrited == 2 ^ 64 - 1 then minus_one else pos nwrited, c', s')

  unfoldable pub tcp_connection_send_buffer :
      (Bytes → WriteResult) → Buffer → Connection R → S → Outcome (ℤ × Buffer × Connection R × S)
  unfolding tcp_connection_send_data
  tcp_connection_send_buffer write buffer c s = elim (buffer_readable_size buffer) [
    | negsuc n ↦ fault out_of_bounds
    | pos size ↦ do
      (result, c', s') ← tcp_connection_send_data write buffer.bytes buffer.read_index size c s
      ok (result, record buffer { read_index = buffer.read_index + size }, c', s')
  ]

  unfoldable pub tcp_connection_shutdown : Connection R → S → S
  tcp_connection_shutdown c s = shutdown_write c.channel.fd s
