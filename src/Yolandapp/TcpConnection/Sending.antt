-- ===== src/Yolandapp/TcpConnection/Sending.antt =====
-- What becomes of the bytes that the application sends over the port.
use yolanda.Prelude.Int.{pos}
use yolanda.Outcome.{int_max, ok}
use yolanda.Yolandapp.Buffer.{readable, StringBuffer}
use yolanda.Memory.{Bytes}
use yolanda.Yolandapp.Channel.{write_event_is_enabled}
use yolanda.Channel.{event_write}
use Prim.Native.Nat.{bit_and}
use yolanda.TcpConnection.{LoopOps, WriteResult, wrote, failed, epipe, econnreset}
use yolanda.Prelude.{
  ◌≡◌, ◌≢◌, ℕ, ◌+◌, ◌^◌, ◌≤◌, ◌<◌, ◌++◌, refl, sym, arith, zero, suc, length, take, drop,
  append-nil, length-take, length-drop,
}
use yolanda.Yolandapp.TcpConnection.{
  PortConnection, send_data, PortCallbacks, attempt, bytes_at, keep_rest, after_write,
}
use yolanda.Yolandapp.Buffer.Append.{IsSound, held, append_data-Extended}

module _ {R S : Type 0} (ops : LoopOps S) (callbacks : PortCallbacks R S) (max_size : ℕ) where
  -- Bytes wait: the write event is on.
  abbrev pub IsWaiting : PortConnection R → Type 0
  IsWaiting c = bit_and c.channel.events event_write ≢ 0

  -- Nothing waits: the write event is off and the output buffer is empty.
  pub record IsQuiet (c : PortConnection R) : Type 0 where
    pub disabled : bit_and c.channel.events event_write ≡ 0
    pub empty : c.output_buffer.write_index ≡ c.output_buffer.read_index

  -- While bytes wait at a connection, and its output buffer is sound and may grow by the size, below a
  -- limit of 2^63, `send_data` of bytes within their block, no more than an `int` can count, puts them
  -- behind those that wait and returns 0; nothing is written, and nothing else changes.
  pub send_data-waiting :
      (write : Bytes → WriteResult) (block : Bytes) (offset size : ℕ) (c : PortConnection R) (s : S)
      → max_size < 2 ^ 63
      → IsWaiting c
      → IsSound max_size c.output_buffer
      → offset + size ≤ length block
      → size ≤ int_max
      → length c.output_buffer.chars + size ≤ max_size
      → (out : StringBuffer) × (send_data ops callbacks max_size write block offset size c s
          ≡ ok (pos 0, record c { output_buffer = out }, s))
        × IsSound max_size out
        × (held max_size out ≡ held max_size c.output_buffer ++ take size (drop offset block))
  unfolding send_data attempt keep_rest bytes_at write_event_is_enabled
  send_data-waiting write block offset zero c s small w v h k room =
      (c.output_buffer, ground (arith, w), v, sym (append-nil (held max_size c.output_buffer)))
  send_data-waiting write block offset (suc n) c s small w v h k room =
      let src = take (suc n) (drop offset block) in
      let len : length src ≡ suc n =
        omega (arith, length-take (suc n) (drop offset block), length-drop offset block) in
      let (out, run, extended, bound) =
        append_data-Extended max_size c.output_buffer src small v (omega (arith, len)) in
      (out, ground (arith, w, run), extended.sound, extended.bytes)

  -- The answers of `write` after which nothing is left to be sent, and what `send_data` returns.
  pub data Settled (size : ℕ) : WriteResult → ℕ → Type 0 where
    all_written : Settled size (wrote size) size
    pipe_closed : Settled size (failed epipe) 0
    peer_reset : Settled size (failed econnreset) 0

  -- When nothing waits at a connection and the kernel takes all the bytes, or says that the other side
  -- is gone, `send_data` has handed it these bytes and returns how many it took, and nothing else
  -- changes.
  pub send_data-Settled :
      (write : Bytes → WriteResult) (block : Bytes) (offset size n : ℕ) (c : PortConnection R)
      (s : S)
      → IsQuiet c
      → c.output_buffer.write_index < 2 ^ 64
      → offset + size ≤ length block
      → size ≤ int_max
      → Settled size (write (take size (drop offset block))) n
      → send_data ops callbacks max_size write block offset size c s
        ≡ ok (pos n, c, ops.hand_over (c.channel.fd) (take size (drop offset block)) s)
  unfolding send_data attempt bytes_at write_event_is_enabled readable after_write
  send_data-Settled write block offset size n c s q small h k answer =
      settled (write (take size (drop offset block))) n refl answer
    where
      settled :
          (w : WriteResult) (m : ℕ)
          → write (take size (drop offset block)) ≡ w
          → Settled size w m
          → send_data ops callbacks max_size write block offset size c s
            ≡ ok (pos m, c, ops.hand_over (c.channel.fd) (take size (drop offset block)) s)
      settled w m e all_written = ground (arith, e, q.disabled, q.empty)
      settled w m e pipe_closed = ground (arith, e, q.disabled, q.empty)
      settled w m e peer_reset = ground (arith, e, q.disabled, q.empty)
