-- ===== src/TcpConnection/Draining.antt =====
-- What becomes of the bytes that wait in the output buffer when the descriptor can be written.
use yolanda.Outcome.{ok, fault, bad_cast}
use yolanda.Prelude.Int.{pos}
use yolanda.Channel.{connection, channel_write_event_disable}
use yolanda.Buffer.{buffer_readable_size, Buffer}
use yolanda.Buffer.Contents.{IsValid, contents, length-contents, contents-advance, sizes}
use yolanda.Memory.{Realloc, Bytes}
use yolanda.TcpConnection.{
  LoopOps, ConnectionCallbacks, handle_write, source_bytes, Connection, handle_written, WriteResult,
  wrote, call_back,
}
use yolanda.Prelude.{◌<◌, ◌≡◌, true, ℕ, length, drop, ◌+◌, ◌∙◌, sym, ap, arith, ◌-◌, zero, suc}

module _ {R S : Type 0} (ops : LoopOps S) (callbacks : ConnectionCallbacks R S)
    (realloc : Realloc) where
  -- What `write` is given: the readable bytes.
  given :
      (c : Connection R)
      → IsValid c.output_buffer
      → (buffer_readable_size c.output_buffer ≡ pos (length (contents c.output_buffer)))
        × (source_bytes c.output_buffer.bytes c.output_buffer.read_index 0
              (length (contents c.output_buffer))
            ≡ ok (contents c.output_buffer))
  unfolding source_bytes
  given c v =
      let e = length-contents c.output_buffer v in
      ((sizes c.output_buffer v).0 ∙ ap pos (sym e), ground (arith, e))

  -- What was done to the kernel.
  abbrev pub handed : Connection R → S → S
  handed c s = ops.hand_over (c.channel.fd) (contents c.output_buffer) s

  handle_write-written :
      (write : Bytes → WriteResult) (c : Connection R) (s : S) (k : ℕ)
      → IsValid c.output_buffer
      → write (contents c.output_buffer) ≡ wrote (suc k)
      → handle_write ops callbacks realloc true write c s
        ≡ handle_written ops callbacks realloc (suc k) c (handed c s)
  unfolding handle_write
  handle_write-written write c s k v e =
      let (size, bytes) = given c v in ground (arith, size, bytes, e)

  after_part :
      (c : Connection R) (s : S) (k : ℕ)
      → c.output_buffer.read_index + suc k < c.output_buffer.write_index
      → handle_written ops callbacks realloc (suc k) c s
        ≡ call_back callbacks.write_completed
            (record c {
              output_buffer = record (c.output_buffer) {
                read_index = c.output_buffer.read_index + suc k;
              };
            })
            s
  unfolding handle_written buffer_readable_size
  after_part c s k h = ground arith

  after_all :
      (c : Connection R) (s : S) (k self : ℕ)
      → c.output_buffer.read_index + suc k ≡ c.output_buffer.write_index
      → c.channel.target ≡ connection self
      → handle_written ops callbacks realloc (suc k) c s ≡ fault bad_cast
  unfolding handle_written buffer_readable_size channel_write_event_disable
  after_all c s k self h t = ground arith

  -- When the kernel takes some of the bytes that wait in a valid output buffer but not all, exactly
  -- those leave it, the buffer stays valid, and the application is called back on a connection that
  -- is otherwise the same.
  pub handle_write_part :
      (write : Bytes → WriteResult) (c : Connection R) (s : S) (n : ℕ)
      → IsValid c.output_buffer
      → write (contents c.output_buffer) ≡ wrote n
      → 0 < n
      → n < length (contents c.output_buffer)
      → (out : Buffer) × IsValid out
        × (contents out ≡ drop n (contents c.output_buffer))
        × (handle_write ops callbacks realloc true write c s
            ≡ call_back callbacks.write_completed (record c { output_buffer = out }) (handed c s))
  handle_write_part write c s zero v e p h = absurd (omega arith)
  handle_write_part write c s (suc k) v e p h =
      let size = length-contents c.output_buffer v in
      (
        record (c.output_buffer) { read_index = c.output_buffer.read_index + suc k },
        omega (arith, size),
        contents-advance c.output_buffer (suc k) v (omega (arith, size)),
        handle_write-written write c s k v e ∙ after_part c (handed c s) k (omega (arith, size)),
      )

  -- When the kernel takes all the bytes, at least one, that wait in a valid output buffer,
  -- switching the write event off takes the connection, to which the data of its channel points,
  -- for an event loop.
  pub handle_write_all :
      (write : Bytes → WriteResult) (c : Connection R) (s : S) (self : ℕ)
      → IsValid c.output_buffer
      → c.channel.target ≡ connection self
      → 0 < length (contents c.output_buffer)
      → write (contents c.output_buffer) ≡ wrote (length (contents c.output_buffer))
      → handle_write ops callbacks realloc true write c s ≡ fault bad_cast
  handle_write_all write c s self v t h e =
      let size = length-contents c.output_buffer v in
      let k = c.output_buffer.write_index - c.output_buffer.read_index - 1 in
      handle_write-written write c s k v (e ∙ ap wrote (omega (arith, size)))
      ∙ after_all c (handed c s) k self (omega (arith, size)) t
