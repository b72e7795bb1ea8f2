-- ===== src/TcpConnection/Sending.antt =====
-- What becomes of the bytes that the application sends.
use yolanda.Prelude.Int.{pos, minus_one, ℤ}
use yolanda.Buffer.Append.{CanHold, buffer_append-Appended}
use yolanda.Buffer.Contents.{IsValid}
use yolanda.Outcome.{int_max, ok, fault, out_of_bounds, bad_cast, ◌>>=◌, Outcome}
use yolanda.Buffer.{buffer_readable_size, Buffer, buffer_append}
use yolanda.Channel.{
  channel_write_event_is_enabled, event_write, connection, channel_write_event_enable,
}
use Prim.Native.Nat.{bit_and}
use yolanda.Memory.{Realloc, Bytes, ReallocLaws}
use yolanda.TcpConnection.{
  LoopOps, ConnectionCallbacks, Connection, first_write, source_bytes, tcp_connection_send_data,
  WriteResult, Errno, as_size, failed, wrote, queue_rest,
}
use yolanda.Prelude.{
  ◌≤◌, ◌≡◌, ℕ, length, ◌-◌, ◌^◌, ◌<◌, arith, take, drop, ◌+◌, ◌%◌, some, ◌==◌, zero, suc, refl, ◌∙◌,
  ap, lt→leb_false, true, false,
}

module _ {R S : Type 0} (ops : LoopOps S) (callbacks : ConnectionCallbacks R S)
    (realloc : Realloc) where
  -- Nothing waits: the write event is off and the output buffer is empty.
  pub record IsIdle (c : Connection R) : Type 0 where
    pub disabled : bit_and c.channel.events event_write ≡ 0
    pub empty : c.output_buffer.write_index ≡ c.output_buffer.read_index

  first_write-IsIdle :
      (write : Bytes → WriteResult) (block : Bytes) (offset size : ℕ) (c : Connection R) (s : S)
      → IsIdle c
      → offset + size ≤ length block
      → (offset + 0) % 2 ^ 64 ≡ offset
      → size ≤ int_max
      → first_write ops callbacks realloc write block offset size c s
        ≡ ok (
          as_size (write (take size (drop offset block))),
          ops.hand_over (c.channel.fd) (take size (drop offset block)) s,
        )
  unfolding first_write channel_write_event_is_enabled source_bytes buffer_readable_size
  first_write-IsIdle write block offset size c s i h p k = ground (arith, i.disabled, i.empty, p)

  -- When nothing waits, the bytes are within the block and an `int` counts them, and the kernel takes
  -- them all, they are handed to it, their number is returned, and nothing else changes.
  pub send_all_from :
      (write : Bytes → WriteResult) (block : Bytes) (offset size : ℕ) (c : Connection R) (s : S)
      → IsIdle c
      → offset + size ≤ length block
      → length block < 2 ^ 63
      → size ≤ int_max
      → write (take size (drop offset block)) ≡ wrote size
      → tcp_connection_send_data ops callbacks realloc write block offset size c s
        ≡ ok (pos size, c, ops.hand_over (c.channel.fd) (take size (drop offset block)) s)
  unfolding tcp_connection_send_data
  send_all_from write block offset size c s i h big k e =
      let first = first_write-IsIdle write block offset size c s i h (omega arith) k in
      ground (arith, first, e)

  unsent_bytes-first :
      (block : Bytes) (size : ℕ)
      → length block < 2 ^ 63
      → source_bytes block 0 (2 ^ 64 - 1) (size + 1) ≡ fault out_of_bounds
  unfolding source_bytes
  unsent_bytes-first block size big =
      rw (lt→leb_false (18446744073709551615 + (size + 1)) (length block) (omega arith)) refl

  unsent_bytes-later :
      (block : Bytes) (n size : ℕ)
      → suc n + size ≤ length block
      → length block < 2 ^ 63
      → source_bytes block (suc n) (2 ^ 64 - 1) (size + 1) ≡ ok (take (size + 1) (drop n block))
  unfolding source_bytes
  unsent_bytes-later block n size h big =
      let e : (suc n + (2 ^ 64 - 1)) % 2 ^ 64 ≡ n = omega arith in ground (arith, e)

  -- The write event is off, and the data of the channel points to the connection.
  queue_rest-wrong :
      (block : Bytes) (offset nwrited nleft self : ℕ) (c : Connection R) (s : S) (rest : Bytes)
      → IsIdle c
      → c.channel.target ≡ connection self
      → nleft ≤ int_max
      → source_bytes block offset nwrited nleft ≡ ok rest
      → queue_rest ops callbacks realloc block offset nwrited nleft c s
        ≡ (buffer_append realloc c.output_buffer (some rest) >>= λ out. fault bad_cast)
  unfolding queue_rest channel_write_event_is_enabled channel_write_event_enable
  queue_rest-wrong block offset nwrited nleft self c s rest i t k bytes =
      appended (buffer_append realloc c.output_buffer (some rest)) refl
    where
      appended :
          (o : Outcome Buffer)
          → buffer_append realloc c.output_buffer (some rest) ≡ o
          → queue_rest ops callbacks realloc block offset nwrited nleft c s
            ≡ (o >>= λ out. fault bad_cast)
      appended (fault reason) e = ground (arith, k, bytes, e)
      appended (ok out) e = ground (arith, k, bytes, e, i.disabled, t)

  queue_rest-none :
      (block : Bytes) (offset nwrited nleft : ℕ) (c : Connection R) (s : S)
      → nleft ≤ int_max
      → source_bytes block offset nwrited nleft ≡ fault out_of_bounds
      → queue_rest ops callbacks realloc block offset nwrited nleft c s ≡ fault out_of_bounds
  unfolding queue_rest
  queue_rest-none block offset nwrited nleft c s k bytes = ground (arith, k, bytes)

  send_data-rest :
      (write : Bytes → WriteResult) (block : Bytes) (offset size : ℕ) (c : Connection R) (s s' : S)
      → first_write ops callbacks realloc write block offset size c s ≡ ok (2 ^ 64 - 1, s')
      → (size + 2 ^ 64 - (2 ^ 64 - 1)) % 2 ^ 64 ≡ size + 1
      → tcp_connection_send_data ops callbacks realloc write block offset size c s ≡ (
          queue_rest ops callbacks realloc block offset (2 ^ 64 - 1) (size + 1) c s' >>= λ z.
          ok (minus_one, z.0, z.1))
  unfolding tcp_connection_send_data
  send_data-rest write block offset size c s s' first left =
      let rest : ℕ → Outcome (ℤ × Connection R × S) = λ nleft.
        elim (nleft == 0) [
          | true ↦ ok (c, s')
          | false ↦ queue_rest ops callbacks realloc block offset (2 ^ 64 - 1) nleft c s'
        ]
        >>= λ z. ok (minus_one, z.0, z.1) in
      let some_left : (size + 1 == 0) ≡ false = ground arith in
      let last : rest (size + 1) ≡ (
          queue_rest ops callbacks realloc block offset (2 ^ 64 - 1) (size + 1) c s' >>= λ z.
          ok (minus_one, z.0, z.1)) =
        rw some_left refl in
      (rw first refl) ∙ ap rest left ∙ last

  abbrev bad_cast_after : Outcome Buffer → Outcome (Connection R × S)
  bad_cast_after o = o >>= λ out. fault bad_cast

  stuck :
      (o : Outcome Buffer)
      → ◌≡◌ {A = Outcome (ℤ × Connection R × S)}
          (bad_cast_after o >>= λ (z : Connection R × S). ok (minus_one, z.0, z.1))
          (o >>= λ out. fault bad_cast)
  stuck (fault reason) = refl
  stuck (ok out) = refl

  -- What comes of a failed write, of bytes at this offset of a block.
  abbrev pub after_failure : Bytes → ℕ → ℕ → Connection R → Outcome (ℤ × Connection R × S)
  after_failure block zero size c = fault out_of_bounds
  after_failure block (suc n) size c =
      buffer_append realloc c.output_buffer (some (take (size + 1) (drop n block))) >>= λ out.
      fault bad_cast

  pub send_failed :
      (write : Bytes → WriteResult) (block : Bytes) (offset size self : ℕ) (c : Connection R)
      (s : S) (e : Errno)
      → IsIdle c
      → c.channel.target ≡ connection self
      → offset + size ≤ length block
      → size < int_max
      → length block < 2 ^ 63
      → write (take size (drop offset block)) ≡ failed e
      → tcp_connection_send_data ops callbacks realloc write block offset size c s
        ≡ after_failure block offset size c
  unfolding tcp_connection_send_data
  send_failed write block zero size self c s e i t h k big w =
      let first = first_write-IsIdle write block 0 size c s i h (omega arith) (omega (arith, k)) in
      let s' = ops.hand_over (c.channel.fd) (take size (drop 0 block)) s in
      let none = unsent_bytes-first block size big in
      let left : (size + 2 ^ 64 - (2 ^ 64 - 1)) % 2 ^ 64 ≡ size + 1 = omega (arith, k) in
      let queued = queue_rest-none block 0 (2 ^ 64 - 1) (size + 1) c s' (omega (arith, k)) none in
      ground (arith, first, w, left, queued)
  send_failed write block (suc n) size self c s e i t h k big w =
      let first =
        first_write-IsIdle write block (suc n) size c s i h (omega arith) (omega (arith, k)) in
      let s' = ops.hand_over (c.channel.fd) (take size (drop (suc n) block)) s in
      let left : (size + 2 ^ 64 - (2 ^ 64 - 1)) % 2 ^ 64 ≡ size + 1 = omega (arith, k) in
      let first' : first_write ops callbacks realloc write block (suc n) size c s
          ≡ ok (2 ^ 64 - 1, s') =
        first ∙ ap (λ r. ok (as_size r, s')) w in
      let result : Connection R × S → Outcome (ℤ × Connection R × S) =
        λ z. ok (minus_one, z.0, z.1) in
      let queued =
        queue_rest-wrong block (suc n) (2 ^ 64 - 1) (size + 1) self c s'
          (take (size + 1) (drop n block)) i t (omega (arith, k))
          (unsent_bytes-later block n size h big) in
      send_data-rest write block (suc n) size c s s' first' left
      ∙ ap (λ o. o >>= result) queued
      ∙ stuck (buffer_append realloc c.output_buffer (some (take (size + 1) (drop n block))))

  queue_rest-connection :
      (block : Bytes) (size n self : ℕ) (c : Connection R) (s : S) (out : Buffer)
      → IsIdle c
      → c.channel.target ≡ connection self
      → size ≤ length block
      → size ≤ int_max
      → n < size
      → buffer_append realloc c.output_buffer (some (take (size - n) (drop n block))) ≡ ok out
      → queue_rest ops callbacks realloc block 0 n (size - n) c s ≡ fault bad_cast
  unfolding queue_rest source_bytes channel_write_event_is_enabled channel_write_event_enable
  queue_rest-connection block size n self c s out i t h k lt a =
      let e : (0 + n) % 2 ^ 64 ≡ n = omega arith in
      let m : n + (size - n) ≤ length block = omega arith in ground (arith, i.disabled, e, m)

  -- When nothing waits, the size is within the block and an `int`, the kernel takes fewer bytes,
  -- and the output buffer is valid and can hold the rest, enabling the write event takes the
  -- connection, to which the data of its channel points, for an event loop.
  pub send_partial :
      (write : Bytes → WriteResult) (block : Bytes) (size n self : ℕ) (c : Connection R) (s : S)
      → ReallocLaws realloc
      → IsIdle c
      → IsValid c.output_buffer
      → c.channel.target ≡ connection self
      → size ≤ length block
      → size ≤ int_max
      → write (take size block) ≡ wrote n
      → n < size
      → CanHold realloc c.output_buffer (length (take (size - n) (drop n block)))
      → tcp_connection_send_data ops callbacks realloc write block 0 size c s ≡ fault bad_cast
  unfolding tcp_connection_send_data
  send_partial write block size n self c s laws i v t h k w lt can =
      let s' = ops.hand_over (c.channel.fd) (take size block) s in
      let (out, appended, _) =
        buffer_append-Appended realloc c.output_buffer (take (size - n) (drop n block)) laws v
          can in
      let e : (size + 2 ^ 64 - n) % 2 ^ 64 ≡ size - n = omega arith in
      let first : first_write ops callbacks realloc write block 0 size c s
          ≡ ok (as_size (write (take size block)), s') =
        first_write-IsIdle write block 0 size c s i (omega (arith, h)) (omega arith) k in
      ground (arith, first, e, queue_rest-connection block size n self c s' out i t h k lt appended)
