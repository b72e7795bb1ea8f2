-- ===== src/Buffer/Receive.antt =====
-- `buffer_socket_read`: every byte that `readv` delivers ends up in the queue, in order.
use yolanda.Prelude.Slices.{take-append-drop}
use yolanda.Prelude.Int.{pos}
use yolanda.Outcome.{ok}
use yolanda.Prelude.{
  take, ◌+◌, ◌-◌, ◌<◌, length, ◌≤◌, drop, some, ◌≡◌, arith, length-take, le-cases, ap, inl, inr,
  ◌∙◌, ◌++◌, append_assoc,
}
use yolanda.Buffer.Contents.{IsValid, contents}
use yolanda.Memory.{Realloc, Bytes, ReallocLaws}
use yolanda.Buffer.Append.{
  written, Appended, CanHold, length-written, write_bytes-Appended, buffer_append-Appended,
  window-written,
}
use yolanda.Buffer.{Buffer, buffer_socket_read, write_bytes}

-- The buffer between the two writes: its block is full.
unfoldable pub filled : Buffer → Bytes → Buffer
unfolding written
filled b received = record b {
  bytes = written b.bytes b.write_index (take (b.total_size - b.write_index) received);
  write_index = b.total_size;
}

filled-Appended :
    (b : Buffer) (received : Bytes)
    → IsValid b
    → b.total_size < b.write_index + length received
    → Appended b (take (b.total_size - b.write_index) received) (filled b received)
unfolding filled
filled-Appended b received v h = record {
  valid = omega (arith, length-written b.bytes first b.write_index (omega (arith, len)));
  bytes =
      ap (λ k. take (k - b.read_index) (drop b.read_index (written b.bytes b.write_index first)))
        {x = b.total_size} (omega (arith, len))
      ∙ window-written b.bytes first b.read_index b.write_index v.readable (omega (arith, len));
}
  where
    first : Bytes
    first = take (b.total_size - b.write_index) received

    len : length first ≡ b.total_size - b.write_index
    len = omega (arith, length-take (b.total_size - b.write_index) received)

module _ (realloc : Realloc) where
  received_within :
      (b : Buffer) (received : Bytes)
      → IsValid b
      → b.write_index + length received ≤ b.total_size
      → (b' : Buffer) × (buffer_socket_read realloc b (some received)
          ≡ ok (pos (length received), b'))
        × Appended b received b'
  unfolding buffer_socket_read write_bytes
  received_within b received v h =
      let (b', wrote, a, _) = write_bytes-Appended realloc b received v h in (b', ground arith, a)

  -- A read whose bytes fit, or for whose rest there is room, returns the number of bytes read and
  -- appends exactly the bytes read, in order, to a buffer that stays valid.
  pub buffer_socket_read-Appended :
      (b : Buffer) (received : Bytes)
      → ReallocLaws realloc
      → IsValid b
      → (b.total_size < b.write_index + length received
          → CanHold realloc
              (filled b received)
              (length (drop (b.total_size - b.write_index) received)))
      → (b' : Buffer) × (buffer_socket_read realloc b (some received)
          ≡ ok (pos (length received), b'))
        × Appended b received b'
  unfolding buffer_socket_read filled written
  buffer_socket_read-Appended b received laws v can =
      elim (le-cases (b.write_index + length received) b.total_size) [
        | inl fits ↦ received_within b received v fits
        | inr more ↦
            let a = filled-Appended b received v more in
            let (b', ran, a') =
              buffer_append-Appended realloc (filled b received)
                (drop (b.total_size - b.write_index) received) laws a.valid (can more) in
            (
              b',
              ground (arith, length-take (b.total_size - b.write_index) received),
              record {
                valid = a'.valid;
                bytes =
                    a'.bytes
                    ∙ ap (λ xs. xs ++ drop (b.total_size - b.write_index) received) a.bytes
                    ∙ append_assoc (contents b) _ _
                    ∙ ap (◌++◌ (contents b))
                        (take-append-drop (b.total_size - b.write_index) received);
              },
            )
      ]
