-- ===== src/EchoServer/Echo.antt =====
-- What a client gets back.
use yolanda.Prelude.Int.{ℤ, pos}
use yolanda.Outcome.{int_max, ok}
use yolanda.Memory.{Realloc, ReallocLaws, Bytes}
use yolanda.Prelude.{
  ◌+◌, ◌-◌, ◌≤◌, ◌≡◌, ◌∙◌, ◌++◌, refl, sym, ap, some, ℕ, arith, zero, suc, [], ◌∷◌, List, length,
  map, take, drop, append-nil, append_assoc,
}
use yolanda.EchoServer.{print_data, rotate, on_message}
use yolanda.Buffer.{Buffer}
use yolanda.Buffer.Contents.{IsValid, contents, buffer_read_char-advances, length-contents, sizes}
use yolanda.Buffer.Append.{buffer_append_char-bounded, grows}
use yolanda.TcpConnection.{
  LoopOps, ConnectionCallbacks, Connection, WriteResult, wrote, tcp_connection_send_buffer,
}
use yolanda.TcpConnection.Sending.{IsIdle, send_all_from}
use yolanda.Rot13.{rot13_char}

module _ {R S : Type 0} (ops : LoopOps S) (callbacks : ConnectionCallbacks R S) (realloc : Realloc)
    (laws : ReallocLaws realloc)
    (has : (block : Bytes) (n : ℕ)
      → n ≤ int_max
      → (new : Bytes) × (realloc block n ≡ some new)) where
  -- What the loop of `onMessage` does with n readable bytes.
  record Rotated (n : ℕ) (input output input' output' : Buffer) : Type 0 where
    emptied : contents input' ≡ []
    taken : input'.read_index ≡ input.read_index + n
    valid : IsValid output'
    bytes : contents output' ≡ contents output ++ map rot13_char (contents input)
    bound : output'.total_size ≤ output.total_size + n

  rotate-Rotated :
      (n : ℕ) (input output : Buffer)
      → IsValid input
      → IsValid output
      → input.write_index ≡ input.read_index + n
      → output.total_size + n ≤ int_max
      → (input' output' : Buffer) × (rotate ops callbacks realloc n input output
          ≡ ok (input', output'))
        × Rotated n input output input' output'
  unfolding rotate
  rotate-Rotated zero input output v w e h = (
    input,
    output,
    refl,
    record {
      emptied = none_left input e;
      taken = omega arith;
      valid = w;
      bytes =
          sym (append-nil (contents output))
          ∙ ap (λ xs. contents output ++ map rot13_char xs) (sym (none_left input e));
      bound = omega arith;
    },
  )
    where
      none_left : (input : Buffer) → input.write_index ≡ input.read_index + 0 → contents input ≡ []
      none_left input e =
          ap (λ k. take k (drop input.read_index input.bytes))
            {x = input.write_index - input.read_index} {y = 0} (omega arith)
  rotate-Rotated (suc n) input output v w e h =
      let (c, read, front) = buffer_read_char-advances input v (omega arith) in
      let (new, made) = has output.bytes (output.total_size + 1) (omega arith) in
      let (output₁, put, a, bound) =
        buffer_append_char-bounded realloc output (rot13_char c) laws w
          (grows new made (omega arith)) in
      let next = record input { read_index = input.read_index + 1 } in
      let (input', output', run, r) =
        rotate-Rotated n (record input { read_index = input.read_index + 1 }) output₁ (omega arith)
          a.valid (omega arith) (omega arith) in
      (
        input',
        output',
        ground (arith, read, put, run),
        record {
          emptied = r.emptied;
          taken = omega (arith, r.taken);
          valid = r.valid;
          bytes =
              r.bytes
              ∙ ap (λ xs. xs ++ map rot13_char (contents next)) a.bytes
              ∙ append_assoc (contents output) (rot13_char c ∷ []) (map rot13_char (contents next))
              ∙ ap (λ xs. contents output ++ map rot13_char xs) (sym front);
          bound = omega (arith, r.bound);
        },
      )

  length-map : {A B : Type 0} (f : A → B) (xs : List A) → length (map f xs) ≡ length xs
  length-map f [] = refl
  length-map f (x ∷ xs) = ap suc (length-map f xs)

  sent_whole :
      (write : Bytes → WriteResult) (output : Buffer) (c : Connection R) (s : S) (text : Bytes)
      → IsIdle ops callbacks realloc c
      → IsValid output
      → contents output ≡ text
      → write text ≡ wrote (length text)
      → (result : ℤ) × (sent : Buffer) × (tcp_connection_send_buffer ops callbacks realloc write
            output c s
          ≡ ok (result, sent, c, ops.hand_over (c.channel.fd) text s))
  unfolding tcp_connection_send_buffer
  sent_whole write output c s text i v same takes =
      let size = output.write_index - output.read_index in
      let len : length text ≡ size = ap length (sym same) ∙ length-contents output v in
      let run =
        send_all_from ops callbacks realloc write output.bytes output.read_index size c s i
          (omega (arith, v.block, v.readable, v.writable)) (omega (arith, v.block, v.in_int))
          (omega (arith, v.writable, v.in_int)) (ap write same ∙ takes ∙ ap wrote len) in
      (
        pos size,
        record output { read_index = output.read_index + size },
        ground (arith, (sizes output v).0, run, same),
      )

  -- When nothing waits at a connection, its valid input buffer has a zero in its block, the new buffer
  -- is valid and empty and can grow by what was received, and the kernel takes all the bytes that it
  -- is given: `onMessage` calls `write` once, on the connection's descriptor and with the rotation of
  -- all that was received, empties the input buffer, and leaves everything else as it is.
  pub on_message-rotated :
      (write : Bytes → WriteResult) (fresh : Buffer) (c : Connection R) (s : S)
      → print_data c.input_buffer.bytes ≡ ok tt
      → IsIdle ops callbacks realloc c
      → IsValid c.input_buffer
      → IsValid fresh
      → contents fresh ≡ []
      → fresh.total_size + length (contents c.input_buffer) ≤ int_max
      → write (map rot13_char (contents c.input_buffer)) ≡ wrote (length (contents c.input_buffer))
      → (input' : Buffer) × (on_message ops callbacks realloc write (some fresh) c s
          ≡ ok (
            record c { input_buffer = input' },
            ops.hand_over (c.channel.fd) (map rot13_char (contents c.input_buffer)) s,
          ))
        × (contents input' ≡ [])
  unfolding on_message
  on_message-rotated write fresh c s zero_in i v w empty room takes =
      let n = c.input_buffer.write_index - c.input_buffer.read_index in
      let len = length-contents c.input_buffer v in
      let (input', output', run, r) =
        rotate-Rotated n c.input_buffer fresh v w (omega (arith, v.readable))
          (omega (arith, len)) in
      let text = map rot13_char (contents c.input_buffer) in
      let (result, sent, done) =
        sent_whole write output' (record c { input_buffer = input' }) s text
          (record { disabled = i.disabled; empty = i.empty }) r.valid
          (r.bytes ∙ ap (λ xs. xs ++ text) empty)
          (takes ∙ ap wrote (sym (length-map rot13_char (contents c.input_buffer)))) in
      (input', ground (arith, zero_in, (sizes c.input_buffer v).0, run, done), r.emptied)
