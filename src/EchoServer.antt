-- ===== src/EchoServer.antt =====
-- The application of chap-27/poll-server-onethread.c and chap-28/poll-server-multithreads.c on top of
-- the library: what a client sends is sent back, rotated by 13. The other callbacks print a line each.
pub mod Echo
mod Tests
use yolanda.Prelude.Int.{pos_part}
use yolanda.Outcome.{Outcome, fault, ok, ◌>>◌, out_of_bounds, ◌>>=◌, deref}
use yolanda.Memory.{Bytes, Realloc}
use yolanda.Prelude.{◌∷◌, ℕ, Option, zero, suc, []}
use yolanda.Buffer.{Buffer, buffer_readable_size, buffer_read_char, buffer_append_char}
use yolanda.TcpConnection.{
  LoopOps, ConnectionCallbacks, Connection, WriteResult, tcp_connection_send_buffer,
}
use yolanda.Rot13.{rot13_char}

-- `printf("%s", input->data)` reads the block up to a zero, wherever the readable bytes are.
unfoldable pub print_data : Bytes → Outcome (Unit {0})
print_data [] = fault out_of_bounds
print_data (zero ∷ bytes) = ok tt
print_data (suc c ∷ bytes) = print_data bytes

module _ {R S : Type 0} (ops : LoopOps S) (callbacks : ConnectionCallbacks R S)
    (realloc : Realloc) where
  -- The loop of `onMessage`: as many characters are taken from `input` and put into `output`.
  rotate : ℕ → Buffer → Buffer → Outcome (Buffer × Buffer)
  rotate zero input output = ok (input, output)
  rotate (suc n) input output = do
    (c, input') ← buffer_read_char input
    output' ← buffer_append_char realloc output (rot13_char c)
    rotate n input' output'

  -- `onMessage`: `fresh` is what `buffer_new` returns, and `write` the kernel's answer.
  pub on_message :
      (Bytes → WriteResult) → Option Buffer → Connection R → S → Outcome (Connection R × S)
  unfolding rotate
  on_message write fresh c s = do
    print_data c.input_buffer.bytes
    output ← deref fresh
    (input', output') ←
        rotate (pos_part (buffer_readable_size c.input_buffer)) c.input_buffer output
    (result, sent, c', s') ←
        tcp_connection_send_buffer ops callbacks realloc write output'
          (record c { input_buffer = input' }) s
    ok (c', s')
