-- ===== src/TcpConnection/Tests.antt =====
-- The theorems about sending at a connection with an empty output buffer.
use yolanda.Buffer.{buffer_append}
use yolanda.Buffer.Append.{fits}
use yolanda.Memory.Zeroed.{zeroed_laws}
use yolanda.TcpConnection.Sending.{IsIdle, send_failed, send_partial}
use yolanda.Prelude.Int.{pos}
use yolanda.Outcome.{ok, fault, bad_cast, ◌>>=◌}
use yolanda.TcpConnection.{
  Connection, ConnectionCallbacks, LoopOps, tcp_connection_send_data, WriteResult, failed, wrote,
  epipe,
}
use yolanda.Memory.{Bytes, realloc_zeroed}
use yolanda.Channel.{channel_new, connection, Callback}
use yolanda.Buffer.Contents.{IsValid}
use yolanda.Prelude.{◌+◌, ◌≡◌, ◌∷◌, refl, none, some, ℕ, arith, [], length}

abbrev ops : LoopOps ℕ
ops = record {
  add_channel = λ c s. ok (s + 1);
  remove_channel = λ c s. ok (s + 1);
  update_channel = λ c s. ok (s + 1);
  shutdown_write = λ fd s. s;
  hand_over = λ fd bytes s. s + length bytes;
}

abbrev callbacks : ConnectionCallbacks (Unit {0}) ℕ
callbacks = record {
  connection_completed = none;
  message = none;
  write_completed = none;
  connection_closed = none;
}

abbrev idle : Connection (Unit {0})
idle = record {
  channel =
      channel_new (pos 4) 2 (some Callback.handle_read) (some Callback.handle_write) (connection 0);
  name = pos 4;
  input_buffer = record { bytes = []; read_index = 0; write_index = 0; total_size = 0 };
  output_buffer = record {
    bytes = 0 ∷ 0 ∷ 0 ∷ [];
    read_index = 1;
    write_index = 1;
    total_size = 3;
  };
  app = tt;
}

idle-IsIdle : IsIdle ops callbacks realloc_zeroed idle
unfolding channel_new
idle-IsIdle = record { disabled = refl; empty = refl }

idle-IsValid : IsValid idle.output_buffer
idle-IsValid = record {
  block = refl;
  readable = omega arith;
  writable = omega arith;
  in_int = omega arith;
}

-- The kernel takes one byte, or nothing.
abbrev takes_one : Bytes → WriteResult
takes_one bytes = wrote 1

abbrev breaks : Bytes → WriteResult
breaks bytes = failed epipe

abbrev word : Bytes
word = 72 ∷ 105 ∷ []

send_failed_example :
    tcp_connection_send_data ops callbacks realloc_zeroed breaks (9 ∷ word) 1 2 idle 7
    ≡ (buffer_append realloc_zeroed idle.output_buffer (some (9 ∷ word)) >>= λ out. fault bad_cast)
unfolding channel_new
send_failed_example =
    send_failed ops callbacks realloc_zeroed breaks (9 ∷ word) 1 2 0 idle 7 epipe idle-IsIdle refl
      (omega arith) (omega arith) (omega arith) refl

send_partial_example :
    tcp_connection_send_data ops callbacks realloc_zeroed takes_one word 0 2 idle 7 ≡ fault bad_cast
unfolding channel_new
send_partial_example =
    send_partial ops callbacks realloc_zeroed takes_one word 2 1 0 idle 7 zeroed_laws idle-IsIdle
      idle-IsValid refl (omega arith) (omega arith) refl (omega arith) (fits (omega arith))
