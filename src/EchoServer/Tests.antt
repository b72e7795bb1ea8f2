-- ===== src/EchoServer/Tests.antt =====
-- An echo at a small input.
use yolanda.Rot13.{rot13_char}
use yolanda.Prelude.Int.{pos}
use yolanda.Memory.Zeroed.{zeroed_laws}
use yolanda.Outcome.{ok}
use yolanda.Memory.{Bytes, realloc_zeroed}
use yolanda.Channel.{channel_new, connection}
use yolanda.Prelude.{◌≡◌, ◌∷◌, refl, none, some, arith, length, [], ◌++◌}
use yolanda.EchoServer.{on_message, print_data}
use yolanda.EchoServer.Echo.{on_message-rotated}
use yolanda.Buffer.{Buffer}
use yolanda.Buffer.Contents.{contents}
use yolanda.TcpConnection.{Connection, ConnectionCallbacks, LoopOps, WriteResult, wrote}
use yolanda.TcpConnection.Sending.{IsIdle}

abbrev ops : LoopOps Bytes
ops = record {
  add_channel = λ c s. ok s;
  remove_channel = λ c s. ok s;
  update_channel = λ c s. ok s;
  shutdown_write = λ fd s. s;
  hand_over = λ fd bytes s. bytes ++ s;
}

abbrev callbacks : ConnectionCallbacks (Unit {0}) Bytes
callbacks = record {
  connection_completed = none;
  message = none;
  write_completed = none;
  connection_closed = none;
}

abbrev takes_all : Bytes → WriteResult
takes_all bytes = wrote (length bytes)

abbrev fresh : Buffer
fresh = record { bytes = 0 ∷ 0 ∷ []; read_index = 0; write_index = 0; total_size = 2 }

-- "abn" has arrived.
abbrev talking : Connection (Unit {0})
talking = record {
  channel = channel_new (pos 4) 2 none none (connection 0);
  name = pos 4;
  input_buffer = record {
    bytes = 97 ∷ 98 ∷ 110 ∷ 0 ∷ [];
    read_index = 0;
    write_index = 3;
    total_size = 4;
  };
  output_buffer = record { bytes = 0 ∷ []; read_index = 0; write_index = 0; total_size = 1 };
  app = tt;
}

talking-IsIdle : IsIdle ops callbacks realloc_zeroed talking
unfolding channel_new
talking-IsIdle = record { disabled = refl; empty = refl }

on_message-rotated_example :
    (input' : Buffer) × (on_message ops callbacks realloc_zeroed takes_all (some fresh) talking []
      ≡ ok (record talking { input_buffer = input' }, 110 ∷ 111 ∷ 97 ∷ []))
    × (contents input' ≡ [])
unfolding print_data rot13_char
on_message-rotated_example =
    on_message-rotated ops callbacks realloc_zeroed zeroed_laws (λ block n h. (_, refl)) takes_all
      fresh talking [] refl talking-IsIdle
      (record {
        block = refl;
        readable = omega arith;
        writable = omega arith;
        in_int = omega arith;
      })
      (record {
        block = refl;
        readable = omega arith;
        writable = omega arith;
        in_int = omega arith;
      })
      refl (omega arith) refl
