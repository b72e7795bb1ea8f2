-- ===== src/NonblockingServer.antt =====
-- chap-22/nonblockingserver.c: a server around `select` that rotates what its clients send by 13, with
-- a buffer for each descriptor. The clock and the messages on the console are left out.
pub mod Buffering
pub mod Sending
pub mod Leftover
pub mod MainLoop
pub mod Watching
pub mod Owners
pub mod Serving
pub mod Rounds
mod Tests
use yolanda.Rot13.{rot13_char}
use yolanda.Prelude.Int.{ℤ, eqb_ℤ, negsuc, pos, minus_one}
use yolanda.Outcome.{Outcome, fault, exited, out_of_bounds, ok, ◌>>=◌}
use yolanda.Memory.{Bytes}
use yolanda.Prelude.{
  ◌+◌, ◌∷◌, ◌++◌, ◌==◌, if◌then◌else◌, none, some, true, false, ℕ, List, Option, Bool, get_elem?,
  ltb, [], set, take, drop, zero, suc,
}

abbrev pub max_line : ℕ
max_line = 1024

abbrev pub fd_init_size : ℕ
fd_init_size = 128

-- `struct Buffer`; `buffer` is its array.
pub record SocketBuffer : Type 0 where
  pub connect_fd : ℕ
  pub buffer : Bytes
  pub write_index : ℕ
  pub read_index : ℕ
  pub readable : Bool

-- `alloc_Buffer`: `junk` is what `malloc` left in the array, `none` a NULL.
unfoldable pub alloc_buffer : Option Bytes → Option SocketBuffer
alloc_buffer none = none
alloc_buffer (some junk) =
    some
      (record { connect_fd = 0; buffer = junk; write_index = 0; read_index = 0; readable = false })

-- How a series of calls of `recv` or `send` ends: with the end of the stream, `EAGAIN` or another error.
pub data Stop : Type 0 where
  end_of_file would_block broken : Stop

-- A byte is stored if there is room, and a line feed makes the buffer readable in any case.
unfoldable pub store_byte : SocketBuffer → ℕ → SocketBuffer
store_byte b c =
    let b₁ =
      if ltb b.write_index max_line
      then record b {
        buffer = set b.buffer b.write_index (rot13_char c);
        write_index = b.write_index + 1;
      }
      else b in
    if c == 10 then record b₁ { readable = true } else b₁

pub store_bytes : SocketBuffer → Bytes → SocketBuffer
unfolding store_byte
store_bytes b [] = b
store_bytes b (c ∷ cs) = store_bytes (store_byte b c) cs

-- `onSocketRead`, given the blocks that `recv` delivers and how it stops. The result is 1 for the end
-- of the stream.
pub on_socket_read : List Bytes → Stop → SocketBuffer → ℤ × SocketBuffer
unfolding store_bytes
on_socket_read (block ∷ blocks) stop b = on_socket_read blocks stop (store_bytes b block)
on_socket_read [] end_of_file b = (pos 1, b)
on_socket_read [] would_block b = (pos 0, b)
on_socket_read [] broken b = (minus_one, b)

-- What is done when everything has been sent.
drained : SocketBuffer → SocketBuffer
drained b = record b {
  read_index = if b.read_index == b.write_index then 0 else b.read_index;
  write_index = if b.read_index == b.write_index then 0 else b.write_index;
  readable = false;
}

-- `onSocketWrite`, given the numbers of bytes that `send` takes and, if they are used up, how it
-- stops. The bytes are those that were sent.
pub on_socket_write : List ℕ → Stop → SocketBuffer → ℤ × Bytes × SocketBuffer
unfolding drained
on_socket_write [] stop b = elim (ltb b.read_index b.write_index) [
  | false ↦ (pos 0, [], drained b)
  | true ↦ (elim stop [ would_block ↦ pos 0 | _ ↦ minus_one ], [], b)
]
on_socket_write (n ∷ counts) stop b = elim (ltb b.read_index b.write_index) [
  | false ↦ (pos 0, [], drained b)
  | true ↦
      let (result, sent, b') =
        on_socket_write counts stop (record b { read_index = b.read_index + n }) in
      (result, take n (drop b.read_index b.buffer) ++ sent, b')
]

-- The array of `main`; a descriptor is an index into it.
abbrev pub Buffers : Type 0
Buffers = List SocketBuffer

abbrev pub buffer_at : Buffers → ℕ → Outcome SocketBuffer
buffer_at bs fd = elim (get_elem? bs fd) [ none ↦ fault out_of_bounds | some b ↦ ok b ]

-- The listening socket is readable: `fd` is what `accept` returns. `error(1, …)` ends the process.
unfoldable pub accept_client : ℤ → Buffers → Outcome Buffers
accept_client (negsuc n) bs = fault (exited 1)
accept_client (pos fd) bs =
    if ltb fd_init_size fd
    then fault (exited 1)
    else buffer_at bs fd >>= λ b.
        if b.connect_fd == 0
        then ok (set bs fd (record b { connect_fd = fd }))
        else fault (exited 1)

-- What `select` and the calls after it come to for a client: what is received, if its descriptor is
-- in `readset`, and what is sent, if it is in `writeset`.
pub record Readiness : Type 0 where
  pub receives : Option (List Bytes × Stop)
  pub sends : Option (List ℕ × Stop)

unfoldable pub read_client : Option (List Bytes × Stop) → SocketBuffer → ℤ × SocketBuffer
read_client none b = (pos 0, b)
read_client (some (blocks, stop)) b = on_socket_read blocks stop b

-- `r == 0`
abbrev pub is_zero : ℤ → Bool
is_zero (pos zero) = true
is_zero (pos (suc n)) = false
is_zero (negsuc n) = false

unfoldable pub write_client : Option (List ℕ × Stop) → ℤ → SocketBuffer → ℤ × Bytes × SocketBuffer
write_client none r b = (r, [], b)
write_client (some (counts, stop)) r b =
    if is_zero r then on_socket_write counts stop b else (r, [], b)

-- `if (r)` the descriptor is closed; of its buffer nothing but `connect_fd` is reset.
unfoldable pub close_if_done : ℤ × Bytes × SocketBuffer → Bytes × Bool × SocketBuffer
close_if_done (r, sent, b) = elim (is_zero r) [
  | true ↦ (sent, false, b)
  | false ↦ (sent, true, record b { connect_fd = 0 })
]

-- One round of the loop over the descriptors, for a client: the bytes sent, whether the descriptor is
-- closed, and its buffer.
unfoldable pub serve_client : Readiness → SocketBuffer → Bytes × Bool × SocketBuffer
serve_client ready b =
    let (r, b₁) = read_client ready.receives b in close_if_done (write_client ready.sends r b₁)
