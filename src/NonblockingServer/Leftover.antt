-- ===== src/NonblockingServer/Leftover.antt =====
-- What a client leaves in the buffer of its descriptor when it hangs up.
use yolanda.Rot13.{rot13_char}
use yolanda.NonblockingServer.Buffering.{
  IsValid, contents, joined, store_bytes-Stored, on_socket_read-joined,
}
use yolanda.Outcome.{fault, out_of_bounds, ok}
use yolanda.Prelude.Int.{pos}
use yolanda.Memory.{Bytes}
use yolanda.NonblockingServer.{
  accept_client, Buffers, SocketBuffer, fd_init_size, Stop, serve_client, end_of_file, max_line,
  read_client, store_bytes, write_client, close_if_done, on_socket_write, would_block,
}
use yolanda.Prelude.{
  ◌-◌, ◌<◌, ◌≡◌, ◌++◌, some, ℕ, List, Option, arith, length, get_elem?, get_elem?-of_ge, set, take,
  map, ◌∙◌, refl, ap, none, true, [], ◌≤◌, ◌∷◌, ◌+◌, inl, inr, false, Bool-cases, ltb, append-nil,
  drop,
}

hung_up :
    (b : SocketBuffer) (blocks : List Bytes) (sends : Option (List ℕ × Stop))
    → serve_client (record { receives = some (blocks, end_of_file); sends = sends }) b
      ≡ ([], true, record (store_bytes b (joined blocks)) { connect_fd = 0 })
unfolding serve_client read_client write_client close_if_done
hung_up b blocks none =
    ap (λ t. close_if_done (write_client none t.0 t.1)) (on_socket_read-joined blocks end_of_file b)
hung_up b blocks (some (counts, stop)) =
    ap (λ t. close_if_done (write_client (some (counts, stop)) t.0 t.1))
      (on_socket_read-joined blocks end_of_file b)

-- The kernel takes as many bytes as there are.
writable-sends :
    (c : SocketBuffer)
    → c.read_index ≤ c.write_index
    → c.write_index ≤ length c.buffer
    → (serve_client
        (record {
          receives = none;
          sends = some ((c.write_index - c.read_index) ∷ [], would_block);
        })
        c).0
      ≡ contents c
unfolding serve_client read_client write_client close_if_done on_socket_write
writable-sends c order within = elim (Bool-cases (ltb c.read_index c.write_index)) [
  | inl e ↦
      let n = c.write_index - c.read_index in
      let last : ltb (c.read_index + n) c.write_index ≡ false = ground (arith, order) in
      ground (arith, e, last, append-nil (take n (drop c.read_index c.buffer)))
  | inr e ↦
      let none_left : c.write_index - c.read_index ≡ 0 = ground (arith, e) in
      ground (arith, e, none_left)
]

-- When a client hangs up, the bytes that were stored and not sent stay in the buffer, with what came
-- before the end of its stream. The client that is accepted next with this descriptor starts with them,
-- and in a round in which `select` reports that it can be written to, and not that it has sent
-- anything, and the kernel takes as many bytes as there are, exactly they are sent to it.
pub accept_client-leftover :
    (bs : Buffers) (fd : ℕ) (b : SocketBuffer) (blocks : List Bytes)
    (sends : Option (List ℕ × Stop))
    → IsValid b
    → fd < fd_init_size
    → let (sent, closes, b') =
        serve_client (record { receives = some (blocks, end_of_file); sends = sends }) b in
      get_elem? bs fd ≡ some b'
      → (c : SocketBuffer) × (accept_client (pos fd) bs ≡ ok (set bs fd c))
        × (c.connect_fd ≡ fd)
        × (contents c
            ≡ contents b ++ take (max_line - b.write_index) (map rot13_char (joined blocks)))
        × ((serve_client
              (record {
                receives = none;
                sends = some ((c.write_index - c.read_index) ∷ [], would_block);
              })
              c).0
            ≡ contents b ++ take (max_line - b.write_index) (map rot13_char (joined blocks)))
unfolding accept_client
accept_client-leftover bs fd b blocks sends v h at =
    let s = store_bytes-Stored b (joined blocks) v in
    let at' = at ∙ ap (λ t. some (t.2)) (hung_up b blocks sends) in
    let c = record (store_bytes b (joined blocks)) { connect_fd = fd } in
    (
      c,
      ground (arith, at'),
      refl,
      s.bytes,
      writable-sends c (s.valid.order) (omega (arith, s.valid.block, s.valid.within)) ∙ s.bytes,
    )

-- The array has 128 buffers, and the test lets descriptor 128 through to the one behind them.
pub accept_client-beyond :
    (bs : Buffers)
    → length bs ≡ fd_init_size
    → accept_client (pos fd_init_size) bs ≡ fault out_of_bounds
unfolding accept_client
accept_client-beyond bs h = ground (arith, get_elem?-of_ge bs fd_init_size)
