-- ===== src/NonblockingServer/Owners.antt =====
-- Serving a client leaves its buffer its descriptor, or none.
use yolanda.NonblockingServer.Buffering.{on_socket_read-joined, joined}
use yolanda.Prelude.Int.{ℤ, pos, negsuc}
use yolanda.Memory.{Bytes}
use yolanda.NonblockingServer.{
  close_if_done, on_socket_write, read_client, serve_client, store_byte, store_bytes, write_client,
  Readiness, SocketBuffer, Stop, drained, is_zero,
}
use yolanda.Prelude.{
  ◌+◌, ◌≡◌, ◌⊎◌, ◌∙◌, ◌∷◌, refl, ap, inl, inr, none, some, ℕ, List, Option, arith, zero, suc,
  Bool-cases, ltb, [],
}

store_byte-owner : (b : SocketBuffer) (c : ℕ) → (store_byte b c).connect_fd ≡ b.connect_fd
unfolding store_byte
store_byte-owner b c = ground arith

store_bytes-owner : (b : SocketBuffer) (cs : Bytes) → (store_bytes b cs).connect_fd ≡ b.connect_fd
unfolding store_bytes
store_bytes-owner b [] = refl
store_bytes-owner b (c ∷ cs) = store_bytes-owner (store_byte b c) cs ∙ store_byte-owner b c

read_client-owner :
    (receives : Option (List Bytes × Stop)) (b : SocketBuffer)
    → (read_client receives b).1.connect_fd ≡ b.connect_fd
unfolding read_client
read_client-owner none b = refl
read_client-owner (some (blocks, stop)) b =
    ap (λ t. t.1.connect_fd) (on_socket_read-joined blocks stop b)
    ∙ store_bytes-owner b (joined blocks)

on_socket_write-owner :
    (counts : List ℕ) (stop : Stop) (b : SocketBuffer)
    → (on_socket_write counts stop b).2.connect_fd ≡ b.connect_fd
unfolding on_socket_write drained
on_socket_write-owner [] stop b = elim (Bool-cases (ltb b.read_index b.write_index)) [
  | inl e ↦ ground (arith, e)
  | inr e ↦ ground (arith, e)
]
on_socket_write-owner (n ∷ counts) stop b =
    let more = on_socket_write-owner counts stop (record b { read_index = b.read_index + n }) in
    elim (Bool-cases (ltb b.read_index b.write_index)) [
      | inl e ↦ ground (arith, e, more)
      | inr e ↦ ground (arith, e)
    ]

write_client-owner :
    (sends : Option (List ℕ × Stop)) (r : ℤ) (b : SocketBuffer)
    → (write_client sends r b).2.connect_fd ≡ b.connect_fd
unfolding write_client
write_client-owner none r b = refl
write_client-owner (some (counts, stop)) r b = elim (Bool-cases (is_zero r)) [
  | inl e ↦ rw e (on_socket_write-owner counts stop b)
  | inr e ↦ rw e refl
]

close_if_done-owner :
    (t : ℤ × Bytes × SocketBuffer) (fd : ℕ)
    → t.2.connect_fd ≡ fd
    → ((close_if_done t).2.connect_fd ≡ 0) ⊎ ((close_if_done t).2.connect_fd ≡ fd)
unfolding close_if_done
close_if_done-owner (pos zero, sent, b) fd h = inr h
close_if_done-owner (pos (suc n), sent, b) fd h = inl refl
close_if_done-owner (negsuc n, sent, b) fd h = inl refl

pub serve_client-owner :
    (ready : Readiness) (b : SocketBuffer)
    → ((serve_client ready b).2.connect_fd ≡ 0)
      ⊎ ((serve_client ready b).2.connect_fd ≡ b.connect_fd)
unfolding serve_client
serve_client-owner ready b =
    let (r, b₁) = read_client ready.receives b in
    close_if_done-owner (write_client ready.sends r b₁) b.connect_fd
      (write_client-owner ready.sends r b₁ ∙ read_client-owner ready.receives b)
