-- ===== src/NonblockingServer/Buffering.antt =====
-- What a round of the loop does to the bytes of a client.
use yolanda.Rot13.{rot13_char}
use yolanda.Prelude.Slices.{take-of_ge, window-set_next}
use yolanda.Prelude.Int.{ℤ, pos, minus_one}
use yolanda.NonblockingServer.{
  SocketBuffer, Stop, on_socket_read, store_byte, store_bytes, max_line, end_of_file, would_block,
  broken,
}
use yolanda.Memory.{Bytes}
use yolanda.Prelude.{
  ◌+◌, ◌-◌, ◌≤◌, ◌<◌, ◌≡◌, ◌∙◌, ◌∷◌, ◌++◌, refl, sym, ap, ap₂, inl, inr, ℕ, List, arith, suc,
  le-cases, length, [], append-nil, take, drop, length-set, map, append_assoc,
}

abbrev pub contents : SocketBuffer → Bytes
contents b = take (b.write_index - b.read_index) (drop b.read_index b.buffer)

pub record IsValid (b : SocketBuffer) : Type 0 where
  pub block : length b.buffer ≡ max_line
  pub order : b.read_index ≤ b.write_index
  pub within : b.write_index ≤ max_line

abbrev pub joined : List Bytes → Bytes
joined [] = []
joined (block ∷ blocks) = block ++ joined blocks

-- What storing received bytes promises: as many of them as there is room for are appended, rotated.
pub record Stored (b : SocketBuffer) (cs : Bytes) (b' : SocketBuffer) : Type 0 where
  pub valid : IsValid b'
  pub bytes : contents b' ≡ contents b ++ take (max_line - b.write_index) (map rot13_char cs)
  pub owner : b'.connect_fd ≡ b.connect_fd

store_byte-bytes :
    (b : SocketBuffer) (c : ℕ)
    → b.write_index < max_line
    → IsValid b
    → contents (store_byte b c) ≡ contents b ++ (rot13_char c ∷ [])
unfolding store_byte
store_byte-bytes b c h v = ground (
  arith,
  window-set_next b.read_index b.write_index b.buffer (rot13_char c) v.order
      (omega (arith, v.block)),
)

store_byte-next :
    (b : SocketBuffer) (c : ℕ)
    → b.write_index < max_line
    → IsValid b
    → IsValid (store_byte b c)
      × ((store_byte b c).write_index ≡ b.write_index + 1)
      × ((store_byte b c).connect_fd ≡ b.connect_fd)
unfolding store_byte
store_byte-next b c h v =
    ground (arith, v.block, v.order, length-set b.buffer b.write_index (rot13_char c))

store_byte-full :
    (b : SocketBuffer) (c : ℕ)
    → b.write_index ≡ max_line
    → IsValid b
    → IsValid (store_byte b c)
      × ((store_byte b c).write_index ≡ max_line)
      × ((store_byte b c).connect_fd ≡ b.connect_fd)
      × (contents (store_byte b c) ≡ contents b)
unfolding store_byte
store_byte-full b c h v = ground (arith, v.block, v.order)

pub store_bytes-Stored :
    (b : SocketBuffer) (cs : Bytes) → IsValid b → Stored b cs (store_bytes b cs)
unfolding store_bytes
store_bytes-Stored b [] v = record {
  valid = v;
  bytes =
      sym (append-nil (contents b))
      ∙ ap (λ xs. contents b ++ xs) (sym (take-of_ge (max_line - b.write_index) [] (omega arith)));
  owner = refl;
}
store_bytes-Stored b (c ∷ cs) v = elim (le-cases (b.write_index + 1) max_line) [
  | inl h ↦
      let (valid, w, owner) = store_byte-next b c (omega arith) v in
      let s = store_bytes-Stored (store_byte b c) cs valid in
      record {
        valid = s.valid;
        bytes =
            s.bytes
            ∙ ap₂ ◌++◌ (store_byte-bytes b c (omega arith) v)
                (ap (λ k. take (max_line - k) (map rot13_char cs)) w)
            ∙ append_assoc (contents b) (rot13_char c ∷ [])
                (take (max_line - (b.write_index + 1)) (map rot13_char cs))
            ∙ ap (λ k. contents b ++ take k (rot13_char c ∷ map rot13_char cs))
                {x = suc (max_line - (b.write_index + 1))} (omega arith);
        owner = s.owner ∙ owner;
      }
  | inr h ↦
      let full : b.write_index ≡ max_line = omega arith in
      let (valid, w, owner, same) = store_byte-full b c full v in
      let s = store_bytes-Stored (store_byte b c) cs valid in
      record {
        valid = s.valid;
        bytes =
            s.bytes
            ∙ ap₂ ◌++◌ same (ap (λ k. take (max_line - k) (map rot13_char cs)) w)
            ∙ ap (λ k. contents b ++ take (max_line - k) (rot13_char c ∷ map rot13_char cs))
                {x = max_line} (sym full);
        owner = s.owner ∙ owner;
      }
]

store_bytes-append :
    (b : SocketBuffer) (xs ys : Bytes)
    → store_bytes b (xs ++ ys) ≡ store_bytes (store_bytes b xs) ys
unfolding store_bytes
store_bytes-append b [] ys = refl
store_bytes-append b (c ∷ xs) ys = store_bytes-append (store_byte b c) xs ys

abbrev pub read_result : Stop → ℤ
read_result end_of_file = pos 1
read_result would_block = pos 0
read_result broken = minus_one

pub on_socket_read-joined :
    (blocks : List Bytes) (stop : Stop) (b : SocketBuffer)
    → on_socket_read blocks stop b ≡ (read_result stop, store_bytes b (joined blocks))
unfolding on_socket_read
on_socket_read-joined [] end_of_file b = refl
on_socket_read-joined [] would_block b = refl
on_socket_read-joined [] broken b = refl
on_socket_read-joined (block ∷ blocks) stop b =
    on_socket_read-joined blocks stop (store_bytes b block)
    ∙ ap (λ x. (read_result stop, x)) (sym (store_bytes-append b block (joined blocks)))
