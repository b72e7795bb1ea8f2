-- ===== src/NonblockingServer/Sending.antt =====
-- A round of the loop neither loses nor repeats a byte that was stored.
use yolanda.Rot13.{rot13_char}
use yolanda.Prelude.Slices.{take-take, window-advance, take-append-drop}
use yolanda.Prelude.Int.{pos, ℤ, minus_one, negsuc}
use yolanda.NonblockingServer.Buffering.{
  IsValid, contents, joined, store_bytes-Stored, on_socket_read-joined,
}
use yolanda.Memory.{Bytes}
use yolanda.NonblockingServer.{
  SocketBuffer, on_socket_write, Stop, drained, would_block, Readiness, max_line, read_client,
  serve_client, write_client, close_if_done, is_zero,
}
use yolanda.Prelude.{
  ◌-◌, ◌≤◌, ◌≡◌, ◌∷◌, ◌++◌, false, ℕ, List, arith, ltb, [], ◌+◌, ◌∙◌, refl, sym, ap₂, subst, inl,
  inr, true, Bool-cases, append_assoc, take, drop, ap, none, some, Option, append-nil, map, zero,
  suc,
}

-- `send` takes at most the bytes that it is given.
abbrev pub Fit : List ℕ → ℕ → Type 0
Fit [] left = Unit {0}
Fit (n ∷ counts) left = (n ≤ left) × Fit counts (left - n)

-- What sending promises: the bytes sent are the first of those that were stored, and the others stay.
pub record Sent (b : SocketBuffer) (sent : Bytes) (b' : SocketBuffer) : Type 0 where
  pub valid : IsValid b'
  pub bytes : sent ++ contents b' ≡ contents b

drained-Sent :
    (b : SocketBuffer) → IsValid b → ltb b.read_index b.write_index ≡ false → Sent b [] (drained b)
unfolding drained
drained-Sent b v h =
    let e : b.read_index ≡ b.write_index = ground arith in
    record {
      valid = ground (arith, e, v.block);
      bytes =
          ap (λ k. take k (drop (drained b).read_index b.buffer))
            {x = (drained b).write_index - (drained b).read_index} {y = 0} (ground (arith, e))
          ∙ ap (λ k. take k (drop b.read_index b.buffer)) {x = 0} (omega (arith, e));
    }

abbrev pub IsSent : SocketBuffer → ℤ × Bytes × SocketBuffer → Type 0
IsSent b (result, sent, b') = Sent b sent b'

write_idle :
    (counts : List ℕ) (stop : Stop) (b : SocketBuffer)
    → ltb b.read_index b.write_index ≡ false
    → on_socket_write counts stop b ≡ (pos 0, [], drained b)
unfolding on_socket_write
write_idle [] stop b e = ground (arith, e)
write_idle (n ∷ counts) stop b e = ground (arith, e)

write_stopped :
    (stop : Stop) (b : SocketBuffer)
    → ltb b.read_index b.write_index ≡ true
    → (r : ℤ) × (on_socket_write [] stop b ≡ (r, [], b))
unfolding on_socket_write
write_stopped stop b e = (elim stop [ would_block ↦ pos 0 | _ ↦ minus_one ], ground (arith, e))

after_count : ℕ → SocketBuffer → ℤ × Bytes × SocketBuffer → ℤ × Bytes × SocketBuffer
after_count n b (result, sent, b') = (result, take n (drop b.read_index b.buffer) ++ sent, b')

write_more :
    (n : ℕ) (counts : List ℕ) (stop : Stop) (b : SocketBuffer)
    → ltb b.read_index b.write_index ≡ true
    → on_socket_write (n ∷ counts) stop b
      ≡ after_count n b (on_socket_write counts stop (record b { read_index = b.read_index + n }))
unfolding on_socket_write after_count
write_more n counts stop b e = ground (arith, e)

after_count-IsSent :
    (n : ℕ) (b : SocketBuffer) (t : ℤ × Bytes × SocketBuffer)
    → n ≤ b.write_index - b.read_index
    → IsSent (record b { read_index = b.read_index + n }) t
    → IsSent b (after_count n b t)
unfolding after_count
after_count-IsSent n b (result, sent, b') h s = record {
  valid = s.valid;
  bytes =
      append_assoc (take n (drop b.read_index b.buffer)) sent (contents b')
      ∙ ap₂ ◌++◌ (sym (take-take n (b.write_index - b.read_index) (drop b.read_index b.buffer) h))
          (s.bytes ∙ window-advance b.read_index b.write_index n b.buffer h)
      ∙ take-append-drop n (contents b);
}

pub on_socket_write-IsSent :
    (counts : List ℕ) (stop : Stop) (b : SocketBuffer)
    → IsValid b
    → Fit counts (b.write_index - b.read_index)
    → IsSent b (on_socket_write counts stop b)
on_socket_write-IsSent [] stop b v f = elim (Bool-cases (ltb b.read_index b.write_index)) [
  | inl e ↦
      let (r, q) = write_stopped stop b e in
      subst (IsSent b) (sym q) (record { valid = v; bytes = refl })
  | inr e ↦ subst (IsSent b) (sym (write_idle [] stop b e)) (drained-Sent b v e)
]
on_socket_write-IsSent (n ∷ counts) stop b v f =
    elim (Bool-cases (ltb b.read_index b.write_index)) [
      | inl e ↦
          let b₁ = record b { read_index = b.read_index + n } in
          let v₁ : IsValid b₁ = record {
            block = v.block;
            order = omega (arith, f.0);
            within = v.within;
          } in
          let f₁ : Fit counts (b₁.write_index - b₁.read_index) =
            subst (Fit counts) (omega arith) f.1 in
          subst (IsSent b) (sym (write_more n counts stop b e)) (
            after_count-IsSent n b (on_socket_write counts stop b₁) f.0
              (on_socket_write-IsSent counts stop b₁ v₁ f₁))
      | inr e ↦ subst (IsSent b) (sym (write_idle (n ∷ counts) stop b e)) (drained-Sent b v e)
    ]

-- What is stored of a client's bytes in a round.
abbrev pub rotated_part : Option (List Bytes × Stop) → SocketBuffer → Bytes
rotated_part none b = []
rotated_part (some (blocks, stop)) b =
    take (max_line - b.write_index) (map rot13_char (joined blocks))

abbrev pub FitAll : Option (List ℕ × Stop) → SocketBuffer → Type 0
FitAll none b = Unit {0}
FitAll (some (counts, stop)) b = Fit counts (b.write_index - b.read_index)

pub read_client-bytes :
    (receives : Option (List Bytes × Stop)) (b : SocketBuffer)
    → IsValid b
    → let b₁ = (read_client receives b).1 in
      IsValid b₁ × (contents b₁ ≡ contents b ++ rotated_part receives b)
unfolding read_client
read_client-bytes none b v = (v, sym (append-nil (contents b)))
read_client-bytes (some (blocks, stop)) b v =
    let s = store_bytes-Stored b (joined blocks) v in
    subst (λ t. IsValid t.1 × (contents t.1 ≡ contents b ++ rotated_part (some (blocks, stop)) b))
      (sym (on_socket_read-joined blocks stop b)) (s.valid, s.bytes)

write_client-IsSent :
    (sends : Option (List ℕ × Stop)) (r : ℤ) (b : SocketBuffer)
    → IsValid b
    → FitAll sends b
    → IsSent b (write_client sends r b)
unfolding write_client
write_client-IsSent none r b v f = record { valid = v; bytes = refl }
write_client-IsSent (some (counts, stop)) r b v f = elim (Bool-cases (is_zero r)) [
  | inl e ↦ rw e (on_socket_write-IsSent counts stop b v f)
  | inr e ↦ rw e (record { valid = v; bytes = refl })
]

close_if_done-bytes :
    (b : SocketBuffer) (t : ℤ × Bytes × SocketBuffer)
    → IsSent b t
    → let (sent, closes, b') = close_if_done t in IsValid b' × (sent ++ contents b' ≡ contents b)
unfolding close_if_done
close_if_done-bytes b (pos zero, sent, b') s = (s.valid, s.bytes)
close_if_done-bytes b (pos (suc n), sent, b') s =
    (record { block = s.valid.block; order = s.valid.order; within = s.valid.within }, s.bytes)
close_if_done-bytes b (negsuc n, sent, b') s =
    (record { block = s.valid.block; order = s.valid.order; within = s.valid.within }, s.bytes)

-- In a round of the loop no byte of a client is lost but those that its full buffer has no room for:
-- the bytes sent and those that are still stored are the ones stored before, followed by the rotation
-- of those received, as many as there is room for; and the buffer stays valid.
pub serve_client-conserves :
    (ready : Readiness) (b : SocketBuffer)
    → IsValid b
    → FitAll ready.sends (read_client ready.receives b).1
    → let (sent, closes, b') = serve_client ready b in
      IsValid b' × (sent ++ contents b' ≡ contents b ++ rotated_part ready.receives b)
unfolding serve_client
serve_client-conserves ready b v f =
    let (r, b₁) = read_client ready.receives b in
    let (v₁, grown) = read_client-bytes ready.receives b v in
    let (valid, bytes) =
      close_if_done-bytes b₁ (write_client ready.sends r b₁)
        (write_client-IsSent ready.sends r b₁ v₁ f) in
    (valid, bytes ∙ grown)
