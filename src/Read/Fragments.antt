-- ===== src/Read/Fragments.antt =====
-- A message that arrives in any pieces.
use yolanda.Outcome.{int_max}
use yolanda.Memory.{Bytes}
use yolanda.Read.{
  read_message, readn, after_length, readn_loop, after_type, Stream, read_record, bytes, ntohl, eof,
  interrupted, broken, done, push_back, piece, prepend,
}
use yolanda.Read.Exact.{available, readn-loop, readn_loop-full, readn_loop-short}
use yolanda.Prelude.Slices.{
  take-append_ge, take-append_le, take-append_length, drop-append_le, drop-append_length,
  drop-append_ge,
}
use yolanda.Prelude.{
  ◌+◌, ◌-◌, ◌≤◌, ◌≡◌, ◌∙◌, ◌∷◌, ◌++◌, refl, sym, ap, inl, inr, ℕ, arith, zero, suc, le-cases,
  length, [], take, length-append, drop,
}

-- No read fails before the stream ends.
abbrev pub IsIntact : Stream → Type 0
IsIntact [] = Unit
IsIntact (bytes c cs ∷ s) = IsIntact s
IsIntact (interrupted ∷ s) = IsIntact s
IsIntact (eof ∷ s) = Unit
IsIntact (broken ∷ s) = ⊥

-- `s'` is what is left of `s` when the first `n` bytes have been read.
pub record After (n : ℕ) (s s' : Stream) : Type 0 where
  pub rest : available s' ≡ drop n (available s)
  pub intact : IsIntact s → IsIntact s'

available-push_back : (ds : Bytes) (s : Stream) → available (push_back ds s) ≡ ds ++ available s
available-push_back [] s = refl
available-push_back (c ∷ cs) s = refl

push_back-IsIntact : (ds : Bytes) (s : Stream) → IsIntact s → IsIntact (push_back ds s)
push_back-IsIntact [] s i = i
push_back-IsIntact (c ∷ cs) s i = i

readn_loop-After :
    (size missing : ℕ) (s : Stream)
    → missing ≤ length (available s)
    → missing ≤ size
    → (s' : Stream) × (readn_loop size missing s ≡ done size (take missing (available s)) s')
      × After missing s s'
unfolding readn_loop
readn_loop-After size zero s h k = (s, refl, record { rest = refl; intact = λ i. i })
readn_loop-After size (suc m) [] h k = absurd (omega arith)
readn_loop-After size (suc m) (eof ∷ s) h k = absurd (omega arith)
readn_loop-After size (suc m) (broken ∷ s) h k = absurd (omega arith)
readn_loop-After size (suc m) (interrupted ∷ s) h k =
    let (s', run, a) = readn_loop-After size (suc m) s h k in
    (s', run, record { rest = a.rest; intact = a.intact })
readn_loop-After size (suc m) (bytes c cs ∷ s) h k = elim (le-cases (suc m) (length (piece c cs))) [
  | inl full ↦ (
    push_back (drop (suc m) (piece c cs)) s,
    readn_loop-full size m c cs s full
        ∙ ap (λ ds. done size ds (push_back (drop (suc m) (piece c cs)) s))
            (sym (take-append_le (suc m) (piece c cs) (available s) full)),
    record {
      rest =
          available-push_back (drop (suc m) (piece c cs)) s
          ∙ sym (drop-append_le (suc m) (piece c cs) (available s) full);
      intact = push_back-IsIntact (drop (suc m) (piece c cs)) s;
    },
  )
  | inr short ↦
      let left : length (available (bytes c cs ∷ s)) ≡ length (piece c cs) + length (available s) =
        length-append (piece c cs) (available s) in
      let (s', run, a) =
        readn_loop-After size (suc m - length (piece c cs)) s (omega (arith, left)) (omega arith) in
      (
        s',
        readn_loop-short size m c cs s short
            ∙ ap (prepend (piece c cs)) run
            ∙ ap (λ ds. done size ds s')
                (sym (take-append_ge (suc m) (piece c cs) (available s) (omega arith))),
        record {
          rest = a.rest ∙ sym (drop-append_ge (suc m) (piece c cs) (available s) (omega arith));
          intact = a.intact;
        },
      )
]

-- `readn` of as many bytes as stand before the rest of what is available.
readn-After :
    (n : ℕ) (ds rest : Bytes) (s : Stream)
    → length ds ≡ n
    → n ≤ int_max
    → available s ≡ ds ++ rest
    → (s' : Stream) × (readn n s ≡ done n ds s')
      × (available s' ≡ rest)
      × (IsIntact s → IsIntact s')
readn-After n ds rest s len small e =
    let enough : n ≤ length (available s) =
      omega (arith, len, ap length e, length-append ds rest) in
    let (s', run, a) = readn_loop-After n n s enough (omega arith) in
    (
      s',
      readn-loop n s small
          ∙ run
          ∙ ap (λ z. done n z s') (ap (take n) e ∙ take-append_length n ds rest len),
      a.rest ∙ ap (drop n) e ∙ drop-append_length n ds rest len,
      a.intact,
    )

-- If the next bytes of a stream, in whatever pieces and with whatever interruptions they arrive, are
-- the length of a record in network order, four bytes of type, and the record, which fits into the
-- buffer and an `int`, then `read_message` stores exactly the record, returns its length, and leaves
-- exactly the bytes behind it.
pub read_message-framed :
    (room : ℕ) (size type text rest : Bytes) (s : Stream)
    → length size ≡ 4
    → length type ≡ 4
    → ntohl size ≡ length text
    → length text ≤ room
    → length text ≤ int_max
    → available s ≡ size ++ (type ++ (text ++ rest))
    → (s' : Stream) × (read_message room s ≡ done (length text) text s')
      × (available s' ≡ rest)
      × (IsIntact s → IsIntact s')
unfolding read_message after_length after_type read_record
read_message-framed room size type text rest s four four' counts fits small e =
    let (s₁, run₁, left₁, intact₁) =
      readn-After 4 size (type ++ (text ++ rest)) s four (omega arith) e in
    let (s₂, run₂, left₂, intact₂) =
      readn-After 4 type (text ++ rest) s₁ four' (omega arith) left₁ in
    let (s₃, run₃, left₃, intact₃) = readn-After (length text) text rest s₂ refl small left₂ in
    (s₃, ground (arith, run₁, run₂, run₃, counts, fits), left₃, λ i. intact₃ (intact₂ (intact₁ i)))

-- `readn` of more than nothing, at the end of a stream.
readn_loop-ended :
    (size missing : ℕ) (s : Stream)
    → size ≡ suc missing
    → available s ≡ []
    → IsIntact s
    → (s' : Stream) × (readn_loop size (suc missing) s ≡ done 0 [] s')
unfolding readn_loop
readn_loop-ended size m [] h e i = ([], ground (arith, h))
readn_loop-ended size m (bytes c cs ∷ s) h e i = absurd (omega (arith, ap length e))
readn_loop-ended size m (interrupted ∷ s) h e i = readn_loop-ended size m s h e i
readn_loop-ended size m (eof ∷ s) h e i = (s, ground (arith, h))
readn_loop-ended size m (broken ∷ s) h e i = absurd i

-- At the end of a stream `read_message` returns 0.
pub read_message-ended :
    (room : ℕ) (s : Stream)
    → available s ≡ []
    → IsIntact s
    → (s' : Stream) × (read_message room s ≡ done 0 [] s')
unfolding read_message after_length
read_message-ended room s e i =
    let (s', run) = readn_loop-ended 4 3 s refl e i in
    (s', ap (after_length room) (readn-loop 4 s (omega arith) ∙ run))
