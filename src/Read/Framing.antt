-- ===== src/Read/Framing.antt =====
-- A message that arrives whole.
use yolanda.Read.Exact.{readn-loop}
use yolanda.Outcome.{int_max}
use yolanda.Prelude.Slices.{take-of_ge}
use yolanda.Memory.{Bytes}
use yolanda.Read.{
  read_message, readn, after_length, readn_loop, after_type, Stream, read_record, bytes, ntohl,
  done, push_back,
}
use yolanda.Prelude.{◌≤◌, ◌<◌, ◌≡◌, ◌∷◌, refl, ℕ, arith, zero, suc, length, [], drop, take, ◌∙◌}

readn-piece :
    (size c : ℕ) (cs : Bytes) (s : Stream)
    → 0 < size
    → size ≤ int_max
    → size ≤ length (c ∷ cs)
    → readn size (bytes c cs ∷ s)
      ≡ done size (take size (c ∷ cs)) (push_back (drop size (c ∷ cs)) s)
unfolding readn_loop
readn-piece zero c cs s p small h = absurd (omega arith)
readn-piece (suc n) c cs s p small h = readn-loop (suc n) (bytes c cs ∷ s) small ∙ ground arith

-- A message that arrives in one piece, with a record that is not empty, fits into the buffer and an
-- `int`, and is
-- as long as its first four bytes say, is read whole: the record is stored, its length returned, and
-- what comes after the piece is left.
pub read_message-whole :
    (room l₁ l₂ l₃ l₄ t₁ t₂ t₃ t₄ c : ℕ) (cs : Bytes) (s : Stream)
    → ntohl (l₁ ∷ l₂ ∷ l₃ ∷ l₄ ∷ []) ≡ length (c ∷ cs)
    → length (c ∷ cs) ≤ room
    → length (c ∷ cs) ≤ int_max
    → read_message room (bytes l₁ (l₂ ∷ l₃ ∷ l₄ ∷ t₁ ∷ t₂ ∷ t₃ ∷ t₄ ∷ c ∷ cs) ∷ s)
      ≡ done (length (c ∷ cs)) (c ∷ cs) s
unfolding read_message after_length after_type read_record
read_message-whole room l₁ l₂ l₃ l₄ t₁ t₂ t₃ t₄ c cs s e h small =
    let r₁ =
      readn-piece 4 l₁ (l₂ ∷ l₃ ∷ l₄ ∷ t₁ ∷ t₂ ∷ t₃ ∷ t₄ ∷ c ∷ cs) s (omega arith) (omega arith)
        (omega arith) in
    let r₂ = readn-piece 4 t₁ (t₂ ∷ t₃ ∷ t₄ ∷ c ∷ cs) s (omega arith) (omega arith) (omega arith) in
    let r₃ = readn-piece (length (c ∷ cs)) c cs s (omega arith) (omega arith) (omega arith) in
    let all = take-of_ge (length (c ∷ cs)) (c ∷ cs) (omega arith) in
    let none_left = drop-all (c ∷ cs) in ground (arith, r₁, r₂, r₃, all, none_left)
  where
    drop-all : (xs : Bytes) → drop (length xs) xs ≡ []
    drop-all [] = refl
    drop-all (x ∷ xs) = drop-all xs
