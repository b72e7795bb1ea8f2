-- ===== src/Read/Exact.antt =====
-- `readn` and `readline_2` against the bytes that a stream delivers.
use yolanda.Outcome.{int_max}
use yolanda.Prelude.Slices.{take-append_ge, take-append_le}
use yolanda.Memory.{Bytes}
use yolanda.Read.{
  Stream, prepend, readn, ReadResult, readn_loop, bytes, done, piece, interrupted, eof, push_back,
  broken, failed,
}
use yolanda.Prelude.{
  ◌+◌, ◌-◌, ◌≤◌, ◌<◌, ◌≡◌, ◌∙◌, ◌∷◌, ◌++◌, refl, sym, ap, subst, inl, inr, ℕ, arith, zero, suc,
  le-cases, length, [], take, length-append, drop, le→leb, lt→leb_false, length-take, ◌%◌, ◌⊎◌,
  true, false, Bool,
}

-- The bytes that arrive before the stream ends or breaks. Interruptions do not show.
abbrev pub available : Stream → Bytes
available [] = []
available (bytes c cs ∷ s) = piece c cs ++ available s
available (interrupted ∷ s) = available s
available (eof ∷ s) = []
available (broken ∷ s) = []

-- Whether an error comes before the stream ends.
abbrev pub breaks : Stream → Bool
breaks [] = false
breaks (bytes c cs ∷ s) = breaks s
breaks (interrupted ∷ s) = breaks s
breaks (eof ∷ s) = false
breaks (broken ∷ s) = true

-- The loop's result, with `missing` of `size` bytes to be read.
abbrev IsRest : ℕ → ℕ → Stream → ReadResult → Type 0
IsRest size missing s (done n ds s') =
    (ds ≡ take missing (available s))
    × (n + missing ≡ size + length ds)
    × ((length ds ≡ missing) ⊎ (breaks s ≡ false))
IsRest size missing s (failed ds s') =
    (ds ≡ available s) × (length ds < missing) × (breaks s ≡ true)

prepend-IsRest :
    (size missing : ℕ) (c : ℕ) (cs : Bytes) (s : Stream) (r : ReadResult)
    → length (piece c cs) < missing
    → missing ≤ size
    → IsRest size (missing - length (piece c cs)) s r
    → IsRest size missing (bytes c cs ∷ s) (prepend (piece c cs) r)
unfolding prepend
prepend-IsRest size missing c cs s (done n ds s') h k i = (
  ap (◌++◌ (piece c cs)) i.0
      ∙ sym (take-append_ge missing (piece c cs) (available s) (omega arith)),
  omega (arith, i.1, length-append (piece c cs) ds),
  elim i.2 [
    | inl all ↦ inl (length-append (piece c cs) ds ∙ omega (arith, all, h))
    | inr ended ↦ inr ended
  ],
)
prepend-IsRest size missing c cs s (failed ds s') h k i =
    (ap (◌++◌ (piece c cs)) i.0, omega (arith, i.1, length-append (piece c cs) ds), i.2)

-- A piece that has all the missing bytes ends the loop, and a shorter one is put before the rest.
pub readn_loop-full :
    (size m c : ℕ) (cs : Bytes) (s : Stream)
    → suc m ≤ length (piece c cs)
    → readn_loop size (suc m) (bytes c cs ∷ s)
      ≡ done size (take (suc m) (piece c cs)) (push_back (drop (suc m) (piece c cs)) s)
unfolding readn_loop
readn_loop-full size m c cs s full = rw (le→leb (suc m) (length (piece c cs)) full, readn_loop)

pub readn_loop-short :
    (size m c : ℕ) (cs : Bytes) (s : Stream)
    → length (piece c cs) < suc m
    → readn_loop size (suc m) (bytes c cs ∷ s)
      ≡ prepend (piece c cs) (readn_loop size (suc m - length (piece c cs)) s)
unfolding readn_loop prepend
readn_loop-short size m c cs s short =
    rw (lt→leb_false (suc m) (length (piece c cs)) short, readn_loop)

readn_loop-IsRest :
    (size missing : ℕ) (s : Stream)
    → missing ≤ size
    → IsRest size missing s (readn_loop size missing s)
unfolding readn_loop
readn_loop-IsRest size zero s h = (refl, omega arith, inl refl)
readn_loop-IsRest size (suc m) [] h = (refl, omega arith, inr refl)
readn_loop-IsRest size (suc m) (eof ∷ s) h = (refl, omega arith, inr refl)
readn_loop-IsRest size (suc m) (interrupted ∷ s) h = readn_loop-IsRest size (suc m) s h
readn_loop-IsRest size (suc m) (broken ∷ s) h = (refl, omega arith, refl)
readn_loop-IsRest size (suc m) (bytes c cs ∷ s) h = elim (le-cases (suc m) (length (piece c cs))) [
  | inl full ↦
      subst (IsRest size (suc m) (bytes c cs ∷ s)) (sym (readn_loop-full size m c cs s full)) (
        sym (take-append_le (suc m) (piece c cs) (available s) full),
        omega (arith, length-take (suc m) (piece c cs)),
        inl (length-take (suc m) (piece c cs) ∙ omega (arith, full)),
      )
  | inr short ↦
      subst (IsRest size (suc m) (bytes c cs ∷ s)) (sym (readn_loop-short size m c cs s short)) (
        prepend-IsRest size (suc m) c cs s _ short h
          (readn_loop-IsRest size (suc m - length (piece c cs)) s (omega arith)))
]

-- What `readn` promises of its result.
abbrev pub IsRead : ℕ → Stream → ReadResult → Type 0
IsRead size s (done n ds s') =
    (ds ≡ take size (available s)) × (n ≡ length ds) × ((n ≡ size) ⊎ (breaks s ≡ false))
IsRead size s (failed ds s') = (ds ≡ available s) × (length ds < size) × (breaks s ≡ true)

pub readn-loop : (size : ℕ) (s : Stream) → size ≤ int_max → readn size s ≡ readn_loop size size s
unfolding readn
readn-loop size s h = let e : size % 4294967296 ≡ size = omega arith in ground (arith, e)

-- For a size that an `int` can hold, `readn` stores the bytes that arrive, up to the number asked
-- for, in order and whatever the pieces and the interruptions. It returns how many it stored, fewer
-- than asked for only if the stream ends without an error, and it fails only if an error comes, and
-- fewer have arrived before it.
pub readn-IsRead : (size : ℕ) (s : Stream) → size ≤ int_max → IsRead size s (readn size s)
readn-IsRead size s h =
    subst (IsRead size s) (sym (readn-loop size s h))
      (same (readn_loop size size s) (readn_loop-IsRest size size s (omega arith)))
  where
    same : (r : ReadResult) → IsRest size size s r → IsRead size s r
    same (done n ds s') i = (
      i.0,
      omega (arith, i.1),
      elim i.2 [ inl all ↦ inl (omega (arith, i.1, all)) | inr ended ↦ inr ended ],
    )
    same (failed ds s') i = i
