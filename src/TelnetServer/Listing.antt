-- ===== src/TelnetServer/Listing.antt =====
-- What a client is sent for `ls`.
use yolanda.Memory.{Bytes, memcpy, memcpy-ok}
use yolanda.Fgets.{fgets, IsText, c_str-IsText, fgets-Taken, fgets-takes, append-IsText}
use yolanda.Http.Text.{codes}
use yolanda.Outcome.{Outcome, ok, ◌>>=◌}
use yolanda.Prelude.{
  ◌+◌, ◌≡◌, ◌≤◌, ◌<◌, ◌∙◌, ◌∷◌, ◌++◌, ◌⊎◌, inl, inr, refl, sym, ap, ap₂, some, ℕ, arith, zero, suc,
  length, [], take, drop, replicate, length-append, append_assoc, length-drop, append-nil, subst,
}
use yolanda.Prelude.Slices.{take-append_length, drop-append_ge, drop-drop}
use yolanda.TelnetServer.{
  Shell, copy_output, run_cmd, until_zero, sent, list_directory, on_input, run_command, same_start,
}

memcpy-append :
    (front back src : Bytes)
    → length src ≤ length back
    → memcpy (front ++ back) (length front) src ≡ ok ((front ++ src) ++ drop (length src) back)
memcpy-append front back src h =
    memcpy-ok (front ++ back) (length front) src (omega (arith, length-append front back))
    ∙ ap₂ (λ x y. ok (x ++ (src ++ y))) (take-append_length (length front) front back refl)
        (drop-append_ge (length front + length src) front back (omega arith)
          ∙ ap (λ n. drop n back) (omega arith))
    ∙ ap ok (sym (append_assoc front src (drop (length src) back)))

copy_output-IsText :
    (fuel : ℕ) (front back text : Bytes)
    → length text ≤ fuel
    → IsText text
    → length text ≤ length back
    → copy_output fuel (length front) (front ++ back) text
      ≡ ok ((front ++ text) ++ drop (length text) back)
unfolding copy_output
copy_output-IsText fuel front back [] h t k = ap (λ xs. ok (xs ++ back)) (sym (append-nil front))
copy_output-IsText zero front back (c ∷ cs) h t k = absurd (omega arith)
copy_output-IsText (suc fuel) front back (c ∷ cs) h t k =
    let line = (fgets 255 (c ∷ cs)).0 in
    let left = (fgets 255 (c ∷ cs)).1 in
    let l = fgets-Taken 255 (c ∷ cs) t in
    let some_taken = fgets-takes 254 c cs in
    let split = ap length (sym l.whole) ∙ length-append line left in
    let copied = memcpy-append front back line (omega (arith, split)) in
    let rest =
      copy_output-IsText fuel (front ++ line) (drop (length line) back) left
        (omega (arith, split, some_taken)) l.left
        (omega (arith, split, length-drop (length line) back)) in
    ap
      (λ z. memcpy (front ++ back) (length front) z >>= λ b.
        copy_output fuel (length front + length z) b left)
      (c_str-IsText line l.taken)
    ∙ ap (λ o. o >>= λ b. copy_output fuel (length front + length line) b left) copied
    ∙ ap (λ n. copy_output fuel n ((front ++ line) ++ drop (length line) back) left)
        (sym (length-append front line))
    ∙ rest
    ∙ ap₂ (λ x y. ok (x ++ y)) (append_assoc front line left ∙ ap (λ xs. front ++ xs) l.whole)
        (drop-drop (length left) (length line) back ∙ ap (λ n. drop n back) (sym split))

until_zero-IsText : (text rest : Bytes) → IsText text → until_zero (text ++ zero ∷ rest) ≡ ok text
unfolding until_zero
until_zero-IsText [] rest t = refl
until_zero-IsText (zero ∷ cs) rest t = absurd t
until_zero-IsText (suc c ∷ cs) rest t =
    ap (λ o. o >>= λ more. ok (suc c ∷ more)) (until_zero-IsText cs rest t)

module _ {S : Type 0} (sys : Shell S) where
  -- What is sent if the directory is listed.
  list_directory_lem :
      (s : S) (text junk beyond : Bytes)
      → sys.popen_ls s ≡ some text
      → IsText text
      → IsText junk
      → length text < 16384
      → length (sys.malloc 16384 s) ≡ 16384
      → drop (length text) (replicate 8 0 ++ drop 8 (sys.malloc 16384 s)) ≡ junk ++ zero ∷ beyond
      → list_directory sys s ≡ sent sys (text ++ junk) s
  unfolding list_directory run_cmd
  list_directory_lem s text junk beyond prints t j small size behind =
      let fresh = sys.malloc 16384 s in
      let copied =
        copy_output-IsText (length text) [] (replicate 8 0 ++ drop 8 fresh) text (omega arith) t (
          omega (
            arith,
            small,
            size,
            length-append (replicate 8 0) (drop 8 fresh),
            length-drop 8 fresh,
          )) in
      let run : run_cmd (some text) fresh ≡ ok (text ++ (junk ++ zero ∷ beyond)) =
        ap (λ o. o >>= λ block. copy_output (length text) 0 block text)
          (memcpy-ok fresh 0 (replicate 8 0) (omega (arith, size)))
        ∙ copied
        ∙ ap (λ z. ok (text ++ z)) behind in
      let next : Bytes → Outcome S = λ result. until_zero result >>= λ z. sent sys z s in
      ap (λ o. run_cmd o fresh >>= next) prints
      ∙ ap (λ o. o >>= next) run
      ∙ ap next (sym (append_assoc text junk (zero ∷ beyond)))
      ∙ ap (λ o. o >>= λ z. sent sys z s)
          (until_zero-IsText (text ++ junk) beyond (append-IsText text junk t j))

  asked_for :
      (input rest : Bytes)
      → 0 < length input
      → input ++ rest ≡ codes "ls"
      → (input ≡ 108 ∷ []) ⊎ (input ≡ 108 ∷ 115 ∷ [])
  asked_for [] rest h e = absurd (omega arith)
  asked_for (a ∷ []) rest h e = inl (ap (take 1) e)
  asked_for (a ∷ b ∷ []) rest h e = inr (ap (take 2) e)
  asked_for (a ∷ b ∷ c ∷ cs) rest h e = absurd (omega (arith, ap length e))

  on_input-asked :
      (input rest : Bytes) (s : S)
      → 0 < length input
      → input ++ rest ≡ codes "ls"
      → on_input sys input s ≡ list_directory sys s
  unfolding on_input run_command same_start
  on_input-asked input rest s h e = elim (asked_for input rest h e) [
    | inl one ↦ subst (λ z. on_input sys z s ≡ list_directory sys s) (sym one) refl
    | inr both ↦ subst (λ z. on_input sys z s ≡ list_directory sys s) (sym both) refl
  ]

  -- If a client sends `ls` or only its first letter, and the output of the command has no zero and is
  -- shorter than 16384 bytes: it is sent the output, and then what stood in the new block behind it,
  -- of which only the first 8 bytes have been cleared, up to a zero.
  pub on_input-ls :
      (input rest : Bytes) (s : S) (text junk beyond : Bytes)
      → 0 < length input
      → input ++ rest ≡ codes "ls"
      → sys.popen_ls s ≡ some text
      → IsText text
      → IsText junk
      → length text < 16384
      → length (sys.malloc 16384 s) ≡ 16384
      → drop (length text) (replicate 8 0 ++ drop 8 (sys.malloc 16384 s)) ≡ junk ++ zero ∷ beyond
      → on_input sys input s ≡ sent sys (text ++ junk) s
  on_input-ls input rest s text junk beyond h e prints t j small size behind =
      on_input-asked input rest s h e
      ∙ list_directory_lem s text junk beyond prints t j small size behind
