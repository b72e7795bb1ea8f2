-- ===== src/Buffer/Search.antt =====
-- `buffer_find_CRLF`: the first line end among the readable bytes, or none if there is none.
use yolanda.Outcome.{ok}
use yolanda.Buffer.Contents.{IsValid, contents}
use yolanda.Prelude.{
  ℕ, ◌≡◌, get_elem?, none, some, ◌∷◌, suc, ◌<◌, ◌⊎◌, inl, ◌+◌, arith, inr, [], zero, Option,
  Option-cases, subst, sym, ◌∙◌, refl,
}
use yolanda.Memory.{Bytes}
use yolanda.Buffer.{find_crlf, cr, lf, Buffer, buffer_find_crlf}

-- A carriage return at offset k, and a line feed after it.
abbrev pub CrlfAt : Bytes → ℕ → Type 0
CrlfAt xs k = (get_elem? xs k ≡ some cr) × (get_elem? xs (suc k) ≡ some lf)

find_crlf-cons :
    (c d : ℕ) (rest : Bytes)
    → ((CrlfAt (c ∷ d ∷ rest) 0) × (find_crlf (c ∷ d ∷ rest) ≡ some 0))
      ⊎ ((¬ CrlfAt (c ∷ d ∷ rest) 0)
          × (find_crlf (c ∷ d ∷ rest)
              ≡ elim (find_crlf (d ∷ rest)) [ none ↦ none | some k ↦ some (k + 1) ]))
unfolding find_crlf
find_crlf-cons c d rest = ground arith

pub find_crlf-none : (xs : Bytes) → find_crlf xs ≡ none → (j : ℕ) → ¬ CrlfAt xs j
unfolding find_crlf
find_crlf-none [] h j at = cc
find_crlf-none (c ∷ []) h zero at = cc
find_crlf-none (c ∷ []) h (suc j) at = cc
find_crlf-none (c ∷ d ∷ rest) h zero at = elim (find_crlf-cons c d rest) [
  | inl (_, e) ↦ cc
  | inr (n, e) ↦ n at
]
find_crlf-none (c ∷ d ∷ rest) h (suc j) at =
    find_crlf-none (d ∷ rest) (ground (arith, find_crlf-cons c d rest)) j at

-- The offset found is that of a line end, and no line end stands before it.
abbrev pub FirstAt : Bytes → ℕ → Type 0
FirstAt xs k = CrlfAt xs k × ((j : ℕ) → j < k → ¬ CrlfAt xs j)

FirstAt-cons :
    (c : ℕ) (xs : Bytes) (k : ℕ) → ¬ CrlfAt (c ∷ xs) 0 → FirstAt xs k → FirstAt (c ∷ xs) (suc k)
FirstAt-cons c xs k n (at, first) = (at, before)
  where
    before : (j : ℕ) → j < suc k → ¬ CrlfAt (c ∷ xs) j
    before zero h = n
    before (suc j) h = first j (omega arith)

pub find_crlf-some : (xs : Bytes) (k : ℕ) → find_crlf xs ≡ some k → FirstAt xs k
unfolding find_crlf
find_crlf-some [] k h = cc
find_crlf-some (c ∷ []) k h = cc
find_crlf-some (c ∷ d ∷ rest) k h = elim (find_crlf-cons c d rest) [
  | inl (here, e) ↦
      let z : 0 ≡ k = ground arith in
      subst (FirstAt (c ∷ d ∷ rest)) z (here, λ j lt. absurd (omega arith))
  | inr (n, e) ↦ later n (find_crlf (d ∷ rest)) (find_crlf-some (d ∷ rest)) refl (sym e ∙ h)
]
  where
    later :
        ¬ CrlfAt (c ∷ d ∷ rest) 0
        → (o : Option ℕ) → ((i : ℕ) → find_crlf (d ∷ rest) ≡ some i → FirstAt (d ∷ rest) i)
        → find_crlf (d ∷ rest) ≡ o
        → (elim o [ none ↦ none | some i ↦ some (i + 1) ]) ≡ some k
        → FirstAt (c ∷ d ∷ rest) k
    later n none ih e q = cc
    later n (some i) ih e q =
        let z : suc i ≡ k = ground arith in
        subst (FirstAt (c ∷ d ∷ rest)) z (FirstAt-cons c (d ∷ rest) i n (ih i e))

-- What a search for a line end may answer.
pub data Found (xs : Bytes) (answer : Option ℕ) : Type 0 where
  first : (k : ℕ) → answer ≡ some k → FirstAt xs k → Found xs answer
  nowhere : answer ≡ none → ((j : ℕ) → ¬ CrlfAt xs j) → Found xs answer

find_crlf-Found : (xs : Bytes) → Found xs (find_crlf xs)
find_crlf-Found xs = elim (Option-cases (find_crlf xs)) [
  | inl e ↦ nowhere e (find_crlf-none xs e)
  | inr (k, e) ↦ first k e (find_crlf-some xs k e)
]

pub buffer_find_crlf-contents :
    (b : Buffer) → IsValid b → buffer_find_crlf b ≡ ok (find_crlf (contents b))
unfolding buffer_find_crlf
buffer_find_crlf-contents b v = ground arith

-- On a valid buffer the search succeeds, and answers with the offset of the first line end among
-- the readable bytes, or with none if there is no line end among them.
pub buffer_find_crlf-Found :
    (b : Buffer)
    → IsValid b
    → (answer : Option ℕ) × (buffer_find_crlf b ≡ ok answer) × Found (contents b) answer
buffer_find_crlf-Found b v =
    (find_crlf (contents b), buffer_find_crlf-contents b v, find_crlf-Found (contents b))

pub find_crlf-of_none : (xs : Bytes) → ((j : ℕ) → ¬ CrlfAt xs j) → find_crlf xs ≡ none
find_crlf-of_none xs absent = elim (Option-cases (find_crlf xs)) [
  | inl e ↦ e
  | inr (k, e) ↦ absurd (absent k (find_crlf-some xs k e).0)
]
