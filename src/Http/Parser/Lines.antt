-- ===== src/Http/Parser/Lines.antt =====
-- The lines of a request, and how they are found.
use yolanda.Memory.{Bytes}
use yolanda.Http.Text.{find_byte, find_pair}
use yolanda.Http.Parser.{space, colon}
use yolanda.Http.Parser.StatusLine.{status_text, drop-behind}
use yolanda.Buffer.{find_crlf, cr, lf}
use yolanda.Prelude.Slices.{drop-drop}
use yolanda.Prelude.{
  Option-cases, inl, inr, ℕ, List, ◌+◌, ◌≡◌, ◌≢◌, ◌∙◌, ◌∷◌, ◌++◌, sym, ap, none, some, arith, suc,
  length, [], drop, length-append,
}

-- The text of headers.
unfoldable pub header_text : List (Bytes × Bytes) → Bytes
header_text [] = []
header_text ((key, value) ∷ hs) = (key ++ colon ∷ space ∷ value) ++ cr ∷ lf ∷ header_text hs

-- No carriage return in a header, and no colon in its key.
abbrev pub AreHeaders : List (Bytes × Bytes) → Type 0
AreHeaders [] = Unit
AreHeaders ((key, value) ∷ hs) =
    (find_byte cr key ≡ none)
    × (find_byte cr value ≡ none)
    × (find_byte colon key ≡ none)
    × AreHeaders hs

pub find_byte-cons :
    (c d : ℕ) (xs : Bytes) → find_byte c (d ∷ xs) ≡ none → (d ≢ c) × (find_byte c xs ≡ none)
unfolding find_byte
find_byte-cons c d xs h = elim (Option-cases (find_byte c xs)) [
  | inl e ↦ (ground (arith, h), e)
  | inr (n, e) ↦ absurd (ground (arith, h, e))
]

pub find_byte-append_none :
    (c : ℕ) (xs ys : Bytes)
    → find_byte c xs ≡ none
    → find_byte c ys ≡ none
    → find_byte c (xs ++ ys) ≡ none
unfolding find_byte
find_byte-append_none c [] ys h k = k
find_byte-append_none c (d ∷ xs) ys h k =
    let (ne, e) = find_byte-cons c d xs h in ground (arith, ne, find_byte-append_none c xs ys e k)

pub find_crlf-line :
    (line rest : Bytes)
    → find_byte cr line ≡ none
    → find_crlf (line ++ cr ∷ lf ∷ rest) ≡ some (length line)
unfolding find_crlf
find_crlf-line [] rest h = ground arith
find_crlf-line (c ∷ []) rest h = let (ne, e) = find_byte-cons cr c [] h in ground (arith, ne)
find_crlf-line (c ∷ d ∷ line) rest h =
    let (ne, e) = find_byte-cons cr c (d ∷ line) h in
    ground (arith, ne, find_crlf-line (d ∷ line) rest e)

pub find_pair-key :
    (a b : ℕ) (key rest : Bytes)
    → find_byte a key ≡ none
    → find_pair a b (key ++ a ∷ b ∷ rest) ≡ some (length key)
unfolding find_pair
find_pair-key a b [] rest h = ground arith
find_pair-key a b (c ∷ []) rest h = let (ne, e) = find_byte-cons a c [] h in ground (arith, ne)
find_pair-key a b (c ∷ d ∷ key) rest h =
    let (ne, e) = find_byte-cons a c (d ∷ key) h in
    ground (arith, ne, find_pair-key a b (d ∷ key) rest e)

pub drop-pair : (xs : Bytes) (c d : ℕ) (ys : Bytes) → drop (length xs + 2) (xs ++ c ∷ d ∷ ys) ≡ ys
drop-pair xs c d ys =
    ap (λ k. drop k (xs ++ c ∷ d ∷ ys)) {x = length xs + 2} {y = length xs + 1 + 1} (omega arith)
    ∙ sym (drop-drop 1 (length xs + 1) (xs ++ c ∷ d ∷ ys))
    ∙ ap (drop 1) (drop-behind xs c (d ∷ ys))

-- A request as it is sent: the status line, the headers and an empty line.
abbrev pub request_text : Bytes → Bytes → Bytes → List (Bytes × Bytes) → Bytes → Bytes
request_text method url version hs tail =
    status_text method url version ++ cr ∷ lf ∷ (header_text hs ++ cr ∷ lf ∷ tail)

pub status_text-plain :
    (method url version : Bytes)
    → find_byte cr method ≡ none
    → find_byte cr url ≡ none
    → find_byte cr version ≡ none
    → find_byte cr (status_text method url version) ≡ none
unfolding find_byte
status_text-plain method url version m u v =
    let words = find_byte-append_none cr url (space ∷ version) u (ground (arith, v)) in
    find_byte-append_none cr method (space ∷ (url ++ space ∷ version)) m (ground (arith, words))

pub length-status_text :
    (method url version : Bytes)
    → length (status_text method url version)
      ≡ length method + suc (length url + suc (length version))
length-status_text method url version = omega (
  arith,
  length-append method (space ∷ (url ++ space ∷ version)),
  length-append url (space ∷ version),
)
