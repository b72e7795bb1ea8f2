-- ===== src/Http/Parser/StatusLine.antt =====
-- The words of a status line, where the allocator gives more bytes than it is asked for.
use yolanda.Prelude.Slices.{take-append_length, take-set_later, get_elem?-drop}
use yolanda.Outcome.{ok}
use yolanda.Http.Request.{HttpRequest}
use yolanda.Http.Parser.{process_status_line, space, copy_word, copy_string}
use yolanda.Memory.{Bytes}
use yolanda.Http.Text.{find_byte, strncpy_bytes, length-strncpy_bytes}
use yolanda.Prelude.{
  ◌+◌, ◌-◌, ◌<◌, ◌≡◌, ◌∙◌, ◌∷◌, ◌++◌, refl, ap, none, some, ℕ, arith, suc, length, get_elem?, [],
  drop, take, length-append, length-drop, set, get_elem?-set_ne, get_elem?-append_right,
  get_elem?-set_self, inl, inr, Option-cases,
}

-- "<method> <url> <version>"
abbrev pub status_text : Bytes → Bytes → Bytes → Bytes
status_text method url version = method ++ space ∷ (url ++ space ∷ version)

pub find_byte-append :
    (c : ℕ) (xs ys : Bytes) → find_byte c xs ≡ none → find_byte c (xs ++ c ∷ ys) ≡ some (length xs)
unfolding find_byte
find_byte-append c [] ys h = ground arith
find_byte-append c (d ∷ xs) ys h = elim (Option-cases (find_byte c xs)) [
  | inl e ↦ ground (arith, h, e, find_byte-append c xs ys e)
  | inr (k, e) ↦ absurd (ground (arith, h, e))
]

pub drop-behind : (xs : Bytes) (c : ℕ) (ys : Bytes) → drop (length xs + 1) (xs ++ c ∷ ys) ≡ ys
drop-behind [] c ys = refl
drop-behind (x ∷ xs) c ys =
    ap (λ k. drop k (x ∷ (xs ++ c ∷ ys))) {y = suc (length xs + 1)} (omega arith)
    ∙ drop-behind xs c ys

module _ (malloc : ℕ → Bytes) where
  -- The block of a word holds its bytes first. The byte behind them is as `malloc` left it, and the
  -- zero that should stand there is in the next one.
  pub record IsWord (src : Bytes) (block : Bytes) : Type 0 where
    pub bytes : take (length src) block ≡ strncpy_bytes src
    pub behind : get_elem? block (length src) ≡ get_elem? (malloc (length src + 1)) (length src)
    pub last : get_elem? block (length src + 1) ≡ some 0

  copy_word-IsWord :
      (src : Bytes)
      → length src + 1 < length (malloc (length src + 1))
      → (block : Bytes) × (copy_word malloc src ≡ ok block) × IsWord src block
  unfolding copy_word copy_string
  copy_word-IsWord src room =
      let text = strncpy_bytes src in
      let rest = drop (length text) (malloc (length src + 1)) in
      let n = length-strncpy_bytes src in
      let k = length-append text rest in
      let d = length-drop (length text) (malloc (length src + 1)) in
      (
        set (text ++ rest) (length src + 1) 0,
        ground (arith, n, k, d, room),
        record {
          bytes =
              take-set_later (length src) (length src + 1) (text ++ rest) 0 (omega arith)
              ∙ take-append_length (length src) text rest n;
          behind =
              get_elem?-set_ne (text ++ rest) (length src + 1) (length src) 0 (omega arith)
              ∙ get_elem?-append_right text rest (length src) (omega (arith, n))
              ∙ get_elem?-drop (length src - length text) (length text) (malloc (length src + 1))
              ∙ ap (get_elem? (malloc (length src + 1))) (omega (arith, n));
          last =
              get_elem?-set_self (text ++ rest) (length src + 1) 0 (omega (arith, n, k, d, room));
        },
      )

  -- With an allocator whose blocks have a byte more than was asked for, a line of three words, of
  -- which the first two have no space in them, is split into these words, and its length is
  -- returned: each word is copied as `strncpy` does, the byte behind it is left as `malloc` gave
  -- it, and the next one is zero.
  pub process_status_line_lem :
      (method url version : Bytes) (r : HttpRequest)
      → ((n : ℕ) → n < length (malloc n))
      → find_byte space method ≡ none
      → find_byte space url ≡ none
      → (m u v : Bytes) × (process_status_line malloc (status_text method url version) r
          ≡ ok (
            length (status_text method url version),
            record r { method = some m; url = some u; version = some v },
          ))
        × IsWord method m
        × IsWord url u
        × IsWord version v
  unfolding process_status_line
  process_status_line_lem method url version r room hm hu =
      let (m, em, wm) = copy_word-IsWord method (room _) in
      let (u, eu, wu) = copy_word-IsWord url (room _) in
      let (v, ev, wv) = copy_word-IsWord version (room _) in
      let rest = url ++ space ∷ version in
      let fm = find_byte-append space method rest hm in
      let fu = find_byte-append space url version hu in
      let tm = take-append_length (length method) method (space ∷ rest) refl in
      let tu = take-append_length (length url) url (space ∷ version) refl in
      let dm = drop-behind method space rest in
      let du = drop-behind url space version in
      (m, u, v, rw (fm, tm, em, dm, fu, tu, eu, du, ev) refl, wm, wu, wv)
