-- ===== src/Yolandapp/Http/Parsing.antt =====
-- A whole request is parsed.
use mathlib.Core.Path.{fun_ext}
use yolanda.Http.Parser.Lines.{
  AreHeaders, header_text, find_byte-append_none, drop-pair, find_pair-key, find_crlf-line,
}
use yolanda.Outcome.{ok, int_max, to_int, ◌>>=◌, to_int-of_le}
use yolanda.Http.Request.{request_headers, request_done}
use yolanda.Prelude.Slices.{take-append_length, drop-drop}
use yolanda.Yolandapp.Buffer.{find_line_end, StringBuffer}
use yolanda.Yolandapp.Http.{
  Headers, emplace, header_round, line_before, parse_http_request, header_line, parse_round,
  PortRequest, skip, process_status_line, same_bytes,
}
use yolanda.Memory.{Bytes}
use yolanda.Prelude.{
  ◌≡◌, ◌∷◌, ◌++◌, none, some, ℕ, List, arith, length, [], ◌+◌, ◌-◌, ◌∙◌, refl, ap₂, drop, take, sym,
  ap, suc, append_assoc, ◌≤◌, length-drop, length-append, ◌==◌, if◌then◌else◌, inl, inr, true,
  Option, Bool-cases, Option-cases, ==_iff,
}
use yolanda.Http.Text.{find_byte, find_pair}
use yolanda.Http.Parser.{space, colon}
use yolanda.Http.Parser.StatusLine.{status_text, find_byte-append, drop-behind}
use yolanda.Buffer.{cr, lf}

-- The map that headers come to.
unfoldable pub emplaced : Headers → List (Bytes × Bytes) → Headers
emplaced headers [] = headers
emplaced headers ((key, value) ∷ hs) = emplaced (emplace headers key value) hs

-- Where the text from the read index on begins with a line: it is found, and behind it is the rest.
pub record AtLine (s : StringBuffer) (line rest : Bytes) : Type 0 where
  pub found : find_line_end s ≡ some (s.read_index + length line)
  pub before : line_before s (s.read_index + length line) ≡ line
  pub behind : drop (s.read_index + (length line + 2)) s.chars ≡ rest

pub find_line_end-AtLine :
    (s : StringBuffer) (line rest : Bytes)
    → find_byte cr line ≡ none
    → drop s.read_index s.chars ≡ line ++ cr ∷ lf ∷ rest
    → AtLine s line rest
unfolding find_line_end
find_line_end-AtLine s line rest h e = record {
  found = ground (arith, find_crlf-line line rest h, e);
  before =
      ap₂ take {x = s.read_index + length line - s.read_index} {y = length line} (omega arith) e
      ∙ take-append_length (length line) line (cr ∷ lf ∷ rest) refl;
  behind =
      sym (drop-drop (length line + 2) s.read_index s.chars)
      ∙ ap (drop (length line + 2)) e
      ∙ drop-pair line cr lf rest;
}

header_round_lem :
    (s : StringBuffer) (r : PortRequest) (key value rest : Bytes)
    → AtLine s (key ++ colon ∷ space ∷ value) rest
    → find_byte colon key ≡ none
    → length (key ++ colon ∷ space ∷ value) ≤ int_max
    → header_round (find_line_end s) s r
      ≡ ok (
        skip s (length (key ++ colon ∷ space ∷ value) + 2),
        record r { headers = emplace r.headers key value },
      )
unfolding header_round header_line
header_round_lem s r key value rest at h k =
    let line = key ++ colon ∷ space ∷ value in
    ap (λ o. header_round o s r) at.found
    ∙ ap (λ l. to_int (length l) >>= λ size. ok (header_line (find_pair colon space l) l size s r))
        at.before
    ∙ ap (λ o. o >>= λ size. ok (header_line (find_pair colon space line) line size s r))
        (to_int-of_le (length line) k)
    ∙ ap (λ o. ok (header_line o line (length line) s r)) (find_pair-key colon space key value h)
    ∙ ap₂ (λ k v. ok (skip s (length line + 2), record r { headers = emplace r.headers k v }))
        (take-append_length (length key) key (colon ∷ space ∷ value) refl)
        (drop-pair key colon space value)

last_round_lem :
    (s : StringBuffer) (r : PortRequest) (rest : Bytes)
    → AtLine s [] rest
    → header_round (find_line_end s) s r ≡ ok (skip s 2, record r { cur_state = request_done })
unfolding header_round header_line find_pair
last_round_lem s r rest at =
    ap (λ o. header_round o s r) at.found
    ∙ ap (λ l. to_int (length l) >>= λ size. ok (header_line (find_pair colon space l) l size s r))
        at.before

-- A line in a text is no longer than the text.
pub length-line :
    (i : ℕ) (text line rest : Bytes) → drop i text ≡ line ++ rest → length line ≤ length text
length-line i text line rest e =
    omega (arith, length-drop i text, length-append line rest, ap length e)

pub headers-parsed :
    (hs : List (Bytes × Bytes)) (s : StringBuffer) (r : PortRequest) (tail : Bytes)
    → AreHeaders hs
    → length s.chars ≤ int_max
    → drop s.read_index s.chars ≡ header_text hs ++ cr ∷ lf ∷ tail
    → (s' : StringBuffer) × (parse_http_request
          (suc (suc (length hs)))
          s
          (record r { cur_state = request_headers })
        ≡ ok (some (1, s', record r { cur_state = request_done; headers = emplaced r.headers hs })))
      × (drop s'.read_index s'.chars ≡ tail)
unfolding parse_http_request parse_round header_text emplaced find_byte
headers-parsed [] s r tail h small e =
    let at = find_line_end-AtLine s [] tail refl e in
    (
      skip s 2,
      ap (λ o. o >>= λ z. parse_http_request 1 z.0 z.1)
          (last_round_lem s (record r { cur_state = request_headers }) tail at),
      at.behind,
    )
headers-parsed ((key, value) ∷ hs) s r tail (k, v, c, h) small e =
    let line = key ++ colon ∷ space ∷ value in
    let rest = header_text hs ++ cr ∷ lf ∷ tail in
    let plain = find_byte-append_none cr key (colon ∷ space ∷ value) k (ground (arith, v)) in
    let e' = e ∙ append_assoc line (cr ∷ lf ∷ header_text hs) (cr ∷ lf ∷ tail) in
    let short = length-line s.read_index s.chars line (cr ∷ lf ∷ rest) e' in
    let at = find_line_end-AtLine s line rest plain e' in
    let (s', run, left) =
      headers-parsed hs (skip s (length line + 2))
        (record r { headers = emplace r.headers key value }) tail h small at.behind in
    (
      s',
      ap (λ o. o >>= λ z. parse_http_request (suc (suc (length hs))) z.0 z.1)
            (header_round_lem s (record r { cur_state = request_headers }) key value rest at c
              (omega (arith, short, small)))
          ∙ run,
      left,
    )

pub process_status_line-words :
    (method url version : Bytes) (r : PortRequest)
    → find_byte space method ≡ none
    → find_byte space url ≡ none
    → length (status_text method url version) ≤ int_max
    → process_status_line (status_text method url version) r
      ≡ ok (
        length (status_text method url version),
        record r {
          method = method ++ r.method;
          url = url ++ r.url;
          version = version ++ r.version;
        },
      )
unfolding process_status_line
process_status_line-words method url version r h k short =
    let rest = url ++ space ∷ version in
    let first = find_byte-append space method rest h in
    let second = find_byte-append space url version k in
    let behind = drop-behind method space rest in
    let last = drop-behind url space version in
    let m = take-append_length (length method) method (space ∷ rest) refl in
    let u = take-append_length (length url) url (space ∷ version) refl in
    ground (arith, first, behind, second, last, m, u, short)

-- The value of the first header with a key.
unfoldable pub first_value : List (Bytes × Bytes) → Headers
first_value [] other = none
first_value ((key, value) ∷ hs) other =
    let later = first_value hs other in if same_bytes other key then some value else later

abbrev or_else : Option Bytes → Option Bytes → Option Bytes
or_else none later = later
or_else (some value) later = some value

same_bytes-true : (xs ys : Bytes) → same_bytes xs ys ≡ true → xs ≡ ys
unfolding same_bytes
same_bytes-true [] [] h = refl
same_bytes-true [] (d ∷ ds) h = cc
same_bytes-true (c ∷ cs) [] h = cc
same_bytes-true (c ∷ cs) (d ∷ ds) h = elim (Bool-cases (c == d)) [
  | inl e ↦
      let tails : same_bytes cs ds ≡ true = ground (arith, h, e) in
      ap₂ ◌∷◌ ((==_iff c d).0 e) (same_bytes-true cs ds tails)
  | inr e ↦ absurd (ground (arith, h, e))
]

emplace-first :
    (headers : Headers) (key value other : Bytes) (later : Option Bytes)
    → or_else (emplace headers key value other) later
      ≡ or_else (headers other) (if same_bytes other key then some value else later)
unfolding emplace
emplace-first headers key value other later = elim (Bool-cases (same_bytes other key)) [
  | inl e ↦
      let same = ap headers (same_bytes-true other key e) in
      elim (Option-cases (headers key)) [
        | inl missing ↦ ground (arith, e, same, missing)
        | inr (old, found) ↦ ground (arith, e, same, found)
      ]
  | inr e ↦ elim (Option-cases (headers key)) [
    | inl missing ↦ ground (arith, e, missing)
    | inr (old, found) ↦ ground (arith, e, found)
  ]
]

emplaced-or_else :
    (headers : Headers) (hs : List (Bytes × Bytes)) (other : Bytes)
    → emplaced headers hs other ≡ or_else (headers other) (first_value hs other)
unfolding emplaced first_value
emplaced-or_else headers [] other = kept (headers other)
  where
    kept : (o : Option Bytes) → o ≡ or_else o none
    kept none = refl
    kept (some value) = refl
emplaced-or_else headers ((key, value) ∷ hs) other =
    emplaced-or_else (emplace headers key value) hs other
    ∙ emplace-first headers key value other (first_value hs other)

pub emplaced-first_value : (hs : List (Bytes × Bytes)) → emplaced (λ key. none) hs ≡ first_value hs
emplaced-first_value hs = fun_ext (λ other. emplaced-or_else (λ key. none) hs other)
