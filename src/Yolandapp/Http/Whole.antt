-- ===== src/Yolandapp/Http/Whole.antt =====
-- A whole request is parsed in one call.
use yolanda.Http.Parser.Lines.{
  AreHeaders, header_text, request_text, status_text-plain, length-status_text,
}
use yolanda.Http.Request.{request_done, request_headers}
use yolanda.Outcome.{ok, Outcome, ◌>>=◌, int_max}
use yolanda.Yolandapp.Buffer.{StringBuffer, find_line_end}
use yolanda.Yolandapp.Http.{
  parse_http_request, status_round, parse_round, PortRequest, request_new, skip, Headers,
}
use yolanda.Memory.{Bytes}
use yolanda.Prelude.{
  ◌+◌, ◌≡◌, ◌∙◌, ◌∷◌, ◌++◌, ap, none, some, List, arith, suc, length, [], drop, ap₂, ℕ, Option,
  append-nil, ◌≤◌,
}
use yolanda.Http.Text.{find_byte}
use yolanda.Http.Parser.{space}
use yolanda.Http.Parser.StatusLine.{status_text}
use yolanda.Buffer.{cr, lf}
use yolanda.Yolandapp.Http.Parsing.{
  emplaced, first_value, emplaced-first_value, headers-parsed, process_status_line-words,
  find_line_end-AtLine, AtLine, length-line,
}

status_round-words :
    (s : StringBuffer) (r : PortRequest) (method url version rest : Bytes)
    → AtLine s (status_text method url version) rest
    → find_byte space method ≡ none
    → find_byte space url ≡ none
    → length (status_text method url version) ≤ int_max
    → status_round (find_line_end s) s r
      ≡ ok (
        skip s (length (status_text method url version) + 2),
        record r {
          cur_state = request_headers;
          method = method ++ r.method;
          url = url ++ r.url;
          version = version ++ r.version;
        },
      )
unfolding status_round
status_round-words s r method url version rest at h k short =
    let words = process_status_line-words method url version r h k short in
    let positive = length-status_text method url version in
    ap (λ o. status_round o s r) at.found ∙ ground (arith, at.before, words, positive)

-- If neither a word of the status line nor a header has a carriage return in it, the method and the
-- url have no space, no key of a header has a colon, and an `int` holds the length of the buffer's
-- string, then a request that stands at the read index is parsed whole, in as many rounds as it has
-- headers and three more: the words are what was sent, each key has the value of the first header with
-- it, and the read index is behind the request, whatever follows it.
pub parse_http_request-whole :
    (s : StringBuffer) (method url version : Bytes) (hs : List (Bytes × Bytes)) (tail : Bytes)
    → find_byte cr method ≡ none
    → find_byte cr url ≡ none
    → find_byte cr version ≡ none
    → find_byte space method ≡ none
    → find_byte space url ≡ none
    → AreHeaders hs
    → length s.chars ≤ int_max
    → drop s.read_index s.chars ≡ request_text method url version hs tail
    → (s' : StringBuffer) × (parse_http_request (length hs + 3) s request_new
        ≡ ok (
            some (
              1,
              s',
              record {
                version = version;
                method = method;
                url = url;
                cur_state = request_done;
                headers = first_value hs;
              },
            )))
      × (drop s'.read_index s'.chars ≡ tail)
unfolding parse_http_request parse_round request_new
parse_http_request-whole s method url version hs tail m u v sm su h small e =
    let rest = header_text hs ++ cr ∷ lf ∷ tail in
    let at =
      find_line_end-AtLine s (status_text method url version) rest
        (status_text-plain method url version m u v) e in
    let first = status_round-words s request_new method url version rest at sm su (
      omega (
        arith,
        small,
        length-line s.read_index s.chars (status_text method url version) (cr ∷ lf ∷ rest) e,
      )) in
    let (s', run, left) =
      headers-parsed hs (skip s (length (status_text method url version) + 2))
        (record request_new { method = method ++ []; url = url ++ []; version = version ++ [] })
        tail h small at.behind in
    let result : Bytes
        → Bytes
        → Bytes
        → Headers
        → Outcome (Option (ℕ × StringBuffer × PortRequest)) =
      λ a b c headers. ok (
        some (
          1,
          s',
          record { version = c; method = a; url = b; cur_state = request_done; headers = headers },
        )) in
    (
      s',
      ap (λ k. parse_http_request k s request_new) {y = suc (suc (suc (length hs)))} (omega arith)
          ∙ ap (λ o. o >>= λ z. parse_http_request (suc (suc (length hs))) z.0 z.1) first
          ∙ run
          ∙ ap₂ (λ a b. result a b (version ++ []) (emplaced (λ key. none) hs)) (append-nil method)
              (append-nil url)
          ∙ ap₂ (result method url) (append-nil version) (emplaced-first_value hs),
      left,
    )
