-- ===== src/Http/Parser/Overrun.antt =====
-- The zeros behind the words of the status line.
use yolanda.Http.Parser.Headers.{buffer_find_crlf-AtLine}
use yolanda.Http.Parser.StatusLine.{status_text, find_byte-append}
use yolanda.Http.Parser.Lines.{request_text, header_text, status_text-plain}
use yolanda.Buffer.Contents.{IsValid, contents}
use yolanda.Buffer.{Buffer, cr, lf}
use yolanda.Outcome.{fault, out_of_bounds, Outcome, ok, ◌>>=◌}
use yolanda.Http.Text.{find_byte, length-strncpy_bytes, strncpy_bytes}
use yolanda.Http.Request.{HttpRequest, http_request_new, request_headers}
use yolanda.Http.Parser.{
  process_status_line, copy_word, space, copy_string, parse_http_request, parse_round, parse_status,
  advance, in_state,
}
use yolanda.Memory.{Bytes}
use yolanda.Prelude.{
  ◌≡◌, some, ℕ, arith, length, take, ◌+◌, length-append, drop, length-drop, ◌∷◌, ◌++◌, none, List,
  suc, ◌∙◌, ◌==◌, if◌then◌else◌, ap, Option,
}

module _ (malloc : ℕ → Bytes) where
  -- With an allocator that gives exactly the bytes asked for, the zero behind a word is written one
  -- byte outside of the block of n + 1 bytes that holds it.
  copy_word_overruns :
      (src : Bytes) → ((n : ℕ) → length (malloc n) ≡ n) → copy_word malloc src ≡ fault out_of_bounds
  unfolding copy_word copy_string
  copy_word_overruns src exact =
      let block = malloc (length src + 1) in
      let text = strncpy_bytes src in
      ground (
        arith,
        exact (length src + 1),
        length-strncpy_bytes src,
        length-append text (drop (0 + length text) block),
        length-drop (0 + length text) block,
      )

  -- With an allocator that gives exactly the bytes asked for, every line with a space in it has
  -- `process_status_line` write outside of a block.
  pub process_status_line_overruns :
      (line : Bytes) (r : HttpRequest) (k : ℕ)
      → ((n : ℕ) → length (malloc n) ≡ n)
      → find_byte space line ≡ some k
      → process_status_line malloc line r ≡ fault out_of_bounds
  unfolding process_status_line
  process_status_line_overruns line r k exact e =
      ground (arith, copy_word_overruns (take k line) exact)

  -- The first round over a request of which the method has no space.
  pub parse_http_request_overruns :
      (rounds : ℕ) (b : Buffer) (method url version : Bytes) (hs : List (Bytes × Bytes))
      (tail : Bytes)
      → ((n : ℕ) → length (malloc n) ≡ n)
      → IsValid b
      → find_byte cr method ≡ none
      → find_byte cr url ≡ none
      → find_byte cr version ≡ none
      → find_byte space method ≡ none
      → contents b ≡ request_text method url version hs tail
      → parse_http_request malloc (suc rounds) b http_request_new ≡ fault out_of_bounds
  unfolding parse_http_request http_request_new parse_round parse_status
  parse_http_request_overruns rounds b method url version hs tail exact valid nm nu nv sm e =
      let line = status_text method url version in
      let at =
        buffer_find_crlf-AtLine b line (header_text hs ++ cr ∷ lf ∷ tail) valid
          (status_text-plain method url version nm nu nv) e in
      let over =
        process_status_line_overruns line http_request_new (length method) exact
          (find_byte-append space method (url ++ space ∷ version) sm) in
      let next : ℕ × HttpRequest → Outcome (Buffer × HttpRequest) = λ z.
        if z.0 == 0
        then ok (b, z.1)
        else ok (advance b (z.0 + 2), in_state (z.1) request_headers) in
      let after : Buffer × HttpRequest → Outcome (Option (ℕ × Buffer × HttpRequest)) =
        λ z. parse_http_request malloc rounds z.0 z.1 in
      ap (λ o. o >>= (λ crlf. parse_status malloc crlf b http_request_new) >>= after) at.found
      ∙ ap (λ l. process_status_line malloc l http_request_new >>= next >>= after) at.before
      ∙ ap (λ o. o >>= next >>= after) over
