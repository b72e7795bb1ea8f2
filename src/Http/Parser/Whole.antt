-- ===== src/Http/Parser/Whole.antt =====
-- A whole request is parsed in one call.
use yolanda.Outcome.{Outcome, ok, ◌>>=◌}
use yolanda.Memory.{Bytes}
use yolanda.Buffer.{Buffer, cr, lf}
use yolanda.Buffer.Contents.{IsValid, contents}
use yolanda.Http.Text.{find_byte}
use yolanda.Http.Request.{
  HttpRequest, RequestHeader, http_request_new, request_headers, request_done, header_room,
  request_status,
}
use yolanda.Http.Parser.{
  advance, space, in_state, parse_http_request, parse_round, parse_status, process_status_line,
}
use yolanda.Http.Parser.Lines.{
  AreHeaders, header_text, request_text, status_text-plain, length-status_text,
}
use yolanda.Http.Parser.StatusLine.{status_text, process_status_line_lem, IsWord}
use yolanda.Prelude.{
  ◌+◌, ◌<◌, ◌≤◌, ◌≡◌, ◌∙◌, ◌∷◌, ◌++◌, ap, none, some, ℕ, List, arith, suc, length, ◌==◌,
  if◌then◌else◌,
}
use yolanda.Http.Parser.Headers.{AtLine, buffer_find_crlf-AtLine, AreCopies, headers-parsed}

module _ (malloc : ℕ → Bytes) (room : (n : ℕ) → n < length (malloc n)) where
  status_round :
      (b : Buffer) (r r' : HttpRequest) (line rest : Bytes)
      → AtLine b line rest
      → 0 < length line
      → process_status_line malloc line r ≡ ok (length line, r')
      → parse_round malloc b r request_status
        ≡ ok (advance b (length line + 2), in_state r' request_headers)
  unfolding parse_round parse_status
  status_round b r r' line rest at positive words =
      let next : ℕ × HttpRequest → Outcome (Buffer × HttpRequest) = λ z.
        if z.0 == 0
        then ok (b, z.1)
        else ok (advance b (z.0 + 2), in_state (z.1) request_headers) in
      let moves : next (length line, r')
          ≡ ok (advance b (length line + 2), in_state r' request_headers) =
        ground (arith, positive) in
      ap (λ o. o >>= λ crlf. parse_status malloc crlf b r) at.found
      ∙ ap (λ l. process_status_line malloc l r >>= next) at.before
      ∙ ap (λ o. o >>= next) words
      ∙ moves

  -- With an allocator whose blocks have a byte more than was asked for: if a valid buffer begins with
  -- a request whose words and headers have no carriage return, whose method and url have no space
  -- and whose keys have no colon, with no more headers than there is room for, then it is parsed
  -- in as many rounds as it has headers and three more. The words and the headers are copied, as
  -- `strncpy` does, in their order; the buffer stays valid and holds what follows the request.
  pub parse_http_request_lem :
      (b : Buffer) (method url version : Bytes) (hs : List (Bytes × Bytes)) (tail : Bytes)
      → IsValid b
      → find_byte cr method ≡ none
      → find_byte cr url ≡ none
      → find_byte cr version ≡ none
      → find_byte space method ≡ none
      → find_byte space url ≡ none
      → AreHeaders hs
      → length hs ≤ header_room
      → contents b ≡ request_text method url version hs tail
      → (b' : Buffer) × (m u v : Bytes) × (stored : List RequestHeader) × (parse_http_request malloc
            (length hs + 3)
            b
            http_request_new
          ≡ ok (
              some (
                1,
                b',
                record {
                  version = some v;
                  method = some m;
                  url = some u;
                  current_state = request_done;
                  headers = stored;
                },
              )))
        × IsWord malloc method m
        × IsWord malloc url u
        × IsWord malloc version v
        × AreCopies hs stored
        × IsValid b'
        × (contents b' ≡ tail)
  unfolding parse_http_request http_request_new
  parse_http_request_lem b method url version hs tail valid nm nu nv sm su h few e =
      let line = status_text method url version in
      let rest = header_text hs ++ cr ∷ lf ∷ tail in
      let at =
        buffer_find_crlf-AtLine b line rest valid (status_text-plain method url version nm nu nv)
          e in
      let (m, u, v, words, im, iu, iv) =
        process_status_line_lem malloc method url version http_request_new room sm su in
      let known : HttpRequest = record http_request_new {
        method = some m;
        url = some u;
        version = some v;
      } in
      let first =
        status_round b http_request_new known line rest at
          (omega (arith, length-status_text method url version)) words in
      let (b', stored, run, copies, valid', left) =
        headers-parsed malloc room hs (advance b (length line + 2)) known tail h at.valid
          (omega (arith, few)) at.behind in
      (
        b',
        m,
        u,
        v,
        stored,
        ap (λ k. parse_http_request malloc k b http_request_new) {y = suc (suc (suc (length hs)))}
              (omega arith)
            ∙ ap (λ o. o >>= λ z. parse_http_request malloc (suc (suc (length hs))) z.0 z.1) first
            ∙ run,
        im,
        iu,
        iv,
        copies,
        valid',
        left,
      )
