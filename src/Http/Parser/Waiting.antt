-- ===== src/Http/Parser/Waiting.antt =====
-- Requests that arrive in parts: the parser waits for the rest in a loop that reads nothing.
use yolanda.Buffer.Search.{CrlfAt, buffer_find_crlf-contents, find_crlf-of_none}
use yolanda.Outcome.{ok}
use yolanda.Buffer.Contents.{IsValid, contents}
use yolanda.Buffer.{Buffer}
use yolanda.Http.Parser.{parse_http_request, parse_round}
use yolanda.Memory.{Bytes}
use yolanda.Prelude.{◌≡◌, ◌≢◌, ◌∙◌, refl, none, ℕ, arith, zero, suc}
use yolanda.Http.Request.{
  RequestState, request_status, request_headers, request_body, request_done, HttpRequest,
}

module _ (malloc : ℕ → Bytes) where
  -- A round without a line end among the readable bytes changes nothing.
  round_without_crlf :
      (input : Buffer) (r : HttpRequest) (state : RequestState)
      → IsValid input
      → ((j : ℕ) → ¬ CrlfAt (contents input) j)
      → parse_round malloc input r state ≡ ok (input, r)
  unfolding parse_round
  round_without_crlf input r request_done v absent = refl
  round_without_crlf input r request_body v absent = refl
  round_without_crlf input r request_status v absent =
      ground (arith, buffer_find_crlf-contents input v, find_crlf-of_none (contents input) absent)
  round_without_crlf input r request_headers v absent =
      ground (arith, buffer_find_crlf-contents input v, find_crlf-of_none (contents input) absent)

  next_round :
      (rounds : ℕ) (input : Buffer) (r : HttpRequest) (state : RequestState)
      → r.current_state ≡ state
      → state ≢ request_done
      → parse_round malloc input r state ≡ ok (input, r)
      → parse_http_request malloc (suc rounds) input r ≡ parse_http_request malloc rounds input r
  unfolding parse_http_request
  next_round rounds input r request_done e ne same = absurd (ne refl)
  next_round rounds input r request_status e ne same = ground arith
  next_round rounds input r request_headers e ne same = ground arith
  next_round rounds input r request_body e ne same = ground arith

  -- On a valid buffer that holds no line end, a request that is not complete keeps the parser in
  -- its loop: after any number of rounds it has not returned.
  pub parse_http_request_waits :
      (rounds : ℕ) (input : Buffer) (r : HttpRequest)
      → IsValid input
      → r.current_state ≢ request_done
      → ((j : ℕ) → ¬ CrlfAt (contents input) j)
      → parse_http_request malloc rounds input r ≡ ok none
  unfolding parse_http_request
  parse_http_request_waits zero input r v ne absent = refl
  parse_http_request_waits (suc rounds) input r v ne absent =
      next_round rounds input r r.current_state refl ne
        (round_without_crlf input r r.current_state v absent)
      ∙ parse_http_request_waits rounds input r v ne absent
