-- ===== src/Http/Parser/Tests.antt =====
-- The theorems about the parser at short requests.
-- "GET /", without the end of its line.
use yolanda.Http.Parser.Waiting.{parse_http_request_waits}
use yolanda.Outcome.{ok}
use yolanda.Http.Parser.{parse_http_request}
use yolanda.Buffer.Search.{CrlfAt, find_crlf-none}
use yolanda.Memory.{Bytes}
use yolanda.Http.Request.{http_request_new}
use yolanda.Buffer.Contents.{IsValid, contents}
use yolanda.Buffer.{Buffer, find_crlf}
use yolanda.Prelude.{◌≡◌, ◌∷◌, refl, none, ℕ, arith, [], replicate}

abbrev begun : Buffer
begun = record {
  bytes = 71 ∷ 69 ∷ 84 ∷ 32 ∷ 47 ∷ [];
  read_index = 0;
  write_index = 5;
  total_size = 5;
}

begun-IsValid : IsValid begun
begun-IsValid = record {
  block = refl;
  readable = omega arith;
  writable = omega arith;
  in_int = omega arith;
}

abbrev malloc_zeroed : ℕ → Bytes
malloc_zeroed n = replicate n 0

begun-endless : (j : ℕ) → ¬ CrlfAt (contents begun) j
unfolding find_crlf
begun-endless = find_crlf-none (contents begun) refl

parse_http_request_waits_example :
    parse_http_request malloc_zeroed 9 begun http_request_new ≡ ok none
unfolding http_request_new
parse_http_request_waits_example =
    parse_http_request_waits malloc_zeroed 9 begun http_request_new begun-IsValid (λ e. cc)
      begun-endless
