-- ===== src/Http/Parser.antt =====
-- The parser of lib/http_server.c: `process_status_line` and `parse_http_request`. `malloc n` is the
-- block that the allocator gives for n bytes, as long as it really is; NULL is the empty block.
pub mod Waiting
pub mod StatusLine
pub mod Lines
pub mod Headers
pub mod Whole
pub mod Overrun
mod Tests
use yolanda.Http.Text.{find_byte, find_pair, strncpy_bytes}
use yolanda.Outcome.{Outcome, fault, ok, ◌>>=◌, assert_failed}
use yolanda.Memory.{Bytes, memcpy, store}
use yolanda.Http.Request.{
  HttpRequest, RequestState, request_done, request_headers, http_request_add_header, request_status,
  request_body,
}
use yolanda.Buffer.{Buffer, buffer_find_crlf}
use yolanda.Prelude.{
  ◌+◌, ◌-◌, ◌==◌, if◌then◌else◌, none, some, ℕ, Option, zero, suc, length, take, drop,
}

-- The readable bytes before offset k, from `data + readIndex`.
abbrev pub line_to : Buffer → ℕ → Bytes
line_to b k = take k (drop b.read_index b.bytes)

abbrev pub space : ℕ
space = 32

abbrev pub colon : ℕ
colon = 58

abbrev pub advance : Buffer → ℕ → Buffer
advance b n = record b { read_index = b.read_index + n }

abbrev pub in_state : HttpRequest → RequestState → HttpRequest
in_state r s = record r { current_state = s }

-- `assert(space != NULL)`
abbrev pub assert_found : Option ℕ → Outcome ℕ
assert_found none = fault assert_failed
assert_found (some k) = ok k

module _ (malloc : ℕ → Bytes) where
  -- `p = malloc(n + 1); strncpy(p, src, n); p[at] = '\0'` for a source of n bytes.
  copy_string : Bytes → ℕ → Outcome Bytes
  copy_string src at = do p ← memcpy (malloc (length src + 1)) 0 (strncpy_bytes src); store p at 0

  -- The three words of the status line. Each is ended one byte behind the place of its zero.
  copy_word : Bytes → Outcome Bytes
  unfolding copy_string
  copy_word src = copy_string src (length src + 1)

  pub process_status_line : Bytes → HttpRequest → Outcome (ℕ × HttpRequest)
  unfolding copy_word
  process_status_line line r = do
    k ← assert_found (find_byte space line)
    method ← copy_word (take k line)
    let rest = drop (k + 1) line
    j ← assert_found (find_byte space rest)
    url ← copy_word (take j rest)
    version ← copy_word (drop (j + 1) rest)
    ok (length line, record r { method = some method; url = some url; version = some version })

  parse_status : Option ℕ → Buffer → HttpRequest → Outcome (Buffer × HttpRequest)
  parse_status none input r = ok (input, r)
  parse_status (some k) input r = do
    (size, r') ← process_status_line (line_to input k) r
    if size == 0 then ok (input, r') else ok (advance input (size + 2), in_state r' request_headers)

  parse_header : Option ℕ → Bytes → Buffer → HttpRequest → Outcome (Buffer × HttpRequest)
  parse_header none line input r = ok (advance input 2, in_state r request_done)
  parse_header (some c) line input r = do
    key ← copy_string (take c line) c
    value ← copy_string (drop (c + 2) line) (length line - c - 2)
    r' ← http_request_add_header r key value
    ok (advance input (length line + 2), r')

  parse_headers : Option ℕ → Buffer → HttpRequest → Outcome (Buffer × HttpRequest)
  unfolding parse_header
  parse_headers none input r = ok (input, r)
  parse_headers (some k) input r =
      parse_header (find_pair colon space (line_to input k)) (line_to input k) input r

  -- One round of the loop.
  pub parse_round : Buffer → HttpRequest → RequestState → Outcome (Buffer × HttpRequest)
  unfolding parse_status parse_headers
  parse_round input r request_status = do crlf ← buffer_find_crlf input; parse_status crlf input r
  parse_round input r request_headers = do crlf ← buffer_find_crlf input; parse_headers crlf input r
  parse_round input r request_body = ok (input, r)
  parse_round input r request_done = ok (input, r)

  -- `while (current_state != REQUEST_DONE)` on fuel: `none` means that the rounds ran out. The
  -- number is the value of `ok`, which is 1 throughout.
  pub parse_http_request : ℕ → Buffer → HttpRequest → Outcome (Option (ℕ × Buffer × HttpRequest))
  unfolding parse_round
  parse_http_request zero input r = ok none
  parse_http_request (suc rounds) input r = elim r.current_state [
    | request_done ↦ ok (some (1, input, r))
    | _ ↦ do (input', r') ← parse_round input r r.current_state; parse_http_request rounds input' r'
  ]
