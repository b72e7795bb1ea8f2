-- ===== src/Yolandapp/Http.antt =====
-- yolandapp/http_request.hpp, yolandapp/http_request.cpp and the parser of yolandapp/http_server.cpp:
-- the words of a request are strings, and its headers a map. A length that no `int` holds is a fault.
pub mod Parsing
pub mod Whole
pub mod Response
pub mod Server
mod Tests
use yolanda.Outcome.{Outcome, ok, ◌>>=◌, fault, null_pointer, to_int}
use yolanda.Memory.{Bytes}
use yolanda.Prelude.{
  ◌+◌, ◌-◌, ◌&&◌, ◌∷◌, ◌++◌, ◌==◌, if◌then◌else◌, none, some, true, false, ℕ, Option, Bool, zero,
  suc, not, length, [], take, drop,
}
use yolanda.Http.Text.{find_byte, find_pair}
use yolanda.Http.Request.{RequestState, request_status, request_headers, request_body, request_done}
use yolanda.Yolandapp.Buffer.{StringBuffer, find_line_end}
use yolanda.Http.Parser.{space, colon, assert_found}

unfoldable pub same_bytes : Bytes → Bytes → Bool
same_bytes [] [] = true
same_bytes [] (d ∷ ds) = false
same_bytes (c ∷ cs) [] = false
same_bytes (c ∷ cs) (d ∷ ds) = (c == d) && same_bytes cs ds

-- `std::map<std::string, std::string>`, by what it holds for a key.
abbrev pub Headers : Type 0
Headers = Bytes → Option Bytes

abbrev pub set_header : Headers → Bytes → Bytes → Headers
set_header headers key value other = if same_bytes other key then some value else headers other

-- `headers[key] = value`
pub add_header : Headers → Bytes → Bytes → Headers
add_header headers key value = set_header headers key value

-- `headers.emplace(key, value)`: a key that is there keeps its value.
unfoldable pub emplace : Headers → Bytes → Bytes → Headers
emplace headers key value = elim (headers key) [
  | none ↦ set_header headers key value
  | some old ↦ headers
]

-- `struct http_request`
pub record PortRequest : Type 0 where
  pub version : Bytes
  pub method : Bytes
  pub url : Bytes
  pub cur_state : RequestState
  pub headers : Headers

unfoldable pub request_new : PortRequest
request_new = record {
  version = [];
  method = [];
  url = [];
  cur_state = request_status;
  headers = λ key. none;
}

-- `clear`, and `reset`, which calls it.
pub clear : PortRequest → PortRequest
clear r = record r {
  headers = λ key. none;
  version = [];
  method = [];
  url = [];
  cur_state = request_status;
}

-- A string as the characters up to its first zero, which is what `c_str` shows of it.
unfoldable pub c_str : Bytes → Bytes
c_str [] = []
c_str (zero ∷ cs) = []
c_str (suc c ∷ cs) = suc c ∷ c_str cs

-- `get_header`: `none` is a null pointer.
unfoldable pub get_header : PortRequest → Bytes → Option Bytes
get_header r key = elim (r.headers key) [ none ↦ none | some value ↦ some (c_str value) ]

-- `close_connection`, with the four texts that it compares with. `compare` reads through its argument.
module _ (connection close http10 keep_alive : Bytes) where
  unfoldable pub close_connection : PortRequest → Outcome Bool
  close_connection r = elim (get_header r connection) [
    | some value ↦
        if same_bytes value close
        then ok true
        else ok (same_bytes r.version http10 && not (same_bytes value keep_alive))
    | none ↦ if same_bytes r.version http10 then fault null_pointer else ok false
  ]

-- `process_status_line`: each word is inserted at the beginning of its string. The result is the
-- length of the line.
unfoldable pub process_status_line : Bytes → PortRequest → Outcome (ℕ × PortRequest)
process_status_line line r = do
  size ← to_int (length line)
  k ← assert_found (find_byte space line)
  let rest = drop (k + 1) line
  j ← assert_found (find_byte space rest)
  ok (
    size,
    record r {
      method = take k line ++ r.method;
      url = take j rest ++ r.url;
      version = drop (j + 1) rest ++ r.version;
    },
  )

-- The characters from the read index to the line end that was found.
abbrev pub line_before : StringBuffer → ℕ → Bytes
line_before s crlf = take (crlf - s.read_index) (drop s.read_index s.chars)

abbrev pub skip : StringBuffer → ℕ → StringBuffer
skip s n = record s { read_index = s.read_index + n }

unfoldable pub status_round :
    Option ℕ → StringBuffer → PortRequest → Outcome (StringBuffer × PortRequest)
status_round none s r = ok (s, r)
status_round (some crlf) s r = do
  (size, r') ← process_status_line (line_before s crlf) r
  if size == 0
      then ok (s, r')
      else ok (skip s (size + 2), record r' { cur_state = request_headers })

-- A line without a colon and a space is taken for the last one.
unfoldable pub header_line :
    Option ℕ → Bytes → ℕ → StringBuffer → PortRequest → StringBuffer × PortRequest
header_line none line size s r = (skip s 2, record r { cur_state = request_done })
header_line (some c) line size s r =
    (skip s (size + 2), record r { headers = emplace r.headers (take c line) (drop (c + 2) line) })

unfoldable pub header_round :
    Option ℕ → StringBuffer → PortRequest → Outcome (StringBuffer × PortRequest)
header_round none s r = ok (s, r)
header_round (some crlf) s r = do
  let line = line_before s crlf
  size ← to_int (length line)
  ok (header_line (find_pair colon space line) line size s r)

unfoldable pub parse_round :
    StringBuffer → PortRequest → RequestState → Outcome (StringBuffer × PortRequest)
parse_round s r request_status = status_round (find_line_end s) s r
parse_round s r request_headers = header_round (find_line_end s) s r
parse_round s r request_body = ok (s, r)
parse_round s r request_done = ok (s, r)

-- The loop on fuel: `none` means that the rounds ran out. The number is the value of `ok`.
unfoldable pub parse_http_request :
    ℕ → StringBuffer → PortRequest → Outcome (Option (ℕ × StringBuffer × PortRequest))
parse_http_request zero s r = ok none
parse_http_request (suc rounds) s r = elim r.cur_state [
  | request_done ↦ ok (some (1, s, r))
  | _ ↦ do (s', r') ← parse_round s r r.cur_state; parse_http_request rounds s' r'
]
