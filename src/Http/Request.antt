-- ===== src/Http/Request.antt =====
-- lib/http_request.h and lib/http_request.c. A string of the request is the block that holds it,
-- with what follows its zero.
pub mod Closing
use yolanda.Prelude.Int.{eqb_ℤ, pos}
use yolanda.Http.Text.{codes, strncmp}
use yolanda.Outcome.{Outcome, ok, ◌>>=◌, deref, fault, out_of_bounds}
use yolanda.Memory.{Bytes}
use yolanda.Prelude.{
  ◌*◌, ◌/◌, ◌∷◌, ◌++◌, if◌then◌else◌, none, some, true, false, ℕ, List, Option, Bool, length, ltb,
  [],
}

pub record RequestHeader : Type 0 where
  pub key : Bytes
  pub value : Bytes

pub data RequestState : Type 0 where
  request_status request_headers request_body request_done : RequestState

-- `request_headers_number` is the length of `headers`.
pub record HttpRequest : Type 0 where
  pub version : Option Bytes
  pub method : Option Bytes
  pub url : Option Bytes
  pub current_state : RequestState
  pub headers : List RequestHeader

-- `malloc(sizeof(struct http_request) * INIT_REQUEST_HEADER_SIZE)` in units of
-- `struct request_header`: 48 * 128 bytes, 16 for each header.
abbrev pub header_room : ℕ
header_room = 48 * 128 / 16

unfoldable pub http_request_new : HttpRequest
http_request_new = record {
  version = none;
  method = none;
  url = none;
  current_state = request_status;
  headers = [];
}

-- The strings that are freed: `free` of each key and value.
pub http_request_clear : HttpRequest → List Bytes
http_request_clear r = strings r.headers
  where
    strings : List RequestHeader → List Bytes
    strings [] = []
    strings (h ∷ hs) = h.key ∷ h.value ∷ strings hs

unfoldable pub http_request_reset : HttpRequest → HttpRequest
http_request_reset r = record r {
  method = none;
  current_state = request_status;
  version = none;
  url = none;
  headers = [];
}

unfoldable pub http_request_add_header : HttpRequest → Bytes → Bytes → Outcome HttpRequest
http_request_add_header r key value =
    if ltb (length r.headers) header_room
    then ok (record r { headers = r.headers ++ record { key = key; value = value } ∷ [] })
    else fault out_of_bounds

module _ (greater : ℕ → ℕ → ℕ) where
  find_header : List RequestHeader → Bytes → Outcome (Option Bytes)
  find_header [] key = ok none
  find_header (h ∷ hs) key =
      let rest = find_header hs key in
      strncmp greater h.key key >>= λ z. if eqb_ℤ z (pos 0) then ok (some h.value) else rest

  -- The first header whose key begins with `key`.
  pub http_request_get_header : HttpRequest → Bytes → Outcome (Option Bytes)
  unfolding find_header
  http_request_get_header r key = find_header r.headers key

  starts : Option Bytes → Bytes → Outcome Bool
  starts none literal = ok false
  starts (some block) literal = do z ← strncmp greater block literal; ok (eqb_ℤ z (pos 0))

  -- `strncmp(connection, KEEP_ALIVE, …) == 1`, which reads through a null `connection`.
  not_kept : Option Bytes → Outcome Bool
  not_kept connection = do
    block ← deref connection
    z ← strncmp greater block (codes "Keep-Alive")
    ok (eqb_ℤ z (pos 1))

  unfoldable pub http_request_close_connection : HttpRequest → Outcome Bool
  unfolding http_request_get_header starts not_kept
  http_request_close_connection r = do
    connection ← http_request_get_header r (codes "Connection")
    closes ← starts connection (codes "close")
    elim closes [
      | true ↦ ok true
      | false ↦ do
        old ← starts r.version (codes "HTTP/1.0")
        elim old [ true ↦ not_kept connection | false ↦ ok false ]
    ]

unfoldable pub http_request_current_state : HttpRequest → RequestState
http_request_current_state r = r.current_state
