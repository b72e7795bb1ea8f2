-- ===== src/Http/Response.antt =====
-- lib/http_response.h and lib/http_response.c. A string is given without its final zero.
pub mod Encoding
use yolanda.Http.Text.{codes, snprintf_32, decimal, digits_max}
use yolanda.Outcome.{Outcome, ok, ◌>>=◌, deref}
use yolanda.Buffer.{Buffer, buffer_append_string, cr, lf}
use yolanda.Memory.{Bytes, Realloc}
use yolanda.Prelude.{◌∷◌, ◌++◌, none, some, true, false, ℕ, List, Option, Bool, length, []}

pub record ResponseHeader : Type 0 where
  pub key : Bytes
  pub value : Bytes

-- `enum HttpStatusCode`
pub data HttpStatusCode : Type 0 where
  unknown success moved_permanently bad_request not_found : HttpStatusCode

unfoldable pub code_number : HttpStatusCode → ℕ
code_number unknown = 0
code_number success = 200
code_number moved_permanently = 301
code_number bad_request = 400
code_number not_found = 404

pub record HttpResponse : Type 0 where
  pub status_code : HttpStatusCode
  pub status_message : Option Bytes
  pub content_type : Option Bytes
  pub body : Option Bytes
  pub response_headers : List ResponseHeader
  pub keep_connected : Bool

-- `contentType` is not set: `junk` is what `malloc` left there.
pub http_response_new : Option Bytes → HttpResponse
http_response_new junk = record {
  status_code = unknown;
  status_message = none;
  content_type = junk;
  body = none;
  response_headers = [];
  keep_connected = false;
}

module _ (realloc : Realloc) where
  append_text : Buffer → Bytes → Outcome Buffer
  append_text b text = buffer_append_string realloc b (some text)

  -- The status line.
  append_status : HttpResponse → Buffer → Outcome Buffer
  unfolding append_text
  append_status r b = do
    b₁ ← append_text b (
        snprintf_32
          (codes "HTTP/1.1 " ++ (decimal digits_max (code_number r.status_code) ++ codes " ")))
    b₂ ← buffer_append_string realloc b₁ r.status_message
    append_text b₂ (cr ∷ lf ∷ [])

  append_length : Bytes → Buffer → Outcome Buffer
  unfolding append_text
  append_length body b =
      append_text b (
        snprintf_32
          (codes "Content-Length: " ++ (decimal digits_max (length body) ++ cr ∷ lf ∷ [])))

  -- `Content-Length` is written, and the connection kept, if `keep_connected` is zero.
  append_connection : HttpResponse → Buffer → Outcome Buffer
  unfolding append_text append_length
  append_connection r b = elim r.keep_connected [
    | true ↦ append_text b (codes "Connection: close" ++ cr ∷ lf ∷ [])
    | false ↦ do
      body ← deref r.body
      b₁ ← append_length body b
      append_text b₁ (codes "Connection: Keep-Alive" ++ cr ∷ lf ∷ [])
  ]

  append_headers : List ResponseHeader → Buffer → Outcome Buffer
  unfolding append_text
  append_headers [] b = ok b
  append_headers (h ∷ hs) b = do
    b₁ ← append_text b h.key
    b₂ ← append_text b₁ (codes ": ")
    b₃ ← append_text b₂ h.value
    b₄ ← append_text b₃ (cr ∷ lf ∷ [])
    append_headers hs b₄

  pub http_response_encode_buffer : HttpResponse → Buffer → Outcome Buffer
  unfolding append_status append_connection append_headers
  http_response_encode_buffer r output = do
    b₁ ← append_status r output
    b₂ ← append_connection r b₁
    b₃ ← append_headers r.response_headers b₂
    b₄ ← append_text b₃ (cr ∷ lf ∷ [])
    buffer_append_string realloc b₄ r.body
