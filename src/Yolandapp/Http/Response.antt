-- ===== src/Yolandapp/Http/Response.antt =====
-- yolandapp/http_response.hpp and yolandapp/http_response.cpp: a response and its encoding.
pub mod Encoding
use yolanda.Outcome.{Outcome, ok, ◌>>=◌}
use yolanda.Memory.{Bytes}
use yolanda.Prelude.{◌∷◌, ◌++◌, some, true, false, ℕ, List, Bool, length, [], take}
use yolanda.Http.Text.{codes, decimal, digits_max}
use yolanda.Http.Response.{HttpStatusCode, code_number}
use yolanda.Buffer.{cr, lf}
use yolanda.Yolandapp.Buffer.{StringBuffer, append_data, append_string}

-- `struct http_response`; the headers are in the order of their keys, as the map has them.
pub record PortResponse : Type 0 where
  pub status_code : HttpStatusCode
  pub status_message : Bytes
  pub content_type : Bytes
  pub body : Bytes
  pub sorted_headers : List (Bytes × Bytes)
  pub keep_connected : Bool

unfoldable pub response_new : PortResponse
response_new = record {
  status_code = HttpStatusCode.unknown;
  status_message = [];
  content_type = [];
  body = [];
  sorted_headers = [];
  keep_connected = false;
}

abbrev pub crlf : Bytes
crlf = cr ∷ lf ∷ []

-- `snprintf(buf, sizeof(buf), …)`, without the final zero.
unfoldable pub snprintf_256 : Bytes → Bytes
snprintf_256 text = take 255 text

abbrev pub status_start : HttpStatusCode → Bytes
status_start code =
    snprintf_256 (codes "HTTP/1.1 " ++ (decimal digits_max (code_number code) ++ 32 ∷ []))

abbrev pub content_length : Bytes → Bytes
content_length body =
    snprintf_256 (codes "Content-Length: " ++ (decimal digits_max (length body) ++ crlf))

module _ (max_size : ℕ) where
  unfoldable pub append_connection : PortResponse → StringBuffer → Outcome StringBuffer
  append_connection r s = elim r.keep_connected [
    | true ↦ append_string max_size s (codes "Connection: close" ++ crlf)
    | false ↦ do
      s₁ ← append_data max_size s (some (content_length r.body))
      append_string max_size s₁ (codes "Connection: Keep-Alive" ++ crlf)
  ]

  unfoldable pub append_header : Bytes × Bytes → StringBuffer → Outcome StringBuffer
  append_header h s = do
    s₁ ← append_string max_size s h.0
    s₂ ← append_string max_size s₁ (codes ": ")
    s₃ ← append_string max_size s₂ h.1
    append_string max_size s₃ crlf

  unfoldable pub append_headers : List (Bytes × Bytes) → StringBuffer → Outcome StringBuffer
  append_headers [] s = ok s
  append_headers (h ∷ hs) s = do s' ← append_header h s; append_headers hs s'

  -- `encode_buffer`
  unfoldable pub encode_buffer : PortResponse → StringBuffer → Outcome StringBuffer
  encode_buffer r s = do
    s₁ ← append_data max_size s (some (status_start r.status_code))
    s₂ ← append_string max_size s₁ r.status_message
    s₃ ← append_string max_size s₂ crlf
    s₄ ← append_connection r s₃
    s₅ ← append_headers r.sorted_headers s₄
    s₆ ← append_string max_size s₅ crlf
    append_string max_size s₆ r.body
