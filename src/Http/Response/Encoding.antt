-- ===== src/Http/Response/Encoding.antt =====
-- The bytes of an encoded response.
use yolanda.Prelude.Slices.{take-of_ge}
use yolanda.Buffer.Append.{Appended}
use yolanda.Buffer.Contents.{IsValid}
use yolanda.Buffer.Writes.{
  IsPlenty, Writes, Writes-nothing, Writes-then, buffer_append-Writes, Writes-same,
}
use yolanda.Outcome.{int_max, ok, ◌>>=◌}
use yolanda.Buffer.{cr, lf, Buffer, buffer_append_string}
use yolanda.Memory.{Bytes, Realloc, ReallocLaws}
use yolanda.Http.Text.{decimal, snprintf_32, codes, digits_max}
use yolanda.Http.Response.{
  HttpResponse, HttpStatusCode, ResponseHeader, append_headers, append_text, code_number,
  append_connection, append_status, http_response_encode_buffer, append_length, unknown, success,
  moved_permanently, bad_request, not_found,
}
use yolanda.Prelude.{
  ◌+◌, ◌≤◌, ◌<◌, ◌≡◌, ◌∷◌, ◌++◌, some, true, false, ℕ, List, Bool, arith, zero, suc, length, [],
  ◌*◌, ◌/◌, ◌%◌, sym, subst, Option, length-append, refl,
}

abbrev crlf : Bytes
crlf = cr ∷ lf ∷ []

-- "HTTP/1.1 <code> <message>"
abbrev pub status_line : HttpStatusCode → Bytes → Bytes
status_line code message =
    (codes "HTTP/1.1 " ++ (decimal digits_max (code_number code) ++ codes " ")) ++ (message ++ crlf)

-- The lines about the body and the connection.
abbrev pub connection_lines : Bool → Bytes → Bytes
connection_lines true body = codes "Connection: close" ++ crlf
connection_lines false body =
    (codes "Content-Length: " ++ (decimal digits_max (length body) ++ crlf))
    ++ (codes "Connection: Keep-Alive" ++ crlf)

abbrev pub header_lines : List ResponseHeader → Bytes
header_lines [] = []
header_lines (h ∷ hs) = h.key ++ (codes ": " ++ (h.value ++ (crlf ++ header_lines hs)))

-- A response with a message and a body: its status line, its lines about the connection, its
-- headers in order, an empty line and the body.
abbrev pub response_text : HttpResponse → Bytes → Bytes → Bytes
response_text r message body =
    status_line r.status_code message
    ++ (connection_lines r.keep_connected body
        ++ (header_lines r.response_headers ++ (crlf ++ body)))

-- 10^k
abbrev ten : ℕ → ℕ
ten zero = 1
ten (suc k) = 10 * ten k

length-decimal : (fuel k n : ℕ) → n < ten (suc k) → length (decimal fuel n) ≤ suc k
unfolding decimal
length-decimal zero k n h = omega arith
length-decimal (suc fuel) zero n h = ground arith
length-decimal (suc fuel) (suc k) n h =
    let ih = length-decimal fuel k (n / 10) (omega arith) in
    let e = length-append (decimal fuel (n / 10)) ((48 + n % 10) ∷ []) in ground (arith, ih, e)

short : (text : Bytes) → length text ≤ 31 → snprintf_32 text ≡ text
unfolding snprintf_32
short text h = take-of_ge 31 text h

status-short :
    (code : HttpStatusCode)
    → length (codes "HTTP/1.1 " ++ (decimal digits_max (code_number code) ++ codes " ")) ≤ 31
unfolding decimal code_number
status-short unknown = omega arith
status-short success = omega arith
status-short moved_permanently = omega arith
status-short bad_request = omega arith
status-short not_found = omega arith

length_line-short :
    (body : Bytes)
    → length body ≤ int_max
    → length (codes "Content-Length: " ++ (decimal digits_max (length body) ++ crlf)) ≤ 31
length_line-short body h =
    let e = length-append (decimal digits_max (length body)) crlf in
    let k = length-decimal digits_max 9 (length body) (omega arith) in omega (arith, e, k)

body_short :
    (r : HttpResponse) (message body : Bytes) (output : Buffer)
    → output.total_size + length (response_text r message body) ≤ int_max
    → length body ≤ int_max
body_short r message body output h =
    let lines = connection_lines r.keep_connected body in
    let hs = header_lines r.response_headers in
    let e₁ = length-append (status_line r.status_code message) (lines ++ (hs ++ (crlf ++ body))) in
    let e₂ = length-append lines (hs ++ (crlf ++ body)) in
    let e₃ = length-append hs (crlf ++ body) in
    let e₄ = length-append crlf body in omega (arith, e₁, e₂, e₃, e₄)

module _ (realloc : Realloc) (laws : ReallocLaws realloc) (plenty : IsPlenty realloc) where
  text-Writes : (text : Bytes) → Writes (λ b. append_text realloc b text) text
  unfolding append_text buffer_append_string
  text-Writes text = buffer_append-Writes realloc laws plenty text

  snprintf-Writes :
      (text : Bytes)
      → length text ≤ 31
      → Writes (λ b. append_text realloc b (snprintf_32 text)) text
  snprintf-Writes text h =
      subst (λ t. Writes (λ b. append_text realloc b t) text) (sym (short text h))
        (text-Writes text)

  string-Writes :
      (o : Option Bytes) (text : Bytes)
      → o ≡ some text
      → Writes (λ b. buffer_append_string realloc b o) text
  unfolding buffer_append_string
  string-Writes o text e =
      subst (λ p. Writes (λ b. buffer_append_string realloc b p) text) (sym e)
        (buffer_append-Writes realloc laws plenty text)

  status-Writes :
      (r : HttpResponse) (message : Bytes)
      → r.status_message ≡ some message
      → Writes (append_status realloc r) (status_line r.status_code message)
  unfolding append_status
  status-Writes r message e =
      Writes-then _ _
        (codes "HTTP/1.1 " ++ (decimal digits_max (code_number r.status_code) ++ codes " ")) _
        (snprintf-Writes _ (status-short r.status_code))
        (Writes-then _ _ message _ (string-Writes _ message e) (text-Writes crlf))

  kept-Writes :
      (body : Bytes)
      → length body ≤ int_max
      → Writes
          (λ b. append_length realloc body b >>= λ b₁.
            append_text realloc b₁ (codes "Connection: Keep-Alive" ++ crlf))
          (connection_lines false body)
  unfolding append_length
  kept-Writes body h =
      Writes-then _ _ (codes "Content-Length: " ++ (decimal digits_max (length body) ++ crlf)) _
        (snprintf-Writes _ (length_line-short body h))
        (text-Writes (codes "Connection: Keep-Alive" ++ crlf))

  connection-Writes :
      (r : HttpResponse) (body : Bytes) (keep : Bool)
      → r.keep_connected ≡ keep
      → r.body ≡ some body
      → length body ≤ int_max
      → Writes (append_connection realloc r) (connection_lines keep body)
  unfolding append_connection
  connection-Writes r body true k e h =
      Writes-same (append_connection realloc r)
        (λ b. append_text realloc b (codes "Connection: close" ++ crlf)) _ (λ b. rw k refl)
        (text-Writes (codes "Connection: close" ++ crlf))
  connection-Writes r body false k e h =
      Writes-same (append_connection realloc r)
        (λ b. append_length realloc body b >>= λ b₁.
          append_text realloc b₁ (codes "Connection: Keep-Alive" ++ crlf))
        _ (λ b. rw (k, e) refl) (kept-Writes body h)

  headers-Writes : (hs : List ResponseHeader) → Writes (append_headers realloc hs) (header_lines hs)
  unfolding append_headers
  headers-Writes [] = Writes-nothing
  headers-Writes (h ∷ hs) = Writes-then _ _ h.key _ (text-Writes h.key) (
      Writes-then _ _ (codes ": ") _ (text-Writes (codes ": ")) (
        Writes-then _ _ h.value _ (text-Writes h.value)
          (Writes-then _ _ crlf _ (text-Writes crlf) (headers-Writes hs))))

  encode-Writes :
      (r : HttpResponse) (message body : Bytes)
      → r.status_message ≡ some message
      → r.body ≡ some body
      → length body ≤ int_max
      → Writes (http_response_encode_buffer realloc r) (response_text r message body)
  unfolding http_response_encode_buffer
  encode-Writes r message body e f h =
      Writes-then _ _ (status_line r.status_code message) _ (status-Writes r message e) (
        Writes-then _ _ (connection_lines r.keep_connected body) _
          (connection-Writes r body r.keep_connected refl f h)
          (Writes-then _ _ (header_lines r.response_headers) _ (headers-Writes r.response_headers)
            (Writes-then _ _ crlf _ (text-Writes crlf) (string-Writes _ body f))))

  -- A response with a message and a body is encoded, behind what the buffer holds, as its text,
  -- provided that the buffer is valid and an `int` can hold the size that it has then, and that
  -- `realloc` gives every block of such a size.
  pub encode_buffer-Appended :
      (r : HttpResponse) (message body : Bytes) (output : Buffer)
      → r.status_message ≡ some message
      → r.body ≡ some body
      → IsValid output
      → output.total_size + length (response_text r message body) ≤ int_max
      → (b' : Buffer) × (http_response_encode_buffer realloc r output ≡ ok b')
        × Appended output (response_text r message body) b'
  encode_buffer-Appended r message body output e f v h =
      let (b', done, a, _) =
        encode-Writes r message body e f (body_short r message body output h) output v h in
      (b', done, a)
