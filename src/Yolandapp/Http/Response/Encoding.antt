-- ===== src/Yolandapp/Http/Response/Encoding.antt =====
-- The text that a response is encoded as.
use yolanda.Yolandapp.Buffer.{StringBuffer, append_data, append_string}
use yolanda.Outcome.{ok, Outcome, ◌>>=◌}
use yolanda.Memory.{Bytes}
use yolanda.Http.Text.{codes}
use yolanda.Prelude.{
  ◌+◌, ◌*◌, ◌^◌, ◌≤◌, ◌<◌, ◌≡◌, ◌∙◌, ◌∷◌, ◌++◌, refl, sym, ap, some, true, false, ℕ, List, Bool,
  arith, length, [], append-nil, length-append, append_assoc,
}
use yolanda.Yolandapp.Http.Response.{
  PortResponse, encode_buffer, append_headers, append_header, append_connection, crlf, status_start,
  content_length,
}
use yolanda.Yolandapp.Buffer.Append.{
  IsSound, Extended, append_data-Extended, append_string-Extended, held,
}

abbrev pub connection_text : PortResponse → Bytes
connection_text r = elim r.keep_connected [
  | true ↦ codes "Connection: close" ++ crlf
  | false ↦ content_length r.body ++ (codes "Connection: Keep-Alive" ++ crlf)
]

unfoldable pub headers_text : List (Bytes × Bytes) → Bytes
headers_text [] = []
headers_text (h ∷ hs) = (h.0 ++ (codes ": " ++ (h.1 ++ crlf))) ++ headers_text hs

unfoldable pub response_text : PortResponse → Bytes
response_text r =
    status_start r.status_code
    ++ (r.status_message
        ++ (crlf ++ (connection_text r ++ (headers_text r.sorted_headers ++ (crlf ++ r.body)))))

module _ (max_size : ℕ) (small : max_size < 2 ^ 63) where
  -- On a sound buffer that may grow by twice the length of `src`, `op` puts `src` behind the readable
  -- bytes, and the string grows by no more.
  record Appends (op : StringBuffer → Outcome StringBuffer) (src : Bytes) : Type 0 where
    run :
        (s : StringBuffer)
        → IsSound max_size s
        → length s.chars + 2 * length src ≤ max_size
        → (s' : StringBuffer) × (op s ≡ ok s')
          × Extended max_size s src s'
          × (length s'.chars ≤ length s.chars + 2 * length src)

  Appends-data : (src : Bytes) → Appends (λ s. append_data max_size s (some src)) src
  Appends-data src = record {
    run = λ s v h.
        let (s', run, e, bound) = append_data-Extended max_size s src small v (omega arith) in
        (s', run, e, omega arith);
  }

  Appends-text : (src : Bytes) → Appends (λ s. append_string max_size s src) src
  Appends-text src = record {
    run = λ s v h.
        let (s', run, e, longer, bound) = append_string-Extended max_size s src small v h in
        (s', run, e, bound);
  }

  Appends-nothing : Appends (λ s. ok s) []
  Appends-nothing = record {
    run = λ s v h.
        (s, refl, record { sound = v; bytes = sym (append-nil (held max_size s)) }, omega arith);
  }

  Appends-then :
      {f g : StringBuffer → Outcome StringBuffer} (a b : Bytes)
      → Appends f a
      → Appends g b
      → Appends (λ s. f s >>= g) (a ++ b)
  Appends-then {f} {g} a b p q = record {
    run = λ s v h.
        let len = length-append a b in
        let (s₁, run, e, bound) = p.run s v (omega (arith, len)) in
        let (s₂, run', e', bound') = q.run s₁ e.sound (omega (arith, len)) in
        (
          s₂,
          ap (λ o. o >>= g) run ∙ run',
          record {
            sound = e'.sound;
            bytes = e'.bytes ∙ ap (λ xs. xs ++ b) e.bytes ∙ append_assoc (held max_size s) a b;
          },
          omega (arith, len),
        );
  }

  append_connection-Appends :
      (r : PortResponse) → Appends (append_connection max_size r) (connection_text r)
  unfolding append_connection
  append_connection-Appends r = connected r.keep_connected
    where
      connected :
          (keep : Bool)
          → Appends
              (append_connection max_size (record r { keep_connected = keep }))
              (connection_text (record r { keep_connected = keep }))
      connected true = Appends-text (codes "Connection: close" ++ crlf)
      connected false =
          Appends-then (content_length r.body) (codes "Connection: Keep-Alive" ++ crlf)
            (Appends-data (content_length r.body))
            (Appends-text (codes "Connection: Keep-Alive" ++ crlf))

  append_headers-Appends :
      (hs : List (Bytes × Bytes)) → Appends (append_headers max_size hs) (headers_text hs)
  unfolding append_headers append_header headers_text
  append_headers-Appends [] = Appends-nothing
  append_headers-Appends (h ∷ hs) =
      Appends-then (h.0 ++ (codes ": " ++ (h.1 ++ crlf))) (headers_text hs)
        (Appends-then h.0 (codes ": " ++ (h.1 ++ crlf)) (Appends-text h.0) (
          Appends-then (codes ": ") (h.1 ++ crlf) (Appends-text (codes ": "))
            (Appends-then h.1 crlf (Appends-text h.1) (Appends-text crlf))))
        (append_headers-Appends hs)

  -- On a sound buffer that may grow by twice the text, below a limit of 2^63, a response is encoded as
  -- its status line, its lines about the connection, its headers in order, an empty line and the body.
  pub encode_buffer-Extended :
      (r : PortResponse) (s : StringBuffer)
      → IsSound max_size s
      → length s.chars + 2 * length (response_text r) ≤ max_size
      → (s' : StringBuffer) × (encode_buffer max_size r s ≡ ok s')
        × Extended max_size s (response_text r) s'
        × (length s'.chars ≤ length s.chars + 2 * length (response_text r))
  unfolding encode_buffer response_text
  encode_buffer-Extended r = text.run
    where
      text : Appends (encode_buffer max_size r) (response_text r)
      text = Appends-then _ _ (Appends-data (status_start r.status_code)) (
          Appends-then _ _ (Appends-text r.status_message) (
            Appends-then _ _ (Appends-text crlf) (
              Appends-then _ _ (append_connection-Appends r) (
                Appends-then _ _ (append_headers-Appends r.sorted_headers)
                  (Appends-then _ _ (Appends-text crlf) (Appends-text r.body))))))
