-- ===== src/Http/Request/Closing.antt =====
-- When the server closes a connection after its answer.
use yolanda.Prelude.Int.{pos}
use yolanda.Memory.{Bytes}
use yolanda.Outcome.{ok, fault, null_pointer}
use yolanda.Http.Text.{codes, strncmp}
use yolanda.Http.Request.{
  http_request_close_connection, starts, not_kept, HttpRequest, http_request_get_header,
}
use yolanda.Prelude.{◌≡◌, none, some, ℕ, arith}

module _ (greater : ℕ → ℕ → ℕ) where
  -- A request of version 1.0 without a header whose key begins with "Connection" has
  -- `http_request_close_connection` read through a null pointer.
  pub close_connection_unsent :
      (r : HttpRequest)
      → http_request_get_header greater r (codes "Connection") ≡ ok none
      → (block : Bytes) → r.version ≡ some block
      → strncmp greater block (codes "HTTP/1.0") ≡ ok (pos 0)
      → http_request_close_connection greater r ≡ fault null_pointer
  unfolding http_request_close_connection starts not_kept
  close_connection_unsent r h block e z = ground (arith, h, e, z)
