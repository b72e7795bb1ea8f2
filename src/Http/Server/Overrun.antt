-- ===== src/Http/Server/Overrun.antt =====
-- The zero behind the method, at the server.
use yolanda.Http.Parser.Overrun.{parse_http_request_overruns}
use yolanda.Http.Request.{http_request_new}
use yolanda.Http.Parser.Lines.{request_text}
use yolanda.Http.Parser.{space}
use yolanda.Buffer.{cr}
use yolanda.Http.Text.{find_byte}
use yolanda.Memory.{Realloc, Bytes}
use yolanda.Http.Server.{HttpApp, RequestCallback, http_on_message, HttpConnection}
use yolanda.TcpConnection.{LoopOps, ConnectionCallbacks, WriteResult}
use yolanda.Prelude.{◌≡◌, refl, none, some, ℕ, List, Option, suc, length}
use yolanda.Buffer.Contents.{IsValid, contents}
use yolanda.Outcome.{fault, out_of_bounds}

module _ {S : Type 0} (ops : LoopOps S) (callbacks : ConnectionCallbacks HttpApp S)
    (realloc : Realloc) (malloc : ℕ → Bytes) (greater : ℕ → ℕ → ℕ)
    (request_callback : RequestCallback) where
  -- With an allocator that gives exactly the bytes asked for, the first call of `http_onMessage` for a
  -- connection whose valid input buffer holds a whole request, with no carriage return in the words of
  -- its status line and no space in the method, writes outside of a block.
  pub http_on_message_overruns :
      (rounds : ℕ) (write : Bytes → WriteResult) (block : Bytes) (junk : Option Bytes)
      (method url version : Bytes) (hs : List (Bytes × Bytes)) (tail : Bytes) (c : HttpConnection)
      (s : S)
      → ((n : ℕ) → length (malloc n) ≡ n)
      → IsValid c.input_buffer
      → find_byte cr method ≡ none
      → find_byte cr url ≡ none
      → find_byte cr version ≡ none
      → find_byte space method ≡ none
      → contents c.input_buffer ≡ request_text method url version hs tail
      → c.app.request ≡ some http_request_new
      → http_on_message ops callbacks realloc malloc greater request_callback
          (suc rounds)
          write
          block
          junk
          c
          s
        ≡ fault out_of_bounds
  unfolding http_on_message
  http_on_message_overruns rounds write block junk method url version hs tail c s exact valid nm nu
        nv sm at has =
      let run =
        parse_http_request_overruns malloc rounds c.input_buffer method url version hs tail exact
          valid nm nu nv sm at in
      rw has (rw run refl)
