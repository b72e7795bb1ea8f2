-- ===== src/Http/Server.antt =====
-- The server of lib/http_server.h and lib/http_server.c: the callbacks that it gives to the TCP
-- server, each over a connection.
pub mod Serving
pub mod Overrun
mod Tests
use yolanda.Prelude.Int.{ℤ}
use yolanda.TcpServer.{Sockets, TcpServer, tcp_server_start, acceptor_init, tcp_server_init}
use yolanda.Channel.{Channel}
use yolanda.Http.Parser.{parse_http_request}
use yolanda.Outcome.{Outcome, ◌>>=◌, deref, ok}
use yolanda.Buffer.{cr, buffer_new, lf}
use yolanda.Http.Text.{codes}
use yolanda.Http.Response.{HttpResponse, http_response_new, http_response_encode_buffer}
use yolanda.TcpConnection.{
  Connection, LoopOps, ConnectionCallbacks, WriteResult, tcp_connection_send_data,
  tcp_connection_shutdown, tcp_connection_send_buffer,
}
use yolanda.Memory.{Bytes, Realloc}
use yolanda.Http.Request.{
  HttpRequest, http_request_new, http_request_current_state, request_done,
  http_request_close_connection, http_request_reset,
}
use yolanda.Prelude.{◌∷◌, ◌++◌, ◌==◌, if◌then◌else◌, none, some, true, false, ℕ, Option, Bool, []}

-- What a connection of the HTTP server carries: its request (`none` is NULL), and whether `data`
-- points to the server.
pub record HttpApp : Type 0 where
  pub request : Option HttpRequest
  pub has_server : Bool

abbrev pub HttpConnection : Type 0
HttpConnection = Connection HttpApp

-- `requestCallback`, a function of the application; `none` is NULL.
abbrev pub RequestCallback : Type 0
RequestCallback = Option (HttpRequest → HttpResponse → HttpRequest × HttpResponse)

-- `struct http_server`. The `data` of its TCP server points back to it.
pub record HttpServer (L : Type 0) : Type 0 where
  pub tcp_server : TcpServer L (Unit {0})
  pub request_callback : RequestCallback

abbrev pub serv_port : ℕ
serv_port = 43211

-- The server listens on SERV_PORT, whatever `port` is.
pub http_server_new :
    {L S : Type 0} → Sockets S → L → ℕ → RequestCallback → ℤ → S → Outcome (HttpServer L × S)
http_server_new sys loop port callback thread_num s = do
  (acceptor, s') ← acceptor_init sys serv_port s
  let server = record (tcp_server_init loop acceptor thread_num) { extra = some tt }
  ok (record { tcp_server = server; request_callback = callback }, s')

pub http_server_start :
    {L S : Type 0}
    → (L → Channel → S → Outcome S)
    → Bool
    → (ℕ → L)
    → HttpServer L
    → S
    → Outcome (HttpServer L × S)
http_server_start add same start h s = do
  (server, s') ← tcp_server_start add same start h.tcp_server s
  ok (record h { tcp_server = server }, s')

pub http_on_connection_completed : HttpConnection → HttpConnection
http_on_connection_completed c = record c {
  app = record (c.app) { request = some http_request_new };
}

pub http_on_write_completed : HttpConnection → HttpConnection
http_on_write_completed c = c

pub http_on_connection_closed : HttpConnection → HttpConnection
http_on_connection_closed c = record c { app = record (c.app) { request = none } }

pub run_callback : RequestCallback → HttpRequest → HttpResponse → HttpRequest × HttpResponse
run_callback none r p = (r, p)
run_callback (some f) r p = f r p

-- "HTTP/1.1 400 Bad Request\r\n\r\n"
abbrev error_response : Bytes
error_response = codes "HTTP/1.1 400 Bad Request" ++ cr ∷ lf ∷ cr ∷ lf ∷ []

module _ {S : Type 0} (ops : LoopOps S) (callbacks : ConnectionCallbacks HttpApp S)
    (realloc : Realloc) (malloc : ℕ → Bytes) (greater : ℕ → ℕ → ℕ)
    (request_callback : RequestCallback) where
  abbrev Step : Type 0
  Step = Outcome (HttpConnection × S)

  -- `sizeof(error_response)` is the size of a pointer, 8.
  reject : (Bytes → WriteResult) → HttpConnection → S → Step
  reject write c s = do
    (result, c', s') ← tcp_connection_send_data ops callbacks realloc write error_response 0 8 c s
    ok (c', tcp_connection_shutdown ops callbacks realloc c' s')

  -- `block` is the data of the new buffer, `junk` what `contentType` is left at.
  pub respond :
      (Bytes → WriteResult) → Bytes → Option Bytes → HttpRequest → HttpConnection → S → Step
  unfolding run_callback
  respond write block junk r c s = do
    let (r', response) = run_callback request_callback r (http_response_new junk)
    empty ← deref (buffer_new true (some block))
    encoded ← http_response_encode_buffer realloc response empty
    (result, rest, c', s') ← tcp_connection_send_buffer ops callbacks realloc write encoded c s
    closes ← http_request_close_connection greater r'
    let s'' = if closes then tcp_connection_shutdown ops callbacks realloc c' s' else s'
    ok (record c' { app = record (c'.app) { request = some (http_request_reset r') } }, s'')

  after_parse :
      (Bytes → WriteResult) → Bytes → Option Bytes → ℕ → HttpRequest → HttpConnection → S → Step
  unfolding reject respond
  after_parse write block junk result r c s = do
    (c', s') ← elim (result == 0) [ true ↦ reject write c s | false ↦ ok (c, s) ]
    elim (http_request_current_state r) [
      | request_done ↦ respond write block junk r c' s'
      | _ ↦ ok (c', s')
    ]

  -- `none` means that the parser did not leave its loop within the given rounds.
  pub http_on_message :
      ℕ
      → (Bytes → WriteResult)
      → Bytes
      → Option Bytes
      → HttpConnection
      → S
      → Outcome (Option (HttpConnection × S))
  unfolding after_parse
  http_on_message rounds write block junk c s = do
    r ← deref c.app.request
    parsed ← parse_http_request malloc rounds c.input_buffer r
    elim parsed [
      | none ↦ ok none
      | some (result, input, r') ↦ do
        (c', s') ←
            after_parse write block junk result r'
              (record c { input_buffer = input; app = record (c.app) { request = some r' } }) s
        ok (some (c', s'))
    ]
