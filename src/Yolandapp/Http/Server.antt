-- ===== src/Yolandapp/Http/Server.antt =====
-- yolandapp/http_server.hpp and yolandapp/http_server.cpp: the callbacks that the HTTP server gives to
-- its connections.
pub mod Serving
pub mod Early
use yolanda.Http.Request.{request_done}
use yolanda.Outcome.{Outcome, ◌>>=◌, deref, ok}
use yolanda.Memory.{Bytes}
use yolanda.Prelude.{◌++◌, ◌==◌, if◌then◌else◌, none, some, true, false, ℕ, Option, Bool, length}
use yolanda.Http.Text.{codes}
use yolanda.Buffer.{init_buffer_size}
use yolanda.TcpConnection.{LoopOps, WriteResult}
use yolanda.Yolandapp.Buffer.{string_buffer_new}
use yolanda.Yolandapp.Http.{PortRequest, request_new, clear, close_connection, parse_http_request}
use yolanda.Yolandapp.Http.Response.{PortResponse, response_new, encode_buffer, crlf}
use yolanda.Yolandapp.TcpConnection.{
  PortConnection, PortCallbacks, send_data, send_buffer, shutdown,
}

-- `requestCallback`, `none` where the function is empty. It is handed the request and the response,
-- and may change both.
abbrev pub RequestCallback : Type 0
RequestCallback = Option (PortRequest → PortResponse → PortRequest × PortResponse)

-- What a connection carries: `request`, and in `data` the server, by its callback. A pointer that is
-- null or has not been set is `none`.
pub record HttpApp : Type 0 where
  pub request : Option PortRequest
  pub server : Option RequestCallback

abbrev pub HttpConnection : Type 0
HttpConnection = PortConnection HttpApp

pub http_on_connection_completed : HttpConnection → HttpConnection
http_on_connection_completed c = record c { app = record (c.app) { request = some request_new } }

pub http_on_write_completed : HttpConnection → HttpConnection
http_on_write_completed c = c

pub http_on_connection_closed : HttpConnection → HttpConnection
http_on_connection_closed c = record c { app = record (c.app) { request = none } }

abbrev pub closes_after : PortRequest → Outcome Bool
closes_after =
    close_connection (codes "Connection") (codes "close") (codes "HTTP/1.0") (codes "Keep-Alive")

unfoldable pub call_request :
    RequestCallback → PortRequest → PortResponse → PortRequest × PortResponse
call_request none r p = (r, p)
call_request (some f) r p = f r p

module _ {S : Type 0} (ops : LoopOps S) (callbacks : PortCallbacks HttpApp S) (max_size : ℕ) where
  -- The answer to a request that cannot be parsed.
  unfoldable pub reject : (Bytes → WriteResult) → HttpConnection → S → Outcome (HttpConnection × S)
  reject write c s = do
    let text = codes "HTTP/1.1 400 Bad Request" ++ (crlf ++ crlf)
    (result, c', s') ← send_data ops callbacks max_size write text 0 (length text) c s
    ok (c', shutdown ops callbacks max_size c' s')

  -- The answer to a whole request.
  unfoldable pub respond :
      (Bytes → WriteResult) → PortRequest → HttpConnection → S → Outcome (HttpConnection × S)
  respond write r c s = do
    callback ← deref c.app.server
    let (r', response) = call_request callback r response_new
    encoded ← encode_buffer max_size response (string_buffer_new init_buffer_size)
    (result, sent, c', s') ← send_buffer ops callbacks max_size write encoded c s
    closes ← closes_after r'
    let s'' = if closes then shutdown ops callbacks max_size c' s' else s'
    ok (record c' { app = record (c'.app) { request = some (clear r') } }, s'')

  unfoldable pub after_parse :
      (Bytes → WriteResult) → ℕ → PortRequest → HttpConnection → S → Outcome (HttpConnection × S)
  after_parse write result r c s = do
    (c', s') ← elim (result == 0) [ true ↦ reject write c s | false ↦ ok (c, s) ]
    elim r.cur_state [ request_done ↦ respond write r c' s' | _ ↦ ok (c', s') ]

  -- `http_onMessage`: `none` means that the parser did not leave its loop within the given rounds.
  unfoldable pub http_on_message :
      ℕ → (Bytes → WriteResult) → HttpConnection → S → Outcome (Option (HttpConnection × S))
  http_on_message rounds write c s = do
    r ← deref c.app.request
    parsed ← parse_http_request rounds c.input_buffer r
    elim parsed [
      | none ↦ ok none
      | some (result, input, r') ↦ do
        let c' = record c { input_buffer = input; app = record (c.app) { request = some r' } }
        done ← after_parse write result r' c' s
        ok (some done)
    ]
