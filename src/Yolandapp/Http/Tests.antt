-- ===== src/Yolandapp/Http/Tests.antt =====
-- The HTTP server of the port at a small request.
use yolanda.Http.Parser.Lines.{header_text, request_text}
use yolanda.Yolandapp.Http.Server.Early.{http_on_message-early}
use yolanda.Prelude.{◌≡◌, ◌∷◌, refl, none, some, true, ℕ, arith, length, [], drop, List}
use yolanda.Prelude.Int.{pos}
use yolanda.Outcome.{fault, null_pointer, ok}
use yolanda.Memory.{Bytes}
use yolanda.Channel.{channel_new, connection}
use yolanda.TcpConnection.{LoopOps, WriteResult, wrote}
use yolanda.Http.Text.{find_byte, codes, decimal}
use yolanda.Http.Response.{HttpStatusCode, code_number}
use yolanda.Yolandapp.Buffer.{StringBuffer}
use yolanda.Yolandapp.TcpConnection.{PortCallbacks, shutdown, tcp_connection}
use yolanda.Yolandapp.TcpConnection.Sending.{IsQuiet}
use yolanda.Yolandapp.Http.{
  PortRequest, request_new, same_bytes, close_connection, get_header, c_str,
}
use yolanda.Yolandapp.Http.Parsing.{first_value}
use yolanda.Yolandapp.Http.Response.{PortResponse, response_new, snprintf_256}
use yolanda.Yolandapp.Http.Response.Encoding.{response_text, headers_text}
use yolanda.Yolandapp.Http.Server.{
  HttpApp, HttpConnection, RequestCallback, call_request, http_on_connection_completed,
  http_on_message,
}
use yolanda.Yolandapp.Http.Server.Serving.{request_of, http_on_message-whole}

-- The body is the url of the request.
abbrev names_url : RequestCallback
names_url = some (λ r p. (r, record p { status_code = HttpStatusCode.success; body = r.url }))

abbrev closing : List (Bytes × Bytes)
closing = (codes "Connection", codes "close") ∷ []

abbrev asked : PortRequest
asked = request_of (71 ∷ []) (47 ∷ []) (72 ∷ []) closing

abbrev answer : PortResponse
answer = record response_new { status_code = HttpStatusCode.success; body = 47 ∷ [] }

abbrev arrived : StringBuffer
arrived = record {
  chars = 0 ∷ request_text (71 ∷ []) (47 ∷ []) (72 ∷ []) closing (71 ∷ []);
  read_index = 1;
  write_index = 30;
}

abbrev ops : LoopOps (List ℕ)
ops = record {
  add_channel = λ c s. ok s;
  remove_channel = λ c s. ok s;
  update_channel = λ c s. ok s;
  shutdown_write = λ fd s. 1 ∷ s;
  hand_over = λ fd bytes s. length bytes ∷ s;
}

abbrev callbacks : PortCallbacks HttpApp (List ℕ)
callbacks = record {
  connection_completed = none;
  message = none;
  write_completed = none;
  connection_closed = none;
}

abbrev client : HttpConnection
client = record {
  channel = channel_new (pos 4) 2 none none (connection 0);
  name = pos 4;
  input_buffer = arrived;
  output_buffer = record { chars = 1 ∷ 2 ∷ []; read_index = 1; write_index = 1 };
  app = record { request = some request_new; server = some names_url };
}

abbrev takes_all : Bytes → WriteResult
takes_all bytes = wrote (length bytes)

client-IsQuiet : IsQuiet ops callbacks 100000 client
unfolding channel_new
client-IsQuiet = record { disabled = refl; empty = refl }

http_on_message-whole_example :
    (input : StringBuffer) × (http_on_message ops callbacks 100000 4 takes_all client []
      ≡ ok (some (record client { input_buffer = input }, 1 ∷ 61 ∷ [])))
    × (drop input.read_index input.chars ≡ 71 ∷ [])
unfolding find_byte header_text response_text call_request response_new same_bytes close_connection
    get_header c_str shutdown decimal headers_text code_number snprintf_256 first_value
http_on_message-whole_example =
    let n : length (response_text answer) ≡ 61 = refl in
    http_on_message-whole ops callbacks 100000 (omega arith) takes_all (71 ∷ []) (47 ∷ []) (72 ∷ [])
      closing (71 ∷ []) asked answer true names_url client [] refl refl refl refl refl
      (refl, refl, refl, tt) (omega arith) refl refl refl client-IsQuiet (omega arith) refl refl
      (omega (arith, n)) (omega (arith, n)) refl

abbrev completing : PortCallbacks HttpApp (List ℕ)
completing = record callbacks {
  connection_completed = some (λ c a. ok (http_on_connection_completed c, a));
}

abbrev empty : StringBuffer
empty = record { chars = []; read_index = 0; write_index = 0 }

http_on_message-early_example :
    (c : HttpConnection) × (tcp_connection ops completing 100000
        (pos 4)
        0
        (record { request = none; server = none })
        empty
        empty
        []
      ≡ ok (c, []))
    × (http_on_message ops completing 100000 4 takes_all (record c { input_buffer = arrived }) []
        ≡ fault null_pointer)
unfolding find_byte header_text
http_on_message-early_example =
    http_on_message-early ops completing 100000 takes_all (71 ∷ []) (47 ∷ []) (72 ∷ []) closing
      (71 ∷ []) (pos 4) 0 empty arrived empty [] [] refl refl refl refl refl (refl, refl, refl, tt)
      (omega arith) refl refl (λ added. refl)
