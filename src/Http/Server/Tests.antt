-- ===== src/Http/Server/Tests.antt =====
-- An application that finds what a request asks for, and a request with one header.
use yolanda.Http.Server.Overrun.{http_on_message_overruns}
use yolanda.Http.Response.Encoding.{response_text}
use yolanda.Prelude.Int.{pos}
use yolanda.Outcome.{ok, fault, out_of_bounds}
use yolanda.Memory.{Bytes, realloc_zeroed}
use yolanda.Memory.Zeroed.{zeroed_laws}
use yolanda.Buffer.{Buffer}
use yolanda.Buffer.Contents.{IsValid}
use yolanda.Buffer.Writes.{IsPlenty}
use yolanda.Channel.{channel_new, connection}
use yolanda.TcpConnection.{ConnectionCallbacks, LoopOps, WriteResult, wrote}
use yolanda.TcpConnection.Sending.{IsIdle}
use yolanda.Http.Request.{
  http_request_new, http_request_close_connection, HttpRequest, request_done,
}
use yolanda.Http.Response.{HttpResponse, code_number, success}
use yolanda.Http.Parser.Lines.{header_text, request_text}
use yolanda.Http.Server.{
  HttpApp, HttpConnection, RequestCallback, http_on_message, run_callback, respond,
}
use yolanda.Http.Server.Serving.{respond_lem}
use yolanda.Http.Text.{codes, decimal, find_byte}
use yolanda.Prelude.{
  ◌-◌, ◌≡◌, ◌∷◌, ◌++◌, refl, none, some, false, ℕ, List, arith, length, length-replicate, [], take,
  replicate, true,
}

abbrev found : HttpResponse
found = record {
  status_code = success;
  status_message = some (codes "OK");
  content_type = none;
  body = some (codes "hi");
  response_headers = [];
  keep_connected = false;
}

-- It takes the words of the request away.
abbrev answers_hi : RequestCallback
answers_hi = some (λ r p. (http_request_new, found))

abbrev ops : LoopOps (List ℕ)
ops = record {
  add_channel = λ c s. ok s;
  remove_channel = λ c s. ok s;
  update_channel = λ c s. ok s;
  shutdown_write = λ fd s. 1 ∷ s;
  hand_over = λ fd bytes s. length bytes ∷ s;
}

abbrev callbacks : ConnectionCallbacks HttpApp (List ℕ)
callbacks = record {
  connection_completed = none;
  message = none;
  write_completed = none;
  connection_closed = none;
}

abbrev malloc_exact : ℕ → Bytes
malloc_exact n = replicate n 9

exact : (n : ℕ) → length (malloc_exact n) ≡ n
exact n = length-replicate {A = ℕ} n 9

abbrev greater : ℕ → ℕ → ℕ
greater a b = a - b

-- "G / H", the header "A: 1", and the first byte of the next request.
abbrev asked : Buffer
unfolding header_text
asked = record {
  bytes = 0 ∷ request_text (71 ∷ []) (47 ∷ []) (72 ∷ []) ((65 ∷ [], 49 ∷ []) ∷ []) (71 ∷ []);
  read_index = 1;
  write_index = 17;
  total_size = 17;
}

asked-IsValid : IsValid asked
unfolding header_text
asked-IsValid = record {
  block = refl;
  readable = omega arith;
  writable = omega arith;
  in_int = omega arith;
}

abbrev client : HttpConnection
client = record {
  channel = channel_new (pos 4) 2 none none (connection 0);
  name = pos 4;
  input_buffer = asked;
  output_buffer = record { bytes = 1 ∷ 2 ∷ []; read_index = 1; write_index = 1; total_size = 2 };
  app = record { request = some http_request_new; has_server = true };
}

abbrev takes_all : Bytes → WriteResult
takes_all bytes = wrote (length bytes)

client-IsIdle : IsIdle ops callbacks realloc_zeroed client
unfolding channel_new
client-IsIdle = record { disabled = refl; empty = refl }

zeroed-IsPlenty : IsPlenty realloc_zeroed
zeroed-IsPlenty block n h = (take n (block ++ replicate n 0), refl)

-- The request that has been parsed, and is answered with 40 bytes.
abbrev parsed : HttpRequest
parsed = record http_request_new {
  method = some (71 ∷ []);
  url = some (47 ∷ []);
  version = some (72 ∷ []);
  current_state = request_done;
}

respond_lem_example :
    respond ops callbacks realloc_zeroed malloc_exact greater answers_hi takes_all
      (replicate 65536 0)
      none
      parsed
      client
      []
    ≡ ok (client, length (response_text found (codes "OK") (codes "hi")) ∷ [])
unfolding http_request_new run_callback http_request_close_connection decimal code_number
respond_lem_example =
    respond_lem ops callbacks realloc_zeroed malloc_exact greater answers_hi zeroed_laws
      zeroed-IsPlenty takes_all (replicate 65536 0) none parsed http_request_new found (codes "OK")
      (codes "hi") false client [] client-IsIdle (length-replicate {A = ℕ} 65536 0) refl refl refl
      refl (omega arith) refl

http_on_message_overruns_example :
    http_on_message ops callbacks realloc_zeroed malloc_exact greater answers_hi 4 takes_all
      (replicate 65536 0)
      none
      client
      []
    ≡ fault out_of_bounds
unfolding find_byte header_text
http_on_message_overruns_example =
    http_on_message_overruns ops callbacks realloc_zeroed malloc_exact greater answers_hi 3
      takes_all (replicate 65536 0) none (71 ∷ []) (47 ∷ []) (72 ∷ []) ((65 ∷ [], 49 ∷ []) ∷ [])
      (71 ∷ []) client [] exact asked-IsValid refl refl refl refl refl refl
