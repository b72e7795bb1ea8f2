-- ===== src/Yolandapp/Http/Server/Early.antt =====
-- A request that is read before the connection has been handed its server.
use yolanda.Http.Parser.Lines.{AreHeaders, request_text}
use yolanda.Prelude.Int.{ℤ}
use yolanda.Outcome.{Outcome, int_max, ok, fault, null_pointer, ◌>>=◌}
use yolanda.Memory.{Bytes}
use yolanda.Channel.{Callback, Channel, channel_new, connection, event_read}
use yolanda.Prelude.{◌+◌, ◌≤◌, ◌≡◌, ◌∙◌, ap, none, some, ℕ, List, Option, length, drop}
use yolanda.Http.Text.{find_byte}
use yolanda.Http.Parser.{space}
use yolanda.Buffer.{cr}
use yolanda.TcpConnection.{LoopOps, WriteResult}
use yolanda.Yolandapp.Buffer.{StringBuffer}
use yolanda.Yolandapp.Http.{PortRequest}
use yolanda.Yolandapp.Http.Whole.{parse_http_request-whole}
use yolanda.Yolandapp.Http.Server.{
  HttpApp, HttpConnection, http_on_connection_completed, respond, after_parse, http_on_message,
}
use yolanda.Yolandapp.TcpConnection.{PortCallbacks, tcp_connection, run_callback}

module _ {S : Type 0} (ops : LoopOps S) (callbacks : PortCallbacks HttpApp S) (max_size : ℕ) where
  -- A connection is made with the callback of the HTTP server, and its channel is added to its loop. If
  -- the loop's thread reads a whole request, as in `parse_http_request-whole`, before the accepting
  -- thread has set `data`, `http_onMessage` reads through this pointer, which nothing has set.
  pub http_on_message-early :
      (write : Bytes → WriteResult) (method url version : Bytes) (hs : List (Bytes × Bytes))
      (tail : Bytes) (fd : ℤ) (self : ℕ) (input received output : StringBuffer) (s s' : S)
      → find_byte cr method ≡ none
      → find_byte cr url ≡ none
      → find_byte cr version ≡ none
      → find_byte space method ≡ none
      → find_byte space url ≡ none
      → AreHeaders hs
      → length received.chars ≤ int_max
      → drop received.read_index received.chars ≡ request_text method url version hs tail
      → callbacks.connection_completed ≡ some (λ c a. ok (http_on_connection_completed c, a))
      → ((added : Channel) → ops.add_channel added s ≡ ok s')
      → (c : HttpConnection) × (tcp_connection ops callbacks max_size fd self
            (record { request = none; server = none })
            input
            output
            s
          ≡ ok (c, s'))
        × (http_on_message ops callbacks max_size
              (length hs + 3)
              write
              (record c { input_buffer = received })
              s'
            ≡ fault null_pointer)
  unfolding tcp_connection run_callback http_on_message after_parse respond
      http_on_connection_completed
  http_on_message-early write method url version hs tail fd self input received output s s' m u v sm
        su h small at completes adds =
      let (left, run, rest) =
        parse_http_request-whole received method url version hs tail m u v sm su h small at in
      let fresh : HttpConnection = record {
        channel =
            channel_new fd event_read (some Callback.handle_read) (some Callback.handle_write)
              (connection self);
        name = fd;
        input_buffer = input;
        output_buffer = output;
        app = record { request = none; server = none };
      } in
      let made = http_on_connection_completed fresh in
      let add : HttpConnection × S → Outcome (HttpConnection × S) =
        λ z. ops.add_channel (z.0.channel) (z.1) >>= λ a. ok (z.0, a) in
      let next : Option (ℕ × StringBuffer × PortRequest) → Outcome (Option (HttpConnection × S)) =
        λ z. elim z [
          | none ↦ ok none
          | some (result, input', r') ↦ do
            let c' = record made {
              input_buffer = input';
              app = record (made.app) { request = some r' };
            }
            done ← after_parse ops callbacks max_size write result r' c' s'
            ok (some done)
        ] in
      (
        made,
        ap (λ f. run_callback f fresh s >>= add) completes
            ∙ ap (λ o. o >>= λ a. ok (made, a)) (adds (made.channel)),
        ap (λ o. o >>= next) run,
      )
