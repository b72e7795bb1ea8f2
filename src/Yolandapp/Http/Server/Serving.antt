-- ===== src/Yolandapp/Http/Server/Serving.antt =====
-- From the bytes of a request to the bytes of its answer.
use yolanda.Http.Parser.Lines.{AreHeaders, request_text}
use yolanda.Prelude.Int.{ℤ, pos}
use yolanda.Outcome.{int_max, ok, ◌>>=◌, Outcome, deref}
use yolanda.Http.Request.{request_done}
use yolanda.Memory.{Bytes}
use yolanda.Prelude.{
  ◌+◌, ◌*◌, ◌^◌, ◌≤◌, ◌<◌, ◌≡◌, if◌then◌else◌, refl, none, some, ℕ, List, Bool, arith, length, [],
  length-replicate, ◌-◌, ◌∙◌, ◌++◌, sym, ap, subst, length-take, take, drop, length-drop, Option,
}
use yolanda.Http.Text.{find_byte}
use yolanda.Http.Parser.{space}
use yolanda.Buffer.{cr, init_buffer_size}
use yolanda.TcpConnection.{LoopOps, WriteResult, wrote}
use yolanda.Yolandapp.Buffer.{StringBuffer, string_buffer_new, readable}
use yolanda.Yolandapp.Buffer.Append.{IsSound, held}
use yolanda.Yolandapp.Http.{PortRequest, request_new, clear, parse_http_request}
use yolanda.Yolandapp.Http.Parsing.{first_value}
use yolanda.Yolandapp.Http.Whole.{parse_http_request-whole}
use yolanda.Yolandapp.Http.Response.{PortResponse, response_new}
use yolanda.Yolandapp.Http.Response.Encoding.{response_text, encode_buffer-Extended}
use yolanda.Yolandapp.Http.Server.{
  HttpApp, HttpConnection, RequestCallback, call_request, closes_after, respond, after_parse,
  http_on_message,
}
use yolanda.Yolandapp.TcpConnection.{PortCallbacks, send_buffer, shutdown}
use yolanda.Yolandapp.TcpConnection.Sending.{IsQuiet, send_data-Settled, all_written, Settled}

-- The request that a text is parsed to.
abbrev pub request_of : Bytes → Bytes → Bytes → List (Bytes × Bytes) → PortRequest
request_of method url version hs = record {
  version = version;
  method = method;
  url = url;
  cur_state = request_done;
  headers = first_value hs;
}

module _ {S : Type 0} (ops : LoopOps S) (callbacks : PortCallbacks HttpApp S) (max_size : ℕ)
    (small : max_size < 2 ^ 63) where
  fresh-IsSound :
      init_buffer_size ≤ max_size
      → IsSound max_size (string_buffer_new init_buffer_size)
        × (held max_size (string_buffer_new init_buffer_size) ≡ [])
        × (length ((string_buffer_new init_buffer_size).chars) ≡ init_buffer_size)
  unfolding string_buffer_new
  fresh-IsSound h =
      let len = length-replicate {A = ℕ} init_buffer_size 0 in
      (
        record { readable = omega arith; writable = omega arith; limit = omega (arith, len) },
        refl,
        len,
      )

  length-held :
      (s : StringBuffer)
      → IsSound max_size s
      → length (held max_size s) ≡ s.write_index - s.read_index
  length-held s v = omega (
    arith,
    v.readable,
    v.writable,
    length-take (s.write_index - s.read_index) (drop s.read_index s.chars),
    length-drop s.read_index s.chars,
  )

  -- A buffer whose bytes the kernel takes whole.
  send_buffer-whole :
      (write : Bytes → WriteResult) (s : StringBuffer) (c : HttpConnection) (st : S) (text : Bytes)
      → IsQuiet ops callbacks max_size c
      → c.output_buffer.write_index < 2 ^ 64
      → IsSound max_size s
      → held max_size s ≡ text
      → length text ≤ int_max
      → write text ≡ wrote (length text)
      → (result : ℤ) × (sent : StringBuffer) × (send_buffer ops callbacks max_size write s c st
          ≡ ok (result, sent, c, ops.hand_over (c.channel.fd) text st))
  unfolding send_buffer readable
  send_buffer-whole write s c st text q w v same short takes =
      let n : readable s ≡ s.write_index - s.read_index =
        omega (arith, v.readable, v.writable, v.limit, small) in
      let len : length text ≡ s.write_index - s.read_index =
        ap length (sym same) ∙ length-held s v in
      let bytes : take (readable s) (drop s.read_index s.chars) ≡ text =
        ap (λ k. take k (drop s.read_index s.chars)) n ∙ same in
      let answer : write (take (readable s) (drop s.read_index s.chars)) ≡ wrote (readable s) =
        ap (λ k. write (take k (drop s.read_index s.chars))) n
        ∙ ap write same
        ∙ takes
        ∙ ap wrote (len ∙ sym n) in
      let sent =
        send_data-Settled ops callbacks max_size write s.chars s.read_index (readable s)
          (readable s) c st q w (omega (arith, n, v.readable, v.writable))
          (omega (arith, n, len, short))
          (subst (λ a. Settled ops callbacks max_size (readable s) a (readable s)) (sym answer)
            all_written) in
      (
        pos (readable s),
        record s { read_index = s.read_index + readable s },
        ap (λ o. o >>= λ z. ok (z.0, record s { read_index = s.read_index + readable s }, z.1, z.2))
              sent
            ∙ ap
                (λ xs. ok (
                  pos (readable s),
                  record s { read_index = s.read_index + readable s },
                  c,
                  ops.hand_over (c.channel.fd) xs st,
                ))
                bytes,
      )

  respond_lem :
      (write : Bytes → WriteResult) (r r' : PortRequest) (response : PortResponse) (closes : Bool)
      (callback : RequestCallback) (c : HttpConnection) (s : S)
      → IsQuiet ops callbacks max_size c
      → c.output_buffer.write_index < 2 ^ 64
      → c.app.server ≡ some callback
      → call_request callback r response_new ≡ (r', response)
      → closes_after r' ≡ ok closes
      → init_buffer_size + 2 * length (response_text response) ≤ max_size
      → length (response_text response) ≤ int_max
      → write (response_text response) ≡ wrote (length (response_text response))
      → respond ops callbacks max_size write r c s
        ≡ ok (
          record c { app = record (c.app) { request = some request_new } },
          (let s' = ops.hand_over (c.channel.fd) (response_text response) s in
              if closes then shutdown ops callbacks max_size c s' else s'),
        )
  unfolding respond request_new clear
  respond_lem write r r' response closes callback c s q w has gives ends room short takes =
      let (sound, nothing, len) = fresh-IsSound (omega (arith, room)) in
      let (encoded, run, extended, bound) =
        encode_buffer-Extended max_size small response (string_buffer_new init_buffer_size) sound
          (omega (arith, len, room)) in
      let text : held max_size encoded ≡ response_text response =
        extended.bytes ∙ ap (λ xs. xs ++ response_text response) nothing in
      let (result, sent, run') =
        send_buffer-whole write encoded c s (response_text response) q w extended.sound text short
          takes in
      ground (arith, has, gives, run, run', ends)

  -- A connection is quiet, an `int` counts the characters of its input buffer and of the text that the
  -- callback's response stands for, a limit below 2^63 leaves room for that text twice over in a new
  -- buffer, and the kernel takes the text whole. If a whole request as in `parse_http_request-whole`
  -- stands at the read index, one call parses it, hands it to the callback, calls
  -- `write` once, on the connection's descriptor and with exactly that text,
  -- shuts the connection down if the request then asks for it, and leaves a new request and the read index
  -- behind the old one.
  pub http_on_message-whole :
      (write : Bytes → WriteResult) (method url version : Bytes) (hs : List (Bytes × Bytes))
      (tail : Bytes) (r : PortRequest) (response : PortResponse) (closes : Bool)
      (callback : RequestCallback) (c : HttpConnection) (s : S)
      → find_byte cr method ≡ none
      → find_byte cr url ≡ none
      → find_byte cr version ≡ none
      → find_byte space method ≡ none
      → find_byte space url ≡ none
      → AreHeaders hs
      → length c.input_buffer.chars ≤ int_max
      → drop c.input_buffer.read_index c.input_buffer.chars
        ≡ request_text method url version hs tail
      → c.app.request ≡ some request_new
      → c.app.server ≡ some callback
      → IsQuiet ops callbacks max_size c
      → c.output_buffer.write_index < 2 ^ 64
      → call_request callback (request_of method url version hs) response_new ≡ (r, response)
      → closes_after r ≡ ok closes
      → init_buffer_size + 2 * length (response_text response) ≤ max_size
      → length (response_text response) ≤ int_max
      → write (response_text response) ≡ wrote (length (response_text response))
      → (input : StringBuffer) × (http_on_message ops callbacks max_size (length hs + 3) write c s
          ≡ ok (
              some (
                record c {
                  input_buffer = input;
                  app = record (c.app) { request = some request_new };
                },
                (let s' = ops.hand_over (c.channel.fd) (response_text response) s in
                    if closes then shutdown ops callbacks max_size c s' else s'),
              )))
        × (drop input.read_index input.chars ≡ tail)
  unfolding http_on_message after_parse shutdown
  http_on_message-whole write method url version hs tail r response closes callback c s m u v sm su
        h small' at has serves q w gives ends room short takes =
      let (input, run, left) =
        parse_http_request-whole c.input_buffer method url version hs tail m u v sm su h small'
          at in
      let parsed : HttpConnection = record c {
        input_buffer = input;
        app = record (c.app) { request = some (request_of method url version hs) };
      } in
      let answered =
        respond_lem write (request_of method url version hs) r response closes callback parsed s
          (record { disabled = q.disabled; empty = q.empty }) w serves gives ends room short
          takes in
      let next : Option (ℕ × StringBuffer × PortRequest) → Outcome (Option (HttpConnection × S)) =
        λ z. elim z [
          | none ↦ ok none
          | some (result, input', r') ↦ do
            let c' = record c { input_buffer = input'; app = record (c.app) { request = some r' } }
            done ← after_parse ops callbacks max_size write result r' c' s
            ok (some done)
        ] in
      (
        input,
        ap (λ o. deref o >>= λ a. parse_http_request (length hs + 3) c.input_buffer a >>= next) has
            ∙ ap (λ o. o >>= next) run
            ∙ ap (λ o. o >>= λ done. ok (some done)) answered,
        left,
      )
