-- ===== src/Http/Server/Serving.antt =====
-- What the client of a parsed request is sent.
use yolanda.Prelude.Int.{ℤ, pos}
use yolanda.Outcome.{int_max, ok}
use yolanda.Memory.{Bytes, Realloc, ReallocLaws}
use yolanda.Buffer.{Buffer, buffer_new, init_buffer_size}
use yolanda.Buffer.Contents.{IsValid, contents, length-contents, sizes, buffer_new-IsValid}
use yolanda.Buffer.Writes.{IsPlenty}
use yolanda.Http.Request.{
  HttpRequest, http_request_new, http_request_reset, http_request_close_connection,
}
use yolanda.Http.Response.{HttpResponse, http_response_new}
use yolanda.Http.Response.Encoding.{response_text, encode_buffer-Appended}
use yolanda.Http.Server.{HttpApp, HttpConnection, RequestCallback, run_callback, respond}
use yolanda.TcpConnection.{
  ConnectionCallbacks, LoopOps, WriteResult, wrote, tcp_connection_send_buffer,
  tcp_connection_shutdown,
}
use yolanda.TcpConnection.Sending.{IsIdle, send_all_from}
use yolanda.Prelude.{
  ◌+◌, ◌-◌, ◌≤◌, ◌≡◌, ◌∙◌, ◌++◌, if◌then◌else◌, refl, sym, ap, some, ℕ, Option, Bool, arith, length,
}

module _ {S : Type 0} (ops : LoopOps S) (callbacks : ConnectionCallbacks HttpApp S)
    (realloc : Realloc) (malloc : ℕ → Bytes) (greater : ℕ → ℕ → ℕ)
    (request_callback : RequestCallback) where
  -- A valid buffer whose bytes the kernel takes whole.
  send_buffer-whole :
      (write : Bytes → WriteResult) (b : Buffer) (c : HttpConnection) (s : S)
      → IsIdle ops callbacks realloc c
      → IsValid b
      → write (contents b) ≡ wrote (length (contents b))
      → (result : ℤ) × (sent : Buffer) × (tcp_connection_send_buffer ops callbacks realloc write b c
            s
          ≡ ok (result, sent, c, ops.hand_over (c.channel.fd) (contents b) s))
  unfolding tcp_connection_send_buffer
  send_buffer-whole write b c s i v takes =
      let size = (sizes b v).0 in
      let sent =
        send_all_from ops callbacks realloc write b.bytes b.read_index
          (b.write_index - b.read_index) c s i (omega (arith, v.block, v.readable, v.writable))
          (omega (arith, v.block, v.in_int)) (omega (arith, v.in_int, v.writable))
          (takes ∙ ap wrote (length-contents b v)) in
      (
        pos (b.write_index - b.read_index),
        record b { read_index = b.read_index + (b.write_index - b.read_index) },
        ground (arith, size, sent),
      )

  module _ (laws : ReallocLaws realloc) (plenty : IsPlenty realloc) where
    -- A connection has nothing to send, `realloc` always has room, the callback answers the request with
    -- a response that has a message and a body, the text of that response and a new buffer together
    -- fit an `int`, and the kernel takes the text whole. Then `write` is called once, on the
    -- connection's descriptor and with exactly that text, the connection is shut down if the request
    -- that the callback leaves asks for it, and the connection has a new request; nothing else
    -- changes.
    pub respond_lem :
        (write : Bytes → WriteResult) (block : Bytes) (junk : Option Bytes) (r r' : HttpRequest)
        (response : HttpResponse) (message body : Bytes) (closes : Bool) (c : HttpConnection)
        (s : S)
        → IsIdle ops callbacks realloc c
        → length block ≡ init_buffer_size
        → run_callback request_callback r (http_response_new junk) ≡ (r', response)
        → response.status_message ≡ some message
        → response.body ≡ some body
        → http_request_close_connection greater r' ≡ ok closes
        → init_buffer_size + length (response_text response message body) ≤ int_max
        → write (response_text response message body)
          ≡ wrote (length (response_text response message body))
        → respond ops callbacks realloc malloc greater request_callback write block junk r c s
          ≡ ok (
            record c { app = record (c.app) { request = some http_request_new } },
            (let s' = ops.hand_over (c.channel.fd) (response_text response message body) s in
                if closes then tcp_connection_shutdown ops callbacks realloc c s' else s'),
          )
    unfolding respond http_request_reset http_request_new buffer_new
    respond_lem write block junk r r' response message body closes c s i len gives m d ends short
          takes =
        let empty : Buffer = record {
          bytes = block;
          read_index = 0;
          write_index = 0;
          total_size = init_buffer_size;
        } in
        let (valid, nothing) = buffer_new-IsValid block empty len refl in
        let (encoded, run, a) =
          encode_buffer-Appended realloc laws plenty response message body empty m d valid
            (omega (arith, short)) in
        let text : contents encoded ≡ response_text response message body =
          a.bytes ∙ ap (λ xs. xs ++ response_text response message body) nothing in
        let (result, sent, run') =
          send_buffer-whole write encoded c s i a.valid
            (ap write text ∙ takes ∙ ap (λ xs. wrote (length xs)) (sym text)) in
        let handed =
          run' ∙ ap (λ xs. ok (result, sent, c, ops.hand_over (c.channel.fd) xs s)) text in
        ground (arith, gives, run, handed, ends)
