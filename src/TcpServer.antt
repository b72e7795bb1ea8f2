-- ===== src/TcpServer.antt =====
-- lib/tcp_server.h, lib/tcp_server.c, lib/acceptor.c and lib/tcp_client.c: listening, and the
-- connections that are accepted. System calls are an interface over the state `S` of the system.
pub mod Turns
mod Tests
use yolanda.ThreadPool.{ThreadPool, thread_pool_new, thread_pool_get_loop, thread_pool_start}
use yolanda.TcpConnection.{Connection}
use yolanda.Prelude.Int.{ℤ, pos, negsuc}
use yolanda.Outcome.{Outcome, ◌>>=◌, ok, fault, exited}
use yolanda.Channel.{Callback, Channel, channel_new, event_read, server}
use yolanda.Prelude.{◌%◌, ◌^◌, none, some, ℕ, Option, Bool}

-- What the functions here ask of the system; a descriptor or a result is negative for a failure.
pub record Sockets (S : Type 0) : Type 0 where
  pub socket : S → ℤ × S
  pub set_nonblocking : ℤ → S → S
  pub reuse_address : ℤ → S → S
  -- the descriptor, the port
  pub bind : ℤ → ℕ → S → ℤ × S
  -- the descriptor, the backlog
  pub listen : ℤ → ℕ → S → ℤ × S
  pub ignore_sigpipe : S → S
  pub accept : ℤ → S → ℤ × S
  -- the descriptor, the address and the port; `none` is an address that `inet_pton` refuses
  pub connect : ℤ → Option ℕ → ℕ → S → ℤ × S

abbrev pub listenq : ℕ
listenq = 1024

-- `error(1, …)` if a result is negative
abbrev pub or_exit {ℓ} : {A : Type ℓ} → ℤ × A → Outcome A
or_exit (pos n, a) = ok a
or_exit (negsuc n, a) = fault (exited 1)

-- `struct acceptor`
pub record Acceptor : Type 0 where
  pub listen_port : ℕ
  pub listen_fd : ℤ

module _ {S : Type 0} (sys : Sockets S) where
  open sys use {
    socket, set_nonblocking, reuse_address, bind, listen, ignore_sigpipe, accept, connect,
  }

  -- The calls that all the functions share, on a new socket. `htons` keeps 16 bits of the port.
  listen_on : ℤ → ℕ → S → Outcome S
  listen_on fd port s = do
    s₁ ← or_exit (bind fd (port % 2 ^ 16) (reuse_address fd s))
    or_exit (listen fd listenq s₁)

  pub tcp_server_listen : ℕ → S → Outcome (ℤ × S)
  unfolding listen_on
  tcp_server_listen port s = do
    let (fd, s₁) = socket s
    s₂ ← listen_on fd port s₁
    ok (fd, ignore_sigpipe s₂)

  pub tcp_server : ℕ → S → Outcome (ℤ × S)
  unfolding tcp_server_listen
  tcp_server port s = do
    (fd, s₁) ← tcp_server_listen port s
    let (conn, s₂) = accept fd s₁
    s₃ ← or_exit (conn, s₂)
    ok (conn, s₃)

  pub tcp_nonblocking_server_listen : ℕ → S → Outcome (ℤ × S)
  unfolding listen_on
  tcp_nonblocking_server_listen port s = do
    let (fd, s₁) = socket s
    s₂ ← listen_on fd port (set_nonblocking fd s₁)
    ok (fd, ignore_sigpipe s₂)

  pub acceptor_init : ℕ → S → Outcome (Acceptor × S)
  unfolding listen_on
  acceptor_init port s = do
    let (fd, s₁) = socket s
    s₂ ← listen_on fd port (set_nonblocking fd s₁)
    ok (record { listen_port = port; listen_fd = fd }, s₂)

  pub tcp_client : Option ℕ → ℕ → S → Outcome (ℤ × S)
  tcp_client address port s = do
    let (fd, s₁) = socket s
    s₂ ← or_exit (connect fd address (port % 2 ^ 16) s₁)
    ok (fd, s₂)

-- `struct TCPserver`; the callbacks are those of its connections, and `data` (`none` is NULL) is
-- handed to each of them. `L` is the type of event loops.
pub record TcpServer (L X : Type 0) : Type 0 where
  pub event_loop : L
  pub acceptor : Acceptor
  pub thread_num : ℤ
  pub thread_pool : ThreadPool L
  pub extra : Option X

-- `data` of the connection is set only if the server has some.
give_data : {X R : Type 0} → (X → R → R) → Option X → Connection R → Connection R
give_data set none c = c
give_data set (some x) c = record c { app = set x c.app }

module _ {L X : Type 0} where
  pub tcp_server_init : L → Acceptor → ℤ → TcpServer L X
  tcp_server_init loop acceptor n = record {
    event_loop = loop;
    acceptor = acceptor;
    thread_num = n;
    thread_pool = thread_pool_new loop n;
    extra = none;
  }

  -- A NULL does not replace what is there.
  pub tcp_server_set_data : TcpServer L X → Option X → TcpServer L X
  tcp_server_set_data t none = t
  tcp_server_set_data t (some x) = record t { extra = some x }

  -- The threads are started, and then the listening channel is added to the server's own loop.
  pub tcp_server_start :
      {S : Type 0}
      → (L → Channel → S → Outcome S)
      → Bool
      → (ℕ → L)
      → TcpServer L X
      → S
      → Outcome (TcpServer L X × S)
  tcp_server_start add same start t s = do
    pool ← thread_pool_start same start t.thread_pool
    s' ←
        add t.event_loop
          (channel_new t.acceptor.listen_fd event_read (some Callback.handle_connection_established)
            none server)
          s
    ok (record t { thread_pool = pool }, s')

  -- `new_connection loop fd s` is `tcp_connection_new` with the server's callbacks. The result of
  -- `accept` is not looked at.
  pub handle_connection_established :
      {S R : Type 0}
      → Sockets S
      → (L → ℤ → S → Outcome (Connection R × S))
      → (X → R → R)
      → Bool
      → TcpServer L X
      → S
      → Outcome (Connection R × TcpServer L X × S)
  unfolding give_data
  handle_connection_established sys new_connection set same t s = do
    let (fd, s₁) = sys.accept t.acceptor.listen_fd s
    let s₂ = sys.set_nonblocking fd s₁
    (loop, pool) ← thread_pool_get_loop same t.thread_pool
    (c, s₃) ← new_connection loop fd s₂
    ok (give_data set t.extra c, record t { thread_pool = pool }, s₃)
