-- ===== src/Yolandapp/TcpServer.antt =====
-- yolandapp/acceptor.hpp, yolandapp/acceptor.cpp, yolandapp/tcp_server.hpp and yolandapp/tcp_server.cpp:
-- listening, and the connections that are accepted.
use Prim.Native.Nat.{bit_and, bit_or}
use yolanda.TcpServer.{Sockets, Acceptor, TcpServer, or_exit}
use yolanda.Yolandapp.ThreadPool.{pool_new, pool_start, pool_get_loop}
use yolanda.Yolandapp.TcpConnection.{PortConnection}
use yolanda.Prelude.Int.{ℤ, eqb_ℤ, minus_one}
use yolanda.Outcome.{Outcome, ◌>>=◌, ok}
use yolanda.Channel.{Callback, Channel, channel_new, event_read, server}
use yolanda.Prelude.{◌-◌, ◌^◌, if◌then◌else◌, none, some, false, ℕ, Option, Bool, ◌%◌}

-- `O_NONBLOCK`
abbrev pub nonblock_flag : ℕ
nonblock_flag = 0x800

-- `fcntl`: the flags of a descriptor, as the 32 bits of an `int`.
pub record Flags (S : Type 0) : Type 0 where
  pub get_flags : ℤ → S → ℕ
  pub set_flags : ℤ → ℕ → S → S

unfoldable pub set_blocking : {S : Type 0} → Flags S → ℤ → Bool → S → S
set_blocking control fd flag s =
    let flags = bit_and (control.get_flags fd s) (2 ^ 32 - 1 - nonblock_flag) in
    control.set_flags fd (if flag then flags else bit_or flags nonblock_flag) s

unfoldable pub make_nonblocking : {S : Type 0} → Flags S → ℤ → S → S
make_nonblocking control fd s = set_blocking control fd false s

-- `data` of a connection is set after the connection has been made, if the server has some.
unfoldable pub hand_data :
    {X R : Type 0} → (X → R → R) → Option X → PortConnection R → PortConnection R
hand_data set none c = c
hand_data set (some x) c = record c { app = set x c.app }

-- `sys` has the calls of the library in C; in place of its `set_nonblocking` the flags are set.
module _ {S : Type 0} (sys : Sockets S) (control : Flags S) where
  -- The calls that the functions below share.
  unfoldable pub listening : ℕ → ℤ × S → Outcome (ℤ × S)
  listening port (fd, s) = do
    s₁ ← or_exit (sys.bind fd (port % 2 ^ 16) (sys.reuse_address fd s))
    s₂ ← or_exit (sys.listen fd 1024 s₁)
    ok (fd, s₂)

  unfoldable pub port_acceptor : ℕ → S → Outcome (Acceptor × S)
  port_acceptor port s = do
    let (fd, s₁) = sys.socket s
    (fd', s₂) ← listening port (fd, make_nonblocking control fd s₁)
    ok (record { listen_port = port; listen_fd = fd' }, s₂)

  unfoldable pub port_server_listen : ℕ → S → Outcome (ℤ × S)
  port_server_listen port s = do
    (fd, s₁) ← listening port (sys.socket s)
    ok (fd, sys.ignore_sigpipe s₁)

  unfoldable pub port_server : ℕ → S → Outcome (ℤ × S)
  port_server port s = do
    (fd, s₁) ← port_server_listen port s
    let (conn, s₂) = sys.accept fd s₁
    s₃ ← or_exit (conn, s₂)
    ok (conn, s₃)

  unfoldable pub port_nonblocking_listen : ℕ → S → Outcome (ℤ × S)
  port_nonblocking_listen port s = do
    let (fd, s₁) = sys.socket s
    (fd', s₂) ← listening port (fd, make_nonblocking control fd s₁)
    ok (fd', sys.ignore_sigpipe s₂)

  -- `handle_connection_established`, where `new_connection loop fd s` makes a `tcp_connection` with the
  -- server's callbacks. The result of `accept` is not looked at.
  unfoldable pub connection_established :
      {L X R : Type 0}
      → (L → ℤ → S → Outcome (PortConnection R × S))
      → (X → R → R)
      → Bool
      → TcpServer L X
      → S
      → Outcome (PortConnection R × TcpServer L X × S)
  connection_established new_connection set same t s = do
    let (fd, s₁) = sys.accept t.acceptor.listen_fd s
    let s₂ = make_nonblocking control fd s₁
    (loop, pool) ← pool_get_loop same t.thread_pool
    (c, s₃) ← new_connection loop fd s₂
    ok (hand_data set t.extra c, record t { thread_pool = pool }, s₃)

-- The destructor of the acceptor; `close` is the system's.
unfoldable pub close_acceptor : {S : Type 0} → (ℤ → S → S) → Acceptor → S → S
close_acceptor close a s = if eqb_ℤ (a.listen_fd) minus_one then s else close (a.listen_fd) s

module _ {L X : Type 0} where
  unfoldable pub server_new : L → Acceptor → ℤ → Outcome (TcpServer L X)
  server_new loop acceptor n = do
    pool ← pool_new loop n
    ok (record {
      event_loop = loop;
      acceptor = acceptor;
      thread_num = n;
      thread_pool = pool;
      extra = none;
    })

  unfoldable pub set_data : TcpServer L X → Option X → TcpServer L X
  set_data t none = t
  set_data t (some x) = record t { extra = some x }

  -- `add loop c` is `add_channel_event` of the server's own loop.
  unfoldable pub server_start :
      {S : Type 0}
      → (L → Channel → S → Outcome S)
      → Bool
      → (ℕ → L)
      → TcpServer L X
      → S
      → Outcome (TcpServer L X × S)
  server_start add same start t s = do
    pool ← pool_start same start t.thread_pool
    s' ←
        add t.event_loop
          (channel_new t.acceptor.listen_fd event_read (some Callback.handle_connection_established)
            none server)
          s
    ok (record t { thread_pool = pool }, s')
