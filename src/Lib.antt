-- ===== src/Lib.antt =====
-- The networking library of yolanda, in C under lib/: a reactor with one event loop per thread, TCP
-- connections with an input and an output buffer on top of it, and a small HTTP server.
--
-- The parts, and how they meet:
--   * Memory, Outcome: blocks of bytes with `malloc` and `realloc` as parameters, and what a piece of
--     C code may come to: a value, or a fault (an access out of bounds, a null pointer, an integer
--     overflow, a bad cast, a failed assertion, an exit of the process).
--   * Buffer (lib/buffer.h, lib/buffer.c): `struct buffer` is a block with two indices. Slide,
--     Contents, Append and Receive see a valid buffer as the queue of its readable bytes; Search is
--     `buffer_find_CRLF`; View is the quotient of the buffers by what they hold.
--   * Channel (lib/channel.h, lib/channel.c): the events that a descriptor waits for, its callbacks
--     and the object that its `data` points to, with the casts of that pointer.
--   * ChannelMap (lib/channel_map.h, lib/channel_map.c): the table from descriptors to channels, which
--     doubles until it reaches a slot.
--   * Dispatcher (lib/event_dispatcher.h): the interface of the loop to the kernel, a record of
--     operations and the laws that an implementation keeps. Poll (lib/poll_dispatcher.c) and Epoll
--     (lib/epoll_dispatcher.c) fill it.
--   * EventLoop (lib/event_loop.h, lib/event_loop.c, lib/utils.c): the loop over any dispatcher: the
--     list of pending changes, the handlers of a change, the activation of a channel, the wakeup
--     socket, and the run loop. Pending relates interleavings of threads to one sequence of changes,
--     Registry keeps table and dispatcher in agreement.
--   * EventLoopThread (lib/event_loop_thread.h, lib/event_loop_thread.c): the handover of a loop from
--     the thread that makes it, a step relation over the two threads, the mutex and the condition.
--   * ThreadPool (lib/thread_pool.h, lib/thread_pool.c): the loops in turn.
--   * TcpConnection (lib/tcp_connection.h, lib/tcp_connection.c): the callbacks of a connection's
--     channel and the ways to send. Its event loop is the interface `LoopOps`, with what a
--     `write` does to the kernel; its answer, and that to each `readv`, is an argument.
--   * TcpServer (lib/tcp_server.h, lib/tcp_server.c, lib/acceptor.h, lib/acceptor.c,
--     lib/tcp_client.c): listening, accepting and connecting over the interface `Sockets`. Turns puts it
--     together with the pool.
--   * Http: Text has the functions of string.h and stdio.h that the rest calls; Request and Response
--     are lib/http_request.c and lib/http_response.c; Parser and Server are lib/http_server.c, with
--     Server.Serving on what a parsed request is answered, and Parser.Overrun and Server.Overrun on the
--     zeros that are written behind the copied words. Parser.Whole is about an allocator that has
--     room for these, which the C standard does not promise.
--   * Read (lib/read.c): messages and lines from a descriptor, which is the list of what its reads
--     come to. Fragments reads a message whatever pieces it arrives in.
--   * Log (lib/log.c, lib/sock_ntop.c): the lines that are printed.
--
-- Of the programs of the chapters, which stand beside the library:
--   * BlockQueue (chap-26/thread02.c): the queue of descriptors between the accepting thread and the
--     workers. Ring sees it as the list of what waits in it, Delivery relates the steps of all threads.
--   * Rot13, LineEcho (chap-26/echo.c, chap-25/fork01.c): the echo of lines rotated by 13.
--   * NonblockingServer (chap-22/nonblockingserver.c): a server around `select`, with a buffer for each
--     descriptor. MainLoop is a round of the loop: Watching, Owners and Serving are about the sets for
--     `select`, the entries of the array and the loop over the descriptors.
--   * EpollServer (chap-23/epoll01.c): a server around edge-triggered `epoll`; a round has as many
--     events as fuel and one more, which suffices since each step of the loop takes one.
--   * GraceClient (chap-11/graceclient.c): a client that closes one direction, over the rounds of its loop.
--   * Greeting (chap-6/udpserver.c, chap-7/unixdataserver.c, chap-7/unixstreamserver.c,
--     chap-11/graceserver.c, chap-14/udpconnectserver.c): servers that answer "Hi, " and a text.
--   * PollServer (chap-21/pollserver.c): an echo server around `poll`, with a table of 127 clients.
--   * MessageStream (chap-16/streamclient.c, chap-16/streamserver.c): lines sent as messages and read by
--     `read_message`; the client has as much fuel as its input has characters, the server a round a
--     message, and one for the end. Fgets is the reading of lines.
--   * TelnetServer (mid-homework/telnet-server.c): a listing of a directory for a client; the loop over
--     the output of a command has as much fuel as the output has characters.
--   * Ping (chap-12/pingclient.c, chap-12/pingserver.c): heartbeats over a silent connection.
--   * EchoServer (chap-27/poll-server-onethread.c, chap-28/poll-server-multithreads.c): an application
--     on top of the library, whose `onMessage` is handed a connection.
--
-- Yolandapp (yolandapp/) is the port of the library to C++. Buffer is the string with two indices,
-- EventLoop the loop over a map, with Channel and EventDispatcher, TcpConnection the connection,
-- EventLoopThread and ThreadPool the threads, TcpServer the listening server, Log the log, and Http
-- the request, its parser, whose rounds are fuel as those of the parser in C, the response and the
-- callbacks of the server.
-- Buffer.Port and EventLoop.Sameness set them beside the parts of the library in C. Operations of the
-- standard library are written out as the language defines them; the length that a string cannot
-- pass is a parameter.
--
-- Names are those of the source in lower case with underscores (`buffer_find_crlf` is
-- `buffer_find_CRLF`); static names that two files share are told apart by their module. A channel
-- is named by a number, its address, and the loop finds what it holds in `channels`.
--
-- Numbers: an `int` field that is never negative is a number, with the bound 2^31 - 1 checked where it
-- grows; a `size_t` is computed modulo 2^64; descriptors are signed. Loops: the doubling of the channel
-- map has fuel for 32 rounds, which suffice for a slot below 2^27, and no `int` overflows there; the
-- parser of HTTP requests and the run loop take the number of rounds as an argument, since they may not
-- end; the loops over a text or over events have the fuel that is named with their part above; all other
-- loops are structural. `decimal` has fuel for 20 digits, as many as a number below 2^64 has.
--
-- Not modelled: the frees that have no effect on a later access (`buffer_free`, the fields that
-- `http_request_clear` gives back); the text of log messages inside the other parts; the contents of
-- lib/common.h beyond its constants; the other programs of the chapters, each a few calls of sockets
-- around a loop that one of those above has too, and of those above the setting up of sockets; and of
-- yolandapp/ the two programs and the comparison of threads in utils.cpp, which is an argument here.
pub mod BlockQueue
pub mod Buffer
pub mod Channel
pub mod ChannelMap
pub mod Dispatcher
pub mod EchoServer
pub mod Epoll
pub mod EpollServer
pub mod EventLoop
pub mod EventLoopThread
pub mod Fgets
pub mod GraceClient
pub mod Greeting
pub mod Http
pub mod LineEcho
pub mod Log
pub mod Memory
pub mod MessageStream
pub mod NonblockingServer
pub mod Outcome
pub mod Ping
pub mod Poll
pub mod PollServer
pub mod Prelude
pub mod Read
pub mod Rot13
pub mod TcpConnection
pub mod TcpServer
pub mod TelnetServer
pub mod ThreadPool
pub mod Yolandapp
