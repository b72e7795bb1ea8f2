-- ===== src/NonblockingServer/MainLoop.antt =====
-- The loop of `main` in chap-22/nonblockingserver.c around `select`. The waiting of 5 seconds, the
-- messages on the console and `make_nonblocking` are left out.
use yolanda.Outcome.{Outcome, fault, ok, ◌>>=◌, deref, exited}
use yolanda.Prelude.Int.{ℤ}
use yolanda.NonblockingServer.{
  Buffers, Readiness, SocketBuffer, Stop, accept_client, buffer_at, alloc_buffer, serve_client,
}
use yolanda.Memory.{Bytes}
use yolanda.Prelude.{
  ◌&&◌, ◌∷◌, ◌++◌, ◌==◌, if◌then◌else◌, none, some, false, ℕ, List, Option, Bool, zero, suc, not,
  ltb, [], ◌||◌, set,
}

-- `fd_set`: the descriptors in it.
abbrev pub FdSet : Type 0
FdSet = List ℕ

-- `FD_ISSET`
unfoldable pub fd_isset : ℕ → FdSet → Bool
fd_isset i [] = false
fd_isset i (fd ∷ fds) = (fd == i) || fd_isset i fds

-- What `select` is asked for.
pub record FdSets : Type 0 where
  pub readset : FdSet
  pub writeset : FdSet
  pub maxfd : ℕ

-- A buffer with a client is watched, for writing only if it is readable.
unfoldable pub watch_client : SocketBuffer → FdSets → FdSets
watch_client b s =
    if ltb 0 b.connect_fd
    then record s {
      readset = b.connect_fd ∷ s.readset;
      writeset = if b.readable then b.connect_fd ∷ s.writeset else s.writeset;
      maxfd = if ltb s.maxfd b.connect_fd then b.connect_fd else s.maxfd;
    }
    else s

unfoldable pub watch_clients : Buffers → FdSets → FdSets
watch_clients [] s = s
watch_clients (b ∷ bs) s = watch_clients bs (watch_client b s)

unfoldable pub watch : ℕ → Buffers → FdSets
watch listen_fd bs =
    watch_clients bs (record { readset = listen_fd ∷ []; writeset = []; maxfd = listen_fd })

-- The array before the loop, for what each `malloc` gives. A NULL is read through in the first round.
unfoldable pub alloc_buffers : List (Option Bytes) → Outcome Buffers
alloc_buffers [] = ok []
alloc_buffers (junk ∷ junks) = do
  b ← deref (alloc_buffer junk)
  bs ← alloc_buffers junks
  ok (b ∷ bs)

-- What the system calls of a round come to: the sets that `select` leaves, or `none` for an error;
-- what `accept` returns; and what each descriptor has to read, and takes.
pub record Calls : Type 0 where
  pub selected : Option (FdSet × FdSet)
  pub accepted : ℤ
  pub received : ℕ → List Bytes × Stop
  pub taken : ℕ → List ℕ × Stop

-- What a round does to a client: the bytes it sends, and whether it closes the descriptor.
pub record Service : Type 0 where
  pub fd : ℕ
  pub sent : Bytes
  pub closed : Bool

-- A descriptor in the sets that are left, but for the listening one.
unfoldable pub is_ready : ℕ → FdSet × FdSet → ℕ → Bool
is_ready listen_fd (reads, writes) i =
    not (i == listen_fd) && (fd_isset i reads || fd_isset i writes)

unfoldable pub readiness : Calls → FdSet × FdSet → ℕ → Readiness
readiness calls (reads, writes) i = record {
  receives = if fd_isset i reads then some (calls.received i) else none;
  sends = if fd_isset i writes then some (calls.taken i) else none;
}

unfoldable pub serve_descriptor :
    ℕ → Calls → FdSet × FdSet → ℕ → Buffers → Outcome (List Service × Buffers)
serve_descriptor listen_fd calls sets i bs =
    if is_ready listen_fd sets i
    then (do
      b ← buffer_at bs i
      let (sent, closes, b') = serve_client (readiness calls sets i) b
      ok (record { fd = i; sent = sent; closed = closes } ∷ [], set bs i b'))
    else ok ([], bs)

-- The loop over the descriptors: so many, from this one on.
unfoldable pub serve_descriptors :
    ℕ → Calls → FdSet × FdSet → ℕ → ℕ → Buffers → Outcome (List Service × Buffers)
serve_descriptors listen_fd calls sets zero i bs = ok ([], bs)
serve_descriptors listen_fd calls sets (suc count) i bs = do
  (services, bs') ← serve_descriptor listen_fd calls sets i bs
  (more, bs'') ← serve_descriptors listen_fd calls sets count (suc i) bs'
  ok (services ++ more, bs'')

unfoldable pub accept_part : ℕ → Calls → FdSet → Buffers → Outcome Buffers
accept_part listen_fd calls reads bs =
    if fd_isset listen_fd reads then accept_client calls.accepted bs else ok bs

-- A round of the loop. What was done before a fault is not part of the result.
unfoldable pub server_round : ℕ → Calls → Buffers → Outcome (List Service × Buffers)
server_round listen_fd calls bs = elim calls.selected [
  | none ↦ fault (exited 1)
  | some sets ↦ do
    bs₁ ← accept_part listen_fd calls sets.0 bs
    serve_descriptors listen_fd calls sets (suc ((watch listen_fd bs).maxfd)) 0 bs₁
]
