-- ===== src/EpollServer.antt =====
-- chap-23/epoll01.c: a server around edge-triggered `epoll` that sends back what it reads, rotated by
-- 13. The loops over the bytes of a client use the variables n and i of the loop over the events.
pub mod Skipping
mod Tests
use yolanda.Prelude.Int.{ℤ, pos, leb_ℤ, minus_one, negsuc}
use yolanda.Outcome.{Outcome, ok, fault, exited, out_of_bounds, ◌>>=◌}
use yolanda.Memory.{Bytes}
use yolanda.Prelude.{
  ◌+◌, ◌∷◌, ◌++◌, if◌then◌else◌, none, some, true, false, ℕ, List, Option, Bool, zero, suc, length,
  get_elem?, [], map,
}
use yolanda.Rot13.{rot13_char}

-- How the reads of a client end: with `EAGAIN`, another error, or the end of the stream.
pub data LastRead : Type 0 where
  would_block read_error end_of_stream : LastRead

-- One of `events`: an error or hangup or no input, the listening socket with what `accept` and the
-- `epoll_ctl` after it come to, or a client with the blocks that `read` delivers, none of them empty,
-- each with whether the `write` that sends it back works.
pub data Reported : Type 0 where
  broken : ℕ → Reported
  listener : ℤ → Bool → Reported
  client : ℕ → List (Bytes × Bool) → LastRead → Reported

-- What the server does: it closes a descriptor, watches one, or writes to one.
pub data Deed : Type 0 where
  closes watches : ℕ → Deed
  writes : ℕ → Bytes → Deed

-- The variables n and i, with what has been done.
pub record Vars : Type 0 where
  pub n : ℤ
  pub i : ℕ
  pub deeds : List Deed

-- The loop over a block ends with i at its length.
unfoldable pub echo_block : ℕ → Bytes → Vars → Vars
echo_block fd block v = record {
  n = pos (length block);
  i = length block;
  deeds = v.deeds ++ writes fd (map rot13_char block) ∷ [];
}

-- The loop over the reads of a client. `error(1, …)` ends the process.
unfoldable pub read_all : ℕ → List (Bytes × Bool) → LastRead → Vars → Outcome Vars
read_all fd ((block, false) ∷ blocks) last v = fault (exited 1)
read_all fd ((block, true) ∷ blocks) last v = read_all fd blocks last (echo_block fd block v)
read_all fd [] would_block v = ok (record v { n = minus_one })
read_all fd [] read_error v = fault (exited 1)
read_all fd [] end_of_stream v = ok (record v { n = pos 0; deeds = v.deeds ++ closes fd ∷ [] })

unfoldable pub serve_one : Reported → Vars → Outcome Vars
serve_one (broken fd) v = ok (record v { deeds = v.deeds ++ closes fd ∷ [] })
serve_one (listener (negsuc k) added) v = fault (exited 1)
serve_one (listener (pos fd) false) v = fault (exited 1)
serve_one (listener (pos fd) true) v = ok (record v { deeds = v.deeds ++ watches fd ∷ [] })
serve_one (client fd blocks last) v = read_all fd blocks last v

-- `for (i = 0; i < n; i++)` from where it stands, on fuel: `none` means that the rounds ran out. What
-- lies in `events` behind those that were reported is not looked at.
unfoldable pub serve_events : ℕ → List Reported → Vars → Outcome (Option (List Deed))
serve_events zero events v = ok none
serve_events (suc rounds) events v =
    if leb_ℤ v.n (pos v.i) then ok (some v.deeds) else elim (get_elem? events v.i) [
      | none ↦ fault out_of_bounds
      | some e ↦ do v' ← serve_one e v; serve_events rounds events (record v' { i = v'.i + 1 })
    ]

-- A round of the server's loop: the events that `epoll_wait` reports, at most MAXEVENTS.
pub server_round : List Reported → Outcome (Option (List Deed))
server_round events =
    serve_events (length events + 1) events (record { n = pos (length events); i = 0; deeds = [] })
