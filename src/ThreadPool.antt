-- ===== src/ThreadPool.antt =====
-- lib/thread_pool.h and lib/thread_pool.c: the event loops of a server, chosen in turn. A loop is
-- named by the number of its thread.
pub mod Rotation
use yolanda.Prelude.Int.{ℤ, leb_ℤ, pos, pos_part}
use yolanda.Outcome.{Outcome, ok, ◌>>◌, assert, fault, exited, out_of_bounds}
use yolanda.Prelude.{
  ◌+◌, ◌∷◌, if◌then◌else◌, none, some, true, false, ℕ, List, Bool, zero, suc, not, get_elem?, leb,
  [],
}

-- `loops` are the loops of `eventLoopThreads`. The thread that calls is an argument where the
-- source asserts that it is the main loop's.
pub record ThreadPool (L : Type 0) : Type 0 where
  pub main_loop : L
  pub started : Bool
  pub thread_number : ℤ
  pub loops : List L
  pub position : ℕ

-- `assertInSameThread(mainLoop)`
abbrev pub assert_main : Bool → Outcome (Unit {0})
assert_main true = ok tt
assert_main false = fault (exited 255)

module _ {L : Type 0} where
  pub thread_pool_new : L → ℤ → ThreadPool L
  thread_pool_new main_loop n = record {
    main_loop = main_loop;
    started = false;
    thread_number = n;
    loops = [];
    position = 0;
  }

  -- The threads are started one after the other; `start i` is the loop of the thread with number i,
  -- after `event_loop_thread_init` and `event_loop_thread_start`.
  unfoldable pub start_from : (ℕ → L) → ℕ → ℕ → List L
  start_from start zero i = []
  start_from start (suc left) i = start i ∷ start_from start left (i + 1)

  pub thread_pool_start : Bool → (ℕ → L) → ThreadPool L → Outcome (ThreadPool L)
  unfolding start_from
  thread_pool_start same start p = do
    assert (not p.started)
    assert_main same
    ok (record p {
      started = true;
      loops =
          if leb_ℤ p.thread_number (pos 0)
          then p.loops
          else start_from start (pos_part p.thread_number) 0;
    })

  -- A pool with no threads of its own serves on the main loop.
  pub thread_pool_get_loop : Bool → ThreadPool L → Outcome (L × ThreadPool L)
  thread_pool_get_loop same p = do
    assert p.started
    assert_main same
    if leb_ℤ p.thread_number (pos 0)
        then ok (p.main_loop, p)
        else elim (get_elem? p.loops p.position) [
          | none ↦ fault out_of_bounds
          | some selected ↦ ok (
            selected,
            record p {
              position =
                  if leb (pos_part p.thread_number) (p.position + 1) then 0 else p.position + 1;
            },
          )
        ]
