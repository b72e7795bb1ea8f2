-- ===== src/Yolandapp/ThreadPool.antt =====
-- yolandapp/thread_pool.hpp and yolandapp/thread_pool.cpp: the loops of the port's server. The struct is
-- that of the library in C, with the vector of threads by their loops.
use yolanda.ThreadPool.{ThreadPool, assert_main, start_from}
use yolanda.Prelude.Int.{ℤ, is_neg, leb_ℤ, pos, pos_part}
use yolanda.Outcome.{Outcome, ok, ◌>>◌, assert, fault, thrown, out_of_bounds}
use yolanda.Prelude.{
  ◌+◌, if◌then◌else◌, none, some, true, false, ℕ, Bool, not, get_elem?, leb, [], ◌++◌,
}

module _ {L : Type 0} where
  -- `reserve` of a negative number, which is converted to a `size_t`, throws.
  unfoldable pub pool_new : L → ℤ → Outcome (ThreadPool L)
  pool_new main_loop n =
      if is_neg n
      then fault thrown
      else ok (record {
        main_loop = main_loop;
        started = false;
        thread_number = n;
        loops = [];
        position = 0;
      })

  -- `start i` is the loop of the thread with number i, which `start` of the thread waits for.
  unfoldable pub pool_start : Bool → (ℕ → L) → ThreadPool L → Outcome (ThreadPool L)
  pool_start same start p = do
    assert (not p.started)
    assert_main same
    let p' = record p { started = true }
    let started_threads = start_from start (pos_part p.thread_number) 0
    ok (
        if leb_ℤ p.thread_number (pos 0)
        then p'
        else record p' { loops = p.loops ++ started_threads })

  unfoldable pub pool_get_loop : Bool → ThreadPool L → Outcome (L × ThreadPool L)
  pool_get_loop same p = do
    assert p.started
    assert_main same
    if leb_ℤ p.thread_number (pos 0)
        then ok (p.main_loop, p)
        else elim (get_elem? p.loops p.position) [
          | none ↦ fault out_of_bounds
          | some selected ↦
              let next = p.position + 1 in
              ok (
                selected,
                record p { position = if leb (pos_part p.thread_number) next then 0 else next },
              )
        ]
