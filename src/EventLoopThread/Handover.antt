-- ===== src/EventLoopThread/Handover.antt =====
-- What the handover guarantees: exclusion, and a loop for the main thread when it returns.
use yolanda.EventLoopThread.{
  EventLoopThread, MainAt, ThreadAt, event_loop_thread_init, Reach, Step, holds_lock, main_thread,
  signalled, tests, unlocks, create, new_thread, next, returned, running, here, main_lock,
  loop_absent, loop_present, wake, relock, main_unlock, thread_lock, make_loop, thread_unlock,
  creates, not_created,
}
use yolanda.Prelude.{◌≡◌, true, false, ℕ, Bool, arith}

-- Who is inside the mutex.
abbrev main_inside : MainAt → Bool
main_inside tests = true
main_inside unlocks = true
main_inside _ = false

abbrev thread_inside : ThreadAt → Bool
thread_inside holds_lock = true
thread_inside signalled = true
thread_inside _ = false

-- Whether the thread has made its loop.
abbrev pub made : ThreadAt → Bool
made signalled = true
made running = true
made _ = false

abbrev leaving : MainAt → Bool
leaving unlocks = true
leaving returned = true
leaving _ = false

pub record IsSafe (s : EventLoopThread) : Type 0 where
  pub uncreated : s.main ≡ creates → s.thread ≡ not_created
  pub main_holds : main_inside s.main ≡ true → s.mutex ≡ main_thread
  pub thread_holds : thread_inside s.thread ≡ true → s.mutex ≡ new_thread
  pub loop_made : s.has_loop ≡ made s.thread
  pub loop_returned : leaving s.main ≡ true → s.has_loop ≡ true

init-IsSafe : (i : ℕ) → IsSafe (event_loop_thread_init i)
unfolding event_loop_thread_init
init-IsSafe i = ground arith

Step-IsSafe : {s t : EventLoopThread} → Step s t → IsSafe s → IsSafe t
Step-IsSafe (create m) v = ground arith
Step-IsSafe (main_lock m f) v = ground arith
Step-IsSafe (loop_absent m n) v = ground arith
Step-IsSafe (loop_present m y) v = ground arith
Step-IsSafe (wake m) v = ground arith
Step-IsSafe (relock m f) v = ground arith
Step-IsSafe (main_unlock m) v = ground arith
Step-IsSafe (thread_lock t f) v = ground arith
Step-IsSafe (make_loop t) v = ground arith
Step-IsSafe (thread_unlock t) v = ground arith

pub Reach-IsSafe : {s t : EventLoopThread} → Reach s t → IsSafe s → IsSafe t
Reach-IsSafe here v = v
Reach-IsSafe (next r st) v = Step-IsSafe st (Reach-IsSafe r v)

-- However the two threads run from a new `event_loop_thread`, when `event_loop_thread_start` has
-- returned the loop is there, and the new thread has made it.
pub returned_with_loop :
    (i : ℕ) {s : EventLoopThread}
    → Reach (event_loop_thread_init i) s
    → s.main ≡ returned
    → (s.has_loop ≡ true) × (made s.thread ≡ true)
returned_with_loop i {s} r e =
    let v = Reach-IsSafe r (init-IsSafe i) in ground (arith, v.loop_returned, v.loop_made)
