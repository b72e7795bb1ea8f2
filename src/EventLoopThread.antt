-- ===== src/EventLoopThread.antt =====
-- lib/event_loop_thread.h and lib/event_loop_thread.c: how a thread hands its event loop to the
-- main thread, under a mutex and with a condition variable.
pub mod Handover
mod Tests
use yolanda.Prelude.{◌+◌, ◌≡◌, true, false, ℕ, Bool}

-- Where the new thread stands in `event_loop_thread_run`.
pub data ThreadAt : Type 0 where
  not_created waits_for_lock holds_lock signalled running : ThreadAt

-- Where the main thread stands in `event_loop_thread_start`.
pub data MainAt : Type 0 where
  creates locks tests waits wakes unlocks returned : MainAt

-- `has_loop` is `eventLoop != NULL`; `owner` says which of the two holds the mutex.
pub data Holder : Type 0 where
  nobody main_thread new_thread : Holder

-- Of the name `Thread-%d` the number is kept.
pub record EventLoopThread : Type 0 where
  pub has_loop : Bool
  pub thread_count : ℕ
  pub thread_name : ℕ
  pub mutex : Holder
  pub main : MainAt
  pub thread : ThreadAt

pub event_loop_thread_init : ℕ → EventLoopThread
event_loop_thread_init i = record {
  has_loop = false;
  thread_count = 0;
  thread_name = i + 1;
  mutex = nobody;
  main = creates;
  thread = not_created;
}

-- One step of either thread. `pthread_cond_wait` gives the mutex back and takes it again when it
-- wakes, upon a signal or for no reason at all.
pub data Step (s : EventLoopThread) : EventLoopThread → Type 0 where
  -- `pthread_create`
  create : s.main ≡ creates → Step s (record s { main = locks; thread = waits_for_lock })
  main_lock :
      s.main ≡ locks → s.mutex ≡ nobody → Step s (record s { main = tests; mutex = main_thread })
  -- `while (eventLoop == NULL)`
  loop_absent :
      s.main ≡ tests → s.has_loop ≡ false → Step s (record s { main = waits; mutex = nobody })
  loop_present : s.main ≡ tests → s.has_loop ≡ true → Step s (record s { main = unlocks })
  -- a wakeup, spurious or not
  wake : s.main ≡ waits → Step s (record s { main = wakes })
  relock :
      s.main ≡ wakes → s.mutex ≡ nobody → Step s (record s { main = tests; mutex = main_thread })
  main_unlock : s.main ≡ unlocks → Step s (record s { main = returned; mutex = nobody })
  -- `event_loop_thread_run`
  thread_lock :
      s.thread ≡ waits_for_lock
      → s.mutex ≡ nobody
      → Step s (record s { thread = holds_lock; mutex = new_thread })
  -- `event_loop_init_with_name` and the signal
  make_loop : s.thread ≡ holds_lock → Step s (record s { has_loop = true; thread = signalled })
  thread_unlock : s.thread ≡ signalled → Step s (record s { thread = running; mutex = nobody })

pub data Reach (s : EventLoopThread) : EventLoopThread → Type 0 where
  here : Reach s s
  next : {t u : EventLoopThread} → Reach s t → Step t u → Reach s u
