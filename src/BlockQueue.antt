-- ===== src/BlockQueue.antt =====
-- chap-26/thread02.c: the queue through which the accepting thread hands descriptors to a fixed
-- number of workers, under a mutex and with a condition variable.
pub mod Ring
pub mod Delivery
mod Tests
use yolanda.Outcome.{Outcome, ok, fault, out_of_bounds}
use yolanda.Prelude.{
  ◌+◌, ◌≡◌, ◌∷◌, ◌++◌, ◌==◌, if◌then◌else◌, none, some, ℕ, List, Option, suc, length, get_elem?,
  ltb, [], replicate, set,
}

abbrev pub thread_number : ℕ
thread_number = 4

abbrev pub block_queue_size : ℕ
block_queue_size = 100

-- `block_queue`; the mutex and the condition variable show in the steps below.
pub record BlockQueue : Type 0 where
  pub number : ℕ
  pub fds : List ℕ
  pub front : ℕ
  pub rear : ℕ

-- `calloc(number, sizeof(int))`
unfoldable pub block_queue_init : ℕ → BlockQueue
block_queue_init number = record { number = number; fds = replicate number 0; front = 0; rear = 0 }

-- `if (++i == number) i = 0`
abbrev pub advance : ℕ → ℕ → ℕ
advance number i = if i + 1 == number then 0 else i + 1

-- What is done between locking and unlocking the mutex.
unfoldable pub block_queue_push : BlockQueue → ℕ → Outcome BlockQueue
block_queue_push q fd =
    if ltb q.rear (length q.fds)
    then ok (record q { fds = set q.fds q.rear fd; rear = advance q.number q.rear })
    else fault out_of_bounds

-- The same, from a test of `front == rear` on: `none` means that the caller has to wait.
unfoldable pub block_queue_pop : BlockQueue → Outcome (Option (ℕ × BlockQueue))
block_queue_pop q = if q.front == q.rear then ok none else elim (get_elem? q.fds q.front) [
  | none ↦ fault out_of_bounds
  | some fd ↦ ok (some (fd, record q { front = advance q.number q.front }))
]

-- The server: `ready` workers are about to take the mutex, `asleep` ones wait for the condition
-- variable, and the others serve a connection each. `accepted` and `taken` are all the descriptors
-- that have been pushed and popped.
pub record Server : Type 0 where
  pub queue : BlockQueue
  pub ready : ℕ
  pub asleep : ℕ
  pub serving : List ℕ
  pub accepted : List ℕ
  pub taken : List ℕ

pub start : ℕ → ℕ → Server
start number workers = record {
  queue = block_queue_init number;
  ready = workers;
  asleep = 0;
  serving = [];
  accepted = [];
  taken = [];
}

-- A step of `main` or of a worker in `thread_run`. The mutex makes each of them whole.
pub data Step (s : Server) : Server → Type 0 where
  -- `block_queue_push` with no worker asleep: the signal is lost
  push :
      (fd : ℕ) (q : BlockQueue)
      → block_queue_push s.queue fd ≡ ok q
      → s.asleep ≡ 0
      → Step s (record s { queue = q; accepted = s.accepted ++ (fd ∷ []) })
  -- `block_queue_push` whose signal wakes a worker
  push_wakes :
      (fd n : ℕ) (q : BlockQueue)
      → block_queue_push s.queue fd ≡ ok q
      → s.asleep ≡ suc n
      → Step s (record s {
        queue = q;
        accepted = s.accepted ++ (fd ∷ []);
        asleep = n;
        ready = s.ready + 1;
      })
  -- `block_queue_pop` by a worker that finds a descriptor
  pop :
      (fd n : ℕ) (q : BlockQueue)
      → block_queue_pop s.queue ≡ ok (some (fd, q))
      → s.ready ≡ suc n
      → Step s (record s {
        queue = q;
        ready = n;
        serving = fd ∷ s.serving;
        taken = s.taken ++ (fd ∷ []);
      })
  -- `pthread_cond_wait` in a worker that finds none
  sleep :
      (n : ℕ)
      → block_queue_pop s.queue ≡ ok none
      → s.ready ≡ suc n
      → Step s (record s { ready = n; asleep = s.asleep + 1 })
  -- a spurious wakeup
  wake : (n : ℕ) → s.asleep ≡ suc n → Step s (record s { asleep = n; ready = s.ready + 1 })
  -- `loop_echo` returns
  finish :
      (fd : ℕ) (rest : List ℕ)
      → s.serving ≡ fd ∷ rest
      → Step s (record s { serving = rest; ready = s.ready + 1 })
