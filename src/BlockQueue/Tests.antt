-- ===== src/BlockQueue/Tests.antt =====
-- The theorems about the queue at queues of two places.
use yolanda.Outcome.{ok}
use yolanda.BlockQueue.Delivery.{delivered, Run, next, here}
use yolanda.BlockQueue.Ring.{contents, push_full}
use yolanda.BlockQueue.{
  BlockQueue, Server, start, block_queue_init, block_queue_push, block_queue_pop, sleep, push_wakes,
  pop,
}
use yolanda.Prelude.{◌<◌, ◌≡◌, ◌∷◌, ◌++◌, refl, none, arith, length, []}

abbrev one_left : BlockQueue
one_left = record { number = 2; fds = 5 ∷ 0 ∷ []; front = 0; rear = 1 }

push_full_example :
    (q' : BlockQueue) × (block_queue_push one_left 6 ≡ ok q')
    × (contents q' ≡ [])
    × (block_queue_pop q' ≡ ok none)
push_full_example =
    push_full one_left 6 (record { block = refl; front = omega arith; rear = omega arith }) refl

-- One worker, which sleeps, is woken by the push of descriptor 7, and takes it.
abbrev served : Server
served = record {
  queue = record { number = 2; fds = 7 ∷ 0 ∷ []; front = 1; rear = 1 };
  ready = 0;
  asleep = 0;
  serving = 7 ∷ [];
  accepted = 7 ∷ [];
  taken = 7 ∷ [];
}

handed_over : Run 2 (start 2 1) served
unfolding start block_queue_init block_queue_push block_queue_pop
handed_over =
    next
      (next (next here (sleep 0 refl refl) (omega arith))
        (push_wakes 7 0 (record { number = 2; fds = 7 ∷ 0 ∷ []; front = 0; rear = 1 }) refl refl)
        (omega arith))
      (pop 7 0 (record { number = 2; fds = 7 ∷ 0 ∷ []; front = 1; rear = 1 }) refl refl)
      (omega arith)

delivered_example :
    (served.accepted ≡ served.taken ++ contents served.queue)
    × (0 < length (contents served.queue) → served.asleep < 1)
delivered_example = delivered 2 1 (omega arith) (omega arith) handed_over
