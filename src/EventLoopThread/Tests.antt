-- ===== src/EventLoopThread/Tests.antt =====
-- A run in which the main thread waits for the loop and is woken by the signal.
use yolanda.EventLoopThread.Handover.{made, returned_with_loop}
use yolanda.EventLoopThread.{
  EventLoopThread, event_loop_thread_init, Reach, nobody, next, returned, here, running, create,
  main_lock, loop_absent, thread_lock, make_loop, wake, thread_unlock, relock, loop_present,
  main_unlock,
}
use yolanda.Prelude.{◌≡◌, refl, true}

abbrev finished : EventLoopThread
finished = record {
  has_loop = true;
  thread_count = 0;
  thread_name = 1;
  mutex = nobody;
  main = returned;
  thread = running;
}

handover : Reach (event_loop_thread_init 0) finished
unfolding event_loop_thread_init
handover =
    next
      (next
        (next
          (next
            (next
              (next
                (next
                  (next (next (next here (create refl)) (main_lock refl refl))
                    (loop_absent refl refl))
                  (thread_lock refl refl))
                (make_loop refl))
              (wake refl))
            (thread_unlock refl))
          (relock refl refl))
        (loop_present refl refl))
      (main_unlock refl)

returned_with_loop_example : (finished.has_loop ≡ true) × (made finished.thread ≡ true)
returned_with_loop_example = returned_with_loop 0 handover refl
