-- ===== src/Yolandapp/EventLoopThread.antt =====
-- yolandapp/event_loop_thread.hpp and yolandapp/event_loop_thread.cpp: the handover of a loop. The lock of a
-- scope is taken and given back where the library in C locks and unlocks its mutex, and the wait with a
-- condition is its loop around `pthread_cond_wait`, so the steps are the same.
use yolanda.EventLoopThread.{EventLoopThread, Step, event_loop_thread_init}
use yolanda.Prelude.{ℕ}

abbrev pub PortThread : Type 0
PortThread = EventLoopThread

abbrev pub port_thread : ℕ → PortThread
port_thread = event_loop_thread_init

abbrev pub PortStep : PortThread → PortThread → Type 0
PortStep = Step
