-- ===== src/EventLoop/Tests.antt =====
-- The theorems about the event loop at a loop over the poll dispatcher, and runs of its functions.
use yolanda.EventLoop.Activation.{serve_slot_removed}
use yolanda.Poll.Table.{slot_watched}
use yolanda.EventLoop.Registry.Changes.{remove_lem, add_first_lem, update_lem}
use yolanda.Dispatcher.{interest}
use yolanda.Poll.Laws.{poll_dispatcher_laws}
use yolanda.Outcome.{fault, ok, null_pointer, Outcome}
use yolanda.EventLoop.Registry.{IsConsistent, Agree, Changed, channel_at}
use yolanda.Prelude.Int.{minus_one, pos}
use yolanda.Poll.{PollFd, PollData, poll_dispatcher, serve_slot, poll_del, del_slot}
use yolanda.EventLoop.Pending.{Act, settled, queues, drains, run_acts, queued, run_acts-settled}
use yolanda.EventLoop.{
  EventLoop, handle_elements, event_loop_handle_pending_add, event_loop_handle_pending_remove,
  event_loop_handle_pending_update, channel_event_activate, activate_at, call_if,
  event_loop_remove_channel_event, event_loop_do_channel_event, event_loop_handle_pending_channel,
  handle_element, handle_remove_at, event_loop_channel_buffer_nolock, is_in_same_thread,
  event_loop_wakeup,
}
use yolanda.Channel.{
  Channel, channel_new, handle_read, handle_write, connection, Callback, Target, event_read,
}
use yolanda.Prelude.{
  ◌≡◌, ◌∷◌, ◌++◌, refl, none, some, true, false, ℕ, List, Bool, arith, zero, suc, [],
}

-- The channel at address p has the descriptor p and waits to read.
abbrev channels : ℕ → Channel
channels p = channel_new (pos p) 2 (some handle_read) (some handle_write) (connection p)

abbrev free_slot : PollFd
free_slot = record { fd = minus_one; events = 0; revents = 0 }

-- Descriptor 1 is entered; the table has room for descriptors below 3.
abbrev small : EventLoop PollData
small = record {
  quit = false;
  dispatcher = record {
    event_set = record { fd = pos 1; events = 64; revents = 0 } ∷ free_slot ∷ [];
  };
  map = record { entries = none ∷ some 1 ∷ none ∷ []; nentries = 3 };
  is_handle_pending = false;
  pending = record { kind = 1; channel = 2 } ∷ [];
  owner_thread = 7;
  wakeups = 0;
  channels = channels;
}

abbrev room : ℕ → Bool
room size = true

small-IsConsistent : IsConsistent poll_dispatcher poll_dispatcher_laws small
unfolding channel_new
small-IsConsistent = record {
  table = record { counted = refl };
  dispatcher = ((λ h. refl), ((λ h. cc), tt));
  agree = agrees;
}
  where
    agrees :
        (fd : ℕ)
        → Agree channels fd
            (channel_at small.map fd)
            (slot_watched small.dispatcher.event_set (pos fd))
    agrees zero = tt
    agrees (suc zero) = refl
    agrees (suc (suc zero)) = tt
    agrees (suc (suc (suc fd))) = ground arith

add_first_lem_example :
    (l' : EventLoop PollData) × (event_loop_handle_pending_add poll_dispatcher room small 5
      ≡ ok (pos 1, l'))
    × Changed poll_dispatcher poll_dispatcher_laws small 5 (some 5) (some (interest 2)) l'
unfolding channel_new
add_first_lem_example =
    add_first_lem poll_dispatcher poll_dispatcher_laws room small 5 5 small-IsConsistent refl
      (λ size. refl) refl (omega arith) refl

remove_lem_example :
    (l' : EventLoop PollData) × (event_loop_handle_pending_remove poll_dispatcher room small 1
      ≡ ok (pos 1, l'))
    × Changed poll_dispatcher poll_dispatcher_laws small 1 none none l'
unfolding channel_new
remove_lem_example =
    remove_lem poll_dispatcher poll_dispatcher_laws room small 1 1 1 small-IsConsistent refl refl

update_lem_example :
    (l' : EventLoop PollData) × (event_loop_handle_pending_update poll_dispatcher room small 1
      ≡ ok l')
    × Changed poll_dispatcher poll_dispatcher_laws small 1 (some 1) (some (interest 2)) l'
unfolding channel_new
update_lem_example =
    update_lem poll_dispatcher poll_dispatcher_laws room small 1 1 1 small-IsConsistent refl refl

-- Thread 8 queues an update of descriptor 1, the owner drains, and thread 9 queues a removal.
abbrev history : List Act
history =
    queues 8 (record { kind = 3; channel = 1 }) true
    ∷ drains
    ∷ queues 9 (record { kind = 2; channel = 1 }) false
    ∷ []

run_acts-settled_example :
    settled poll_dispatcher room (run_acts poll_dispatcher room small history)
    ≡ settled poll_dispatcher room
        (handle_elements poll_dispatcher room small (small.pending ++ queued history))
run_acts-settled_example = run_acts-settled poll_dispatcher room small history refl (omega arith)

-- The owner's loop with nothing pending, and what it is once descriptor 1 is removed.
abbrev at_rest : EventLoop PollData
at_rest = record small { pending = [] }

abbrev emptied : EventLoop PollData
emptied = record at_rest {
  dispatcher = record {
    event_set = record { fd = minus_one; events = 64; revents = 0 } ∷ free_slot ∷ [];
  };
  map = record { entries = none ∷ none ∷ none ∷ []; nentries = 3 };
}

-- Every callback removes descriptor 1, as a read at the end of a stream does.
abbrev removes : Callback → Target → EventLoop PollData → Outcome (EventLoop PollData)
removes callback target l = event_loop_remove_channel_event poll_dispatcher room 7 true l 1

removed : channel_event_activate (λ l. l) removes at_rest (pos 1) event_read ≡ ok (pos 0, emptied)
unfolding channel_event_activate activate_at call_if event_loop_remove_channel_event
    event_loop_do_channel_event event_loop_handle_pending_channel handle_elements handle_element
    event_loop_handle_pending_remove handle_remove_at channel_new poll_del del_slot
    event_loop_channel_buffer_nolock is_in_same_thread event_loop_wakeup
removed = refl

serve_slot_removed_example :
    serve_slot
      (λ l. l.dispatcher)
      (channel_event_activate (λ l. l) removes)
      at_rest
      (record { fd = pos 1; events = 64; revents = 320 })
    ≡ fault null_pointer
serve_slot_removed_example =
    serve_slot_removed (λ l. l) removes (λ l. l.dispatcher) at_rest emptied
      (record { fd = pos 1; events = 64; revents = 320 }) 1 (pos 0) refl (λ e. cc) (λ e. cc) removed
      refl (omega arith)
