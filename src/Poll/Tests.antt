-- ===== src/Poll/Tests.antt =====
-- The theorems about the poll table at a small table.
use yolanda.Dispatcher.{rewatch, interest}
use yolanda.Poll.Laws.{poll_add_lem}
use yolanda.Outcome.{ok}
use yolanda.Channel.{Channel, handle_read, handle_write, connection}
use yolanda.Prelude.Int.{ℤ, minus_one, pos, is_neg}
use yolanda.Poll.Table.{IsDistinct, slot_watched}
use yolanda.Poll.{PollData, PollFd, poll_add}
use yolanda.Prelude.{◌≡◌, ◌∷◌, refl, some, false, ℕ, []}

abbrev free_slot : PollFd
free_slot = record { fd = minus_one; events = 0; revents = 0 }

-- Descriptor 5 is watched for reading, and one slot is free.
abbrev table : PollData
table = record { event_set = free_slot ∷ record { fd = pos 5; events = 64; revents = 0 } ∷ [] }

abbrev channel : ℤ → ℕ → Channel
channel fd events = record {
  fd = fd;
  events = events;
  read_callback = some handle_read;
  write_callback = some handle_write;
  target = connection 0;
}

table-IsDistinct : IsDistinct table.event_set
table-IsDistinct = ((λ h. refl), ((λ h. refl), tt))

poll_add_lem_example :
    (s' : PollData) × (poll_add (channel (pos 6) 2) table ≡ ok s')
    × IsDistinct s'.event_set
    × ((fd : ℤ)
        → is_neg fd ≡ false
        → slot_watched s'.event_set fd
          ≡ rewatch (slot_watched table.event_set) (pos 6) (some (interest 2)) fd)
poll_add_lem_example = poll_add_lem (channel (pos 6) 2) table table-IsDistinct refl refl refl
