-- ===== src/Poll/Laws.antt =====
-- The poll dispatcher keeps the promise of a dispatcher, as long as a slot is free.
use yolanda.Prelude.Int.{is_neg, pos, ℤ}
use yolanda.Outcome.{ok}
use yolanda.Poll.Table.{
  IsDistinct, has_free, slot_watched, del_slot-IsDistinct, add_slot-IsDistinct, del_slot-free,
  update_slot-IsDistinct, add_slot-watched, del_slot-watched, update_slot-watched,
  poll_events-interest,
}
use yolanda.Dispatcher.{DispatcherLaws, Interest, rewatch, interest}
use yolanda.Channel.{Channel}
use yolanda.Poll.{
  poll_add, poll_del, poll_dispatcher, poll_update, add_slot, PollData, PollFd, del_slot,
  poll_events, update_slot,
}
use yolanda.Prelude.{◌≡◌, ◌∙◌, ◌∷◌, refl, ap, none, some, true, false, ℕ, List, arith, []}

-- With the descriptors in one slot each and a slot free, adding a channel whose descriptor is in no
-- slot enters it with the events that the channel asks for; the descriptors stay in one slot each,
-- and no other one is touched.
pub poll_add_lem :
    (c : Channel) (s : PollData)
    → IsDistinct s.event_set
    → has_free s.event_set ≡ true
    → is_neg c.fd ≡ false
    → slot_watched s.event_set c.fd ≡ none
    → (s' : PollData) × (poll_add c s ≡ ok s')
      × IsDistinct s'.event_set
      × ((fd : ℤ)
          → is_neg fd ≡ false
          → slot_watched s'.event_set fd
            ≡ rewatch (slot_watched s.event_set) c.fd (some (interest c.events)) fd)
unfolding poll_add
poll_add_lem c s v h n w = (
  record { event_set = (add_slot c.fd (poll_events c.events) s.event_set).1 },
  refl,
  add_slot-IsDistinct c.fd _ s.event_set n h w v,
  λ fd nq.
      add_slot-watched c.fd (poll_events c.events) s.event_set fd n h w nq
      ∙ ap (λ i. rewatch (slot_watched s.event_set) c.fd (some i) fd)
          (poll_events-interest c.events),
)

-- With the descriptors in one slot each, deleting a channel that is entered frees a slot, and its
-- descriptor is watched no longer; the descriptors stay in one slot each, and no other one is
-- touched.
pub poll_del_lem :
    (c : Channel) (s : PollData) (i : Interest)
    → IsDistinct s.event_set
    → is_neg c.fd ≡ false
    → slot_watched s.event_set c.fd ≡ some i
    → (s' : PollData) × (poll_del c s ≡ ok (pos 0, s'))
      × IsDistinct s'.event_set
      × (has_free s'.event_set ≡ true)
      × ((fd : ℤ)
          → is_neg fd ≡ false
          → slot_watched s'.event_set fd ≡ rewatch (slot_watched s.event_set) c.fd none fd)
unfolding poll_del
poll_del_lem c s i v n w = (
  record { event_set = (del_slot c.fd s.event_set).1 },
  refl,
  del_slot-IsDistinct c.fd s.event_set n v,
  del_slot-free c.fd s.event_set i w,
  λ fd nq. del_slot-watched c.fd s.event_set fd n v nq,
)

-- Updating a channel that is entered watches its descriptor for what the channel asks for now;
-- no other one is touched.
pub poll_update_lem :
    (c : Channel) (s : PollData) (i : Interest)
    → IsDistinct s.event_set
    → is_neg c.fd ≡ false
    → slot_watched s.event_set c.fd ≡ some i
    → (s' : PollData) × (poll_update c s ≡ ok s')
      × IsDistinct s'.event_set
      × ((fd : ℤ)
          → is_neg fd ≡ false
          → slot_watched s'.event_set fd
            ≡ rewatch (slot_watched s.event_set) c.fd (some (interest c.events)) fd)
unfolding poll_update
poll_update_lem c s i v n w = (
  record { event_set = (update_slot c.fd (poll_events c.events) s.event_set).1 },
  refl,
  update_slot-IsDistinct c.fd _ s.event_set i w v,
  λ fd nq.
      update_slot-watched c.fd (poll_events c.events) s.event_set fd i w
      ∙ ap (λ j. rewatch (slot_watched s.event_set) c.fd (some j) fd)
          (poll_events-interest c.events),
)

-- Adding, deleting and updating a channel in the table of `poll` is adding, deleting and updating
-- it in the map of watched descriptors: as long as a slot is free, no two slots hold one
-- descriptor, and no other descriptor is touched.
abbrev pub poll_dispatcher_laws : DispatcherLaws poll_dispatcher
poll_dispatcher_laws = record {
  Valid = λ s. IsDistinct s.event_set;
  HasRoom = λ s. has_free s.event_set ≡ true;
  watched = λ s. slot_watched s.event_set;
  add_watches = poll_add_lem;
  del_forgets = poll_del_lem;
  update_watches = poll_update_lem;
}

-- With no slot free the descriptor is not entered, and `poll_add` reports success all the same.
pub poll_add_full :
    (c : Channel) (s : PollData) → has_free s.event_set ≡ false → poll_add c s ≡ ok s
unfolding poll_add add_slot
poll_add_full c s h = ap (λ ss. ok (record { event_set = ss })) (unchanged c.fd _ s.event_set h)
  where
    unchanged :
        (fd : ℤ) (events : ℕ) (ss : List PollFd)
        → has_free ss ≡ false
        → (add_slot fd events ss).1 ≡ ss
    unchanged fd events [] k = refl
    unchanged fd events (t ∷ ss) k = ground (arith, unchanged fd events ss)
