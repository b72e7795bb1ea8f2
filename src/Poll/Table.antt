-- ===== src/Poll/Table.antt =====
-- The table of poll slots as a map from descriptors to what they are watched for.
use Prim.Native.Nat.{bit_and}
use yolanda.Prelude.Int.{ℤ, eqb_ℤ, is_neg, eqb_ℤ_iff, minus_one}
use yolanda.Poll.{PollFd, add_slot, poll_events, pollrdnorm, pollwrnorm, del_slot, update_slot}
use yolanda.Dispatcher.{Interest, interest, rewatch}
use yolanda.Prelude.{
  ◌≡◌, ◌∷◌, ◌==◌, if◌then◌else◌, none, some, true, false, ℕ, List, Option, Bool, arith, not, [],
  ◌||◌,
}

-- What the events of a slot ask for.
abbrev pub poll_interest : ℕ → Interest
poll_interest events = record {
  reads = not (bit_and events pollrdnorm == 0);
  writes = not (bit_and events pollwrnorm == 0);
}

-- The mask made for a channel asks for what the channel asks for.
pub poll_events-interest : (events : ℕ) → poll_interest (poll_events events) ≡ interest events
unfolding poll_events
poll_events-interest events = ground arith

abbrev pub slot_watched : List PollFd → ℤ → Option Interest
slot_watched [] fd = none
slot_watched (s ∷ ss) fd =
    if eqb_ℤ s.fd fd then some (poll_interest s.events) else slot_watched ss fd

abbrev pub has_free : List PollFd → Bool
has_free [] = false
has_free (s ∷ ss) = is_neg s.fd || has_free ss

-- No descriptor stands in two slots.
abbrev pub IsDistinct : List PollFd → Type 0
IsDistinct [] = Unit {0}
IsDistinct (s ∷ ss) = (is_neg s.fd ≡ false → slot_watched ss s.fd ≡ none) × IsDistinct ss

pub add_slot-watched :
    (fd : ℤ) (events : ℕ) (ss : List PollFd) (q : ℤ)
    → is_neg fd ≡ false
    → has_free ss ≡ true
    → slot_watched ss fd ≡ none
    → is_neg q ≡ false
    → slot_watched (add_slot fd events ss).1 q
      ≡ rewatch (slot_watched ss) fd (some (poll_interest events)) q
unfolding add_slot
add_slot-watched fd events [] q n h w nq = cc
add_slot-watched fd events (s ∷ ss) q n h w nq = ground (
  arith,
  eqb_ℤ_iff s.fd fd,
  eqb_ℤ_iff s.fd q,
  eqb_ℤ_iff fd q,
  eqb_ℤ_iff q fd,
  add_slot-watched fd events ss q,
)

pub add_slot-IsDistinct :
    (fd : ℤ) (events : ℕ) (ss : List PollFd)
    → is_neg fd ≡ false
    → has_free ss ≡ true
    → slot_watched ss fd ≡ none
    → IsDistinct ss
    → IsDistinct (add_slot fd events ss).1
unfolding add_slot
add_slot-IsDistinct fd events [] n h w d = tt
add_slot-IsDistinct fd events (s ∷ ss) n h w d = ground (
  arith,
  eqb_ℤ_iff s.fd fd,
  eqb_ℤ_iff fd s.fd,
  add_slot-watched fd events ss s.fd,
  add_slot-IsDistinct fd events ss,
)

pub del_slot-watched :
    (fd : ℤ) (ss : List PollFd) (q : ℤ)
    → is_neg fd ≡ false
    → IsDistinct ss
    → is_neg q ≡ false
    → slot_watched (del_slot fd ss).1 q ≡ rewatch (slot_watched ss) fd none q
unfolding del_slot
del_slot-watched fd [] q n d nq = ground arith
del_slot-watched fd (s ∷ ss) q n d nq = ground (
  arith,
  eqb_ℤ_iff s.fd fd,
  eqb_ℤ_iff s.fd q,
  eqb_ℤ_iff minus_one q,
  eqb_ℤ_iff q fd,
  del_slot-watched fd ss q,
)

pub del_slot-IsDistinct :
    (fd : ℤ) (ss : List PollFd) → is_neg fd ≡ false → IsDistinct ss → IsDistinct (del_slot fd ss).1
unfolding del_slot
del_slot-IsDistinct fd [] n d = tt
del_slot-IsDistinct fd (s ∷ ss) n d =
    ground (arith, eqb_ℤ_iff s.fd fd, del_slot-watched fd ss s.fd, del_slot-IsDistinct fd ss)

-- The slot that is freed can be used again.
pub del_slot-free :
    (fd : ℤ) (ss : List PollFd) (i : Interest)
    → slot_watched ss fd ≡ some i
    → has_free (del_slot fd ss).1 ≡ true
unfolding del_slot
del_slot-free fd [] i h = cc
del_slot-free fd (s ∷ ss) i h = ground (arith, del_slot-free fd ss i)

pub update_slot-watched :
    (fd : ℤ) (events : ℕ) (ss : List PollFd) (q : ℤ) (i : Interest)
    → slot_watched ss fd ≡ some i
    → slot_watched (update_slot fd events ss).1 q
      ≡ rewatch (slot_watched ss) fd (some (poll_interest events)) q
unfolding update_slot
update_slot-watched fd events [] q i w = cc
update_slot-watched fd events (s ∷ ss) q i w = ground (
  arith,
  eqb_ℤ_iff s.fd fd,
  eqb_ℤ_iff s.fd q,
  eqb_ℤ_iff q fd,
  update_slot-watched fd events ss q i,
)

pub update_slot-IsDistinct :
    (fd : ℤ) (events : ℕ) (ss : List PollFd) (i : Interest)
    → slot_watched ss fd ≡ some i
    → IsDistinct ss
    → IsDistinct (update_slot fd events ss).1
unfolding update_slot
update_slot-IsDistinct fd events [] i w d = tt
update_slot-IsDistinct fd events (s ∷ ss) i w d = ground (
  arith,
  eqb_ℤ_iff s.fd fd,
  update_slot-watched fd events ss s.fd i,
  update_slot-IsDistinct fd events ss i,
)
