-- ===== src/Dispatcher.antt =====
-- lib/event_dispatcher.h: what an event loop asks of the poll and of the epoll dispatcher.
-- `init`, `dispatch` and `clear` of the struct are functions of the two implementations.
use yolanda.Outcome.{Outcome, ok}
use yolanda.Prelude.Int.{ℤ, eqb_ℤ, is_neg, pos}
use yolanda.Channel.{Channel, event_read, event_write}
use Prim.Native.Nat.{bit_and}
use yolanda.Prelude.{◌≡◌, ◌==◌, if◌then◌else◌, none, some, false, ℕ, Option, Bool, not}

-- `D` is what `event_dispatcher_data` points to. The loop looks at the result of `del` alone.
pub record Dispatcher (D : Type 0) : Type 0 where
  pub add : Channel → D → Outcome D
  pub del : Channel → D → Outcome (ℤ × D)
  pub update : Channel → D → Outcome D

-- What a descriptor is watched for: reading and writing.
pub record Interest : Type 0 where
  pub reads : Bool
  pub writes : Bool

-- `channel->events & EVENT_READ`, `channel->events & EVENT_WRITE`, as tests
abbrev pub interest : ℕ → Interest
interest events = record {
  reads = not (bit_and events event_read == 0);
  writes = not (bit_and events event_write == 0);
}

-- The descriptors watched after a change at one of them.
abbrev pub rewatch : (ℤ → Option Interest) → ℤ → Option Interest → ℤ → Option Interest
rewatch watched fd i other = if eqb_ℤ other fd then i else watched other

-- The promise of a dispatcher: it watches the descriptors that were added and not deleted, each
-- for what was asked last.
pub record DispatcherLaws {D : Type 0} (d : Dispatcher D) : Type 1 where
  pub Valid : D → Type 0
  pub HasRoom : D → Type 0
  pub watched : D → ℤ → Option Interest
  pub add_watches :
      (c : Channel) (s : D)
      → Valid s
      → HasRoom s
      → is_neg c.fd ≡ false
      → watched s c.fd ≡ none
      → (s' : D) × (d.add c s ≡ ok s')
        × Valid s'
        × ((fd : ℤ)
            → is_neg fd ≡ false
            → watched s' fd ≡ rewatch (watched s) c.fd (some (interest c.events)) fd)
  pub del_forgets :
      (c : Channel) (s : D) (i : Interest)
      → Valid s
      → is_neg c.fd ≡ false
      → watched s c.fd ≡ some i
      → (s' : D) × (d.del c s ≡ ok (pos 0, s'))
        × Valid s'
        × HasRoom s'
        × ((fd : ℤ) → is_neg fd ≡ false → watched s' fd ≡ rewatch (watched s) c.fd none fd)
  pub update_watches :
      (c : Channel) (s : D) (i : Interest)
      → Valid s
      → is_neg c.fd ≡ false
      → watched s c.fd ≡ some i
      → (s' : D) × (d.update c s ≡ ok s')
        × Valid s'
        × ((fd : ℤ)
            → is_neg fd ≡ false
            → watched s' fd ≡ rewatch (watched s) c.fd (some (interest c.events)) fd)
