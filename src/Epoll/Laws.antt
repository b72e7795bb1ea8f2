-- ===== src/Epoll/Laws.antt =====
-- The epoll dispatcher keeps the promise of a dispatcher, by what epoll_ctl(2) says of the interest
-- list.
use yolanda.Outcome.{ok}
use yolanda.Channel.{Channel}
use yolanda.Prelude.Int.{ℤ, eqb_ℤ, is_neg, pos}
use Prim.Native.Nat.{bit_and}
use yolanda.Epoll.{
  EpollCtl, epoll_events, EpollData, epoll_add, epoll_del, epoll_update, control, epoll_dispatcher,
  epollin, ctl_add, epollout, ctl_del, ctl_mod,
}
use yolanda.Dispatcher.{Interest, DispatcherLaws, interest, rewatch}
use yolanda.Prelude.{
  ◌≡◌, ◌∙◌, ◌==◌, if◌then◌else◌, refl, ap, none, some, true, false, ℕ, Option, Bool, arith, not,
}

-- The interest list of an instance: the events by descriptor. `HasRoom` says that neither the limit
-- on watches nor memory stands in the way of one more, and that the descriptors at hand can be
-- polled.
pub record KernelLaws {K : Type 0} (ctl : EpollCtl K) : Type 1 where
  pub HasRoom : K → Type 0
  pub listed : K → ℤ → Option ℕ
  pub add_lists :
      (fd : ℤ) (events : ℕ) (k : K)
      → HasRoom k
      → is_neg fd ≡ false
      → listed k fd ≡ none
      → (k' : K) × (ctl ctl_add fd events k ≡ some k')
        × ((other : ℤ) → listed k' other ≡ (if eqb_ℤ other fd then some events else listed k other))
  pub del_unlists :
      (fd : ℤ) (events old : ℕ) (k : K)
      → listed k fd ≡ some old
      → (k' : K) × (ctl ctl_del fd events k ≡ some k')
        × HasRoom k'
        × ((other : ℤ) → listed k' other ≡ (if eqb_ℤ other fd then none else listed k other))
  pub mod_lists :
      (fd : ℤ) (events old : ℕ) (k : K)
      → listed k fd ≡ some old
      → (k' : K) × (ctl ctl_mod fd events k ≡ some k')
        × ((other : ℤ) → listed k' other ≡ (if eqb_ℤ other fd then some events else listed k other))

-- `events & EPOLLIN`, `events & EPOLLOUT`, as tests
abbrev pub mask_interest : ℕ → Interest
mask_interest events = record {
  reads = not (bit_and events epollin == 0);
  writes = not (bit_and events epollout == 0);
}

abbrev pub interest_of : Option ℕ → Option Interest
interest_of none = none
interest_of (some events) = some (mask_interest events)

-- The mask made for a channel asks for what the channel asks for.
epoll_events-interest : (events : ℕ) → mask_interest (epoll_events events) ≡ interest events
unfolding epoll_events
epoll_events-interest events = ground arith

interest_of-some :
    (o : Option ℕ) (i : Interest) → interest_of o ≡ some i → (events : ℕ) × (o ≡ some events)
interest_of-some none i e = cc
interest_of-some (some events) i e = (events, refl)

interest_of-none : (o : Option ℕ) → interest_of o ≡ none → o ≡ none
interest_of-none none e = refl
interest_of-none (some events) e = cc

interest_of-if :
    (b : Bool) (o p : Option ℕ)
    → interest_of (if b then o else p) ≡ (if b then interest_of o else interest_of p)
interest_of-if true o p = refl
interest_of-if false o p = refl

module _ {K : Type 0} (ctl : EpollCtl K) (laws : KernelLaws ctl) where
  open laws use {HasRoom, listed, add_lists, del_unlists, mod_lists}

  -- The descriptors that an instance watches.
  abbrev pub epoll_watched : EpollData K → ℤ → Option Interest
  epoll_watched s fd = interest_of (listed s.kernel fd)

  rewatched :
      (s : EpollData K) (k' : K) (fd : ℤ) (o : Option ℕ) (other : ℤ)
      → listed k' other ≡ (if eqb_ℤ other fd then o else listed s.kernel other)
      → interest_of (listed k' other) ≡ rewatch (epoll_watched s) fd (interest_of o) other
  rewatched s k' fd o other e =
      ap interest_of e ∙ interest_of-if (eqb_ℤ other fd) o (listed s.kernel other)

  -- While the kernel has room, adding a channel whose descriptor is not watched has it watched for
  -- what the channel asks for, and touches no other descriptor.
  pub epoll_add_lem :
      (c : Channel) (s : EpollData K)
      → HasRoom s.kernel
      → is_neg c.fd ≡ false
      → epoll_watched s c.fd ≡ none
      → (s' : EpollData K) × (epoll_add ctl c s ≡ ok s')
        × ((fd : ℤ)
            → epoll_watched s' fd ≡ rewatch (epoll_watched s) c.fd (some (interest c.events)) fd)
  unfolding epoll_add control
  epoll_add_lem c s room n w =
      let (k', e, each) =
        add_lists c.fd (epoll_events c.events) s.kernel room n (interest_of-none _ w) in
      (
        record s { kernel = k' },
        ground (arith, e),
        λ fd.
            rewatched s k' c.fd (some (epoll_events c.events)) fd (each fd)
            ∙ ap (λ i. rewatch (epoll_watched s) c.fd (some i) fd) (epoll_events-interest c.events),
      )

  -- Deleting a watched channel stops its descriptor being watched, leaves room in the kernel, and
  -- touches no other descriptor.
  pub epoll_del_lem :
      (c : Channel) (s : EpollData K) (i : Interest)
      → epoll_watched s c.fd ≡ some i
      → (s' : EpollData K) × (epoll_del ctl c s ≡ ok (pos 0, s'))
        × HasRoom s'.kernel
        × ((fd : ℤ) → epoll_watched s' fd ≡ rewatch (epoll_watched s) c.fd none fd)
  unfolding epoll_del control
  epoll_del_lem c s i w =
      let (old, was) = interest_of-some _ i w in
      let (k', e, room, each) = del_unlists c.fd (epoll_events c.events) old s.kernel was in
      (
        record s { kernel = k' },
        ground (arith, e),
        room,
        λ fd. rewatched s k' c.fd none fd (each fd),
      )

  -- Updating a watched channel has its descriptor watched for what the channel asks for now, and
  -- touches no other descriptor.
  pub epoll_update_lem :
      (c : Channel) (s : EpollData K) (i : Interest)
      → epoll_watched s c.fd ≡ some i
      → (s' : EpollData K) × (epoll_update ctl c s ≡ ok s')
        × ((fd : ℤ)
            → epoll_watched s' fd ≡ rewatch (epoll_watched s) c.fd (some (interest c.events)) fd)
  unfolding epoll_update control
  epoll_update_lem c s i w =
      let (old, was) = interest_of-some _ i w in
      let (k', e, each) = mod_lists c.fd (epoll_events c.events) old s.kernel was in
      (
        record s { kernel = k' },
        ground (arith, e),
        λ fd.
            rewatched s k' c.fd (some (epoll_events c.events)) fd (each fd)
            ∙ ap (λ j. rewatch (epoll_watched s) c.fd (some j) fd) (epoll_events-interest c.events),
      )

  -- So the loop's theorems hold over epoll too.
  abbrev pub epoll_dispatcher_laws : DispatcherLaws (epoll_dispatcher ctl)
  epoll_dispatcher_laws = record {
    Valid = λ s. Unit {0};
    HasRoom = λ s. HasRoom s.kernel;
    watched = epoll_watched;
    add_watches = λ c s v room n w.
        let (s', e, each) = epoll_add_lem c s room n w in (s', e, tt, λ fd h. each fd);
    del_forgets = λ c s i v n w.
        let (s', e, room, each) = epoll_del_lem c s i w in (s', e, tt, room, λ fd h. each fd);
    update_watches =
        λ c s i v n w. let (s', e, each) = epoll_update_lem c s i w in (s', e, tt, λ fd h. each fd);
  }
