-- ===== src/Epoll/Tests.antt =====
-- The theorems about epoll at a kernel whose interest list is a function and never full.
use yolanda.Dispatcher.{rewatch, interest}
use yolanda.Outcome.{ok}
use yolanda.Prelude.Int.{eqb_ℤ, pos, ℤ}
use yolanda.Epoll.Laws.{KernelLaws, epoll_watched, epoll_add_lem}
use yolanda.Epoll.{EpollCtl, EpollData, ctl_add, epoll_add, ctl_del, ctl_mod}
use yolanda.Channel.{Channel, channel_new, Callback, connection}
use yolanda.Prelude.{◌≡◌, if◌then◌else◌, refl, none, some, ℕ, Option, arith}

abbrev kernel_ctl : EpollCtl (ℤ → Option ℕ)
kernel_ctl ctl_add fd events k = elim (k fd) [
  | none ↦ some (λ other. if eqb_ℤ other fd then some events else k other)
  | some old ↦ none
]
kernel_ctl ctl_del fd events k = elim (k fd) [
  | none ↦ none
  | some old ↦ some (λ other. if eqb_ℤ other fd then none else k other)
]
kernel_ctl ctl_mod fd events k = elim (k fd) [
  | none ↦ none
  | some old ↦ some (λ other. if eqb_ℤ other fd then some events else k other)
]

kernel_laws : KernelLaws kernel_ctl
kernel_laws = record {
  HasRoom = λ k. Unit {0};
  listed = λ k fd. k fd;
  add_lists = λ fd events k room n h. (
    (λ other. if eqb_ℤ other fd then some events else k other),
    ground (arith, h),
    λ other. refl,
  );
  del_unlists = λ fd events old k h.
      ((λ other. if eqb_ℤ other fd then none else k other), ground (arith, h), tt, λ other. refl);
  mod_lists = λ fd events old k h. (
    (λ other. if eqb_ℤ other fd then some events else k other),
    ground (arith, h),
    λ other. refl,
  );
}

abbrev channel : ℕ → Channel
channel fd =
    channel_new (pos fd) 2 (some Callback.handle_read) (some Callback.handle_write) (connection 0)

-- Descriptor 5 is watched for reading.
abbrev instance_5 : EpollData (ℤ → Option ℕ)
instance_5 = record { efd = pos 3; kernel = λ fd. if eqb_ℤ fd (pos 5) then some 1 else none }

epoll_add_lem_example :
    (s' : EpollData (ℤ → Option ℕ)) × (epoll_add kernel_ctl (channel 6) instance_5 ≡ ok s')
    × ((fd : ℤ)
        → epoll_watched kernel_ctl kernel_laws s' fd
          ≡ rewatch
              (epoll_watched kernel_ctl kernel_laws instance_5)
              (pos 6)
              (some (interest 2))
              fd)
unfolding channel_new kernel_laws
epoll_add_lem_example = epoll_add_lem kernel_ctl kernel_laws (channel 6) instance_5 tt refl refl
