-- ===== src/EventLoop/Registry/Changes.antt =====
-- What the three kinds of pending change do to a loop whose table and dispatcher agree.
use yolanda.EventLoop.Registry.Reach.{Reached, reach_lem}
use yolanda.Channel.{Channel}
use yolanda.Outcome.{ok, fault, null_pointer, out_of_bounds}
use yolanda.Prelude.Int.{pos, is_neg, ℤ}
use yolanda.ChannelMap.Growth.{IsTable}
use yolanda.EventLoop.Registry.{
  IsConsistent, Agree, channel_at, Changed, changed, entry-of_channel_at, Changed-map,
}
use yolanda.ChannelMap.{ChannelMap}
use yolanda.EventLoop.{
  EventLoop, event_loop_handle_pending_add, event_loop_handle_pending_remove, reach, entry,
  event_loop_handle_pending_update, handle_add_at, handle_remove_at, set_entry, handle_update_at,
}
use yolanda.Dispatcher.{Dispatcher, DispatcherLaws, interest, Interest, rewatch}
use yolanda.Prelude.{
  ◌<◌, ◌≡◌, refl, sym, subst, inl, inr, none, some, true, ℕ, Bool, arith, le-cases, get_elem?-of_ge,
  ◌∙◌, ◌==◌, if◌then◌else◌, ap, false, Option, ◌≤◌, Bool-cases,
}

Agree-none :
    (channels : ℕ → Channel) (fd : ℕ) (e : Option ℕ) (i : Option Interest)
    → e ≡ none
    → Agree channels fd e i
    → i ≡ none
Agree-none channels fd none none h a = refl
Agree-none channels fd none (some i) h a = absurd a
Agree-none channels fd (some p) i h a = cc

Agree-some :
    (channels : ℕ → Channel) (fd q : ℕ) (e : Option ℕ) (i : Option Interest)
    → e ≡ some q
    → Agree channels fd e i
    → (j : Interest) × (i ≡ some j) × ((channels q).fd ≡ pos fd)
Agree-some channels fd q none i h a = cc
Agree-some channels fd q (some p) none h a = absurd a
Agree-some channels fd q (some p) (some j) h a = (j, refl, ground arith)

module _ {D : Type 0} (d : Dispatcher D) (laws : DispatcherLaws d) (room : ℕ → Bool) where
  open laws use {HasRoom, watched, add_watches, del_forgets, update_watches}

  channel_at-within :
      (l : EventLoop D) (fd q : ℕ)
      → IsTable l.map
      → channel_at l.map fd ≡ some q
      → fd < l.map.nentries
  channel_at-within l fd q t w = elim (le-cases l.map.nentries fd) [
    | inl beyond ↦ ground (arith, get_elem?-of_ge l.map.entries fd (omega (arith, t.counted)))
    | inr within ↦ within
  ]

  Reached-IsConsistent :
      (l : EventLoop D) (fd : ℕ) (map : ChannelMap ℕ)
      → IsConsistent d laws l
      → Reached l fd map
      → IsConsistent d laws (record l { map = map })
  Reached-IsConsistent l fd map v r = record {
    table = r.table;
    dispatcher = v.dispatcher;
    agree = λ q.
        subst (λ x. Agree l.channels q x (watched l.dispatcher (pos q))) (sym (r.same q))
          (v.agree q);
  }

  -- With table and dispatcher in agreement, room in both, and a realloc that never fails, a channel
  -- with a descriptor below 2^27 that has no channel yet is entered, if need be in a grown table,
  -- and watched for what it asks; nothing else changes, and table and dispatcher still agree.
  pub add_first_lem :
      (l : EventLoop D) (p fd : ℕ)
      → IsConsistent d laws l
      → HasRoom l.dispatcher
      → ((size : ℕ) → room size ≡ true)
      → (l.channels p).fd ≡ pos fd
      → fd < 134217728
      → channel_at l.map fd ≡ none
      → (l' : EventLoop D) × (event_loop_handle_pending_add d room l p ≡ ok (pos 1, l'))
        × Changed d laws l fd (some p) (some (interest (l.channels p).events)) l'
  unfolding event_loop_handle_pending_add
  add_first_lem l p fd v r free e h w =
      let (map, made, r') = reach_lem room l fd v.table h free in
      let (s', added, valid, rewatched) =
        add_watches (l.channels p) l.dispatcher v.dispatcher r (ap is_neg e)
          (ap (watched l.dispatcher) e ∙ Agree-none l.channels fd _ _ w (v.agree fd)) in
      let c =
        changed d laws (record l { map = map }) fd (some p) (some (interest (l.channels p).events))
          s' (Reached-IsConsistent l fd map v r') r'.within e valid
          (subst
            (λ z.
              (q : ℤ)
              → is_neg q ≡ false
              → watched s' q
                ≡ rewatch (watched l.dispatcher) z (some (interest (l.channels p).events)) q)
            e rewatched) in
      (
        record l { map = set_entry map fd (some p); dispatcher = s' },
        ap (λ z. handle_add_at d room l z p) e
            ∙ entered map s' made added (
                entry-of_channel_at map fd none (omega (arith, r'.within, r'.table.counted))
                  (r'.same fd ∙ w)),
        record {
          consistent = c.consistent;
          entries = λ q. c.entries q ∙ ap (λ x. if q == fd then some p else x) (r'.same q);
          interests = c.interests;
          others = refl;
        },
      )
    where
      entered :
          (map : ChannelMap ℕ) (s' : D)
          → reach room l.map fd ≡ ok (some map)
          → d.add (l.channels p) l.dispatcher ≡ ok s'
          → entry map fd ≡ ok none
          → handle_add_at d room l (pos fd) p
            ≡ ok (pos 1, record l { map = set_entry map fd (some p); dispatcher = s' })
      entered map s' made added empty = ground arith

  -- A second channel of the same descriptor is not entered: the call returns 0.
  pub add_again_lem :
      (l : EventLoop D) (p q fd : ℕ)
      → IsConsistent d laws l
      → (l.channels p).fd ≡ pos fd
      → channel_at l.map fd ≡ some q
      → event_loop_handle_pending_add d room l p ≡ ok (pos 0, l)
  unfolding event_loop_handle_pending_add
  add_again_lem l p q fd v e w =
      ap (λ z. handle_add_at d room l z p) e ∙ ground (arith, v.table.counted, within)
    where
      within : fd < l.map.nentries
      within = channel_at-within l fd q v.table w

  -- With table and dispatcher in agreement, removing a channel whose descriptor is entered empties
  -- the entry, and the descriptor is watched no longer; nothing else changes, and the two still
  -- agree. The channel need not be the one that was entered.
  pub remove_lem :
      (l : EventLoop D) (p q fd : ℕ)
      → IsConsistent d laws l
      → (l.channels p).fd ≡ pos fd
      → channel_at l.map fd ≡ some q
      → (l' : EventLoop D) × (event_loop_handle_pending_remove d room l p ≡ ok (pos 1, l'))
        × Changed d laws l fd none none l'
  unfolding event_loop_handle_pending_remove
  remove_lem l p q fd v e w =
      let (i, iw, own) = Agree-some l.channels fd q _ _ w (v.agree fd) in
      let (s', deleted, valid, _, rewatched) =
        del_forgets (l.channels q) l.dispatcher i v.dispatcher (ap is_neg own)
          (ap (watched l.dispatcher) own ∙ iw) in
      (
        record l { map = set_entry l.map fd none; dispatcher = s' },
        ap (λ z. handle_remove_at d room l z) e
            ∙ removed s' deleted (channel_at-within l fd q v.table w),
        changed d laws l fd none none s' v (channel_at-within l fd q v.table w) tt valid (
            subst
              (λ z.
                (r : ℤ) → is_neg r ≡ false → watched s' r ≡ rewatch (watched l.dispatcher) z none r)
              own rewatched),
      )
    where
      removed :
          (s' : D)
          → d.del (l.channels q) l.dispatcher ≡ ok (pos 0, s')
          → fd < l.map.nentries
          → handle_remove_at d room l (pos fd)
            ≡ ok (pos 1, record l { map = set_entry l.map fd none; dispatcher = s' })
      removed s' deleted h = ground arith

  -- With table and dispatcher in agreement, updating a channel whose descriptor is entered changes
  -- what the descriptor is watched for to what the channel asks for now, and nothing else; the two
  -- still agree.
  pub update_lem :
      (l : EventLoop D) (p q fd : ℕ)
      → IsConsistent d laws l
      → (l.channels p).fd ≡ pos fd
      → channel_at l.map fd ≡ some q
      → (l' : EventLoop D) × (event_loop_handle_pending_update d room l p ≡ ok l')
        × Changed d laws l fd (some q) (some (interest (l.channels p).events)) l'
  unfolding event_loop_handle_pending_update
  update_lem l p q fd v e w =
      let (i, iw, own) = Agree-some l.channels fd q _ _ w (v.agree fd) in
      let (s', updated, valid, rewatched) =
        update_watches (l.channels p) l.dispatcher i v.dispatcher (ap is_neg e)
          (ap (watched l.dispatcher) e ∙ iw) in
      let within = channel_at-within l fd q v.table w in
      (
        record l { dispatcher = s' },
        ap (λ z. handle_update_at d room l z p) e
            ∙ known s' updated
                (entry-of_channel_at l.map fd (some q) (omega (arith, within, v.table.counted)) w),
        Changed-map d laws l fd (some q) (some (interest (l.channels p).events)) l.map s' v v.table
            kept own valid
            (subst
              (λ z.
                (r : ℤ)
                → is_neg r ≡ false
                → watched s' r
                  ≡ rewatch (watched l.dispatcher) z (some (interest (l.channels p).events)) r)
              e rewatched),
      )
    where
      kept : (r : ℕ) → channel_at l.map r ≡ (if r == fd then some q else channel_at l.map r)
      kept r = elim (Bool-cases (r == fd)) [
        | inl same ↦ let k : r ≡ fd = ground arith in rw same (rw k w)
        | inr other ↦ rw other
      ]

      known :
          (s' : D)
          → d.update (l.channels p) l.dispatcher ≡ ok s'
          → entry l.map fd ≡ ok (some q)
          → handle_update_at d room l (pos fd) p ≡ ok (record l { dispatcher = s' })
      known s' updated at = ground arith

  -- An update for a descriptor beyond the table, whose length is that of its block, reads past its
  -- end: the source does not compare the descriptor with the number of entries here, as it does for
  -- an addition and a removal.
  pub update_beyond :
      (l : EventLoop D) (p fd : ℕ)
      → IsTable l.map
      → (l.channels p).fd ≡ pos fd
      → l.map.nentries ≤ fd
      → event_loop_handle_pending_update d room l p ≡ fault out_of_bounds
  unfolding event_loop_handle_pending_update
  update_beyond l p fd t e h =
      ap (λ z. handle_update_at d room l z p) e
      ∙ ground (arith, get_elem?-of_ge l.map.entries fd (omega (arith, t.counted)))

  -- A removal for a descriptor within the table that has no entry hands a null channel to the
  -- dispatcher, which reads through it.
  pub remove_missing :
      (l : EventLoop D) (p fd : ℕ)
      → IsTable l.map
      → (l.channels p).fd ≡ pos fd
      → fd < l.map.nentries
      → channel_at l.map fd ≡ none
      → event_loop_handle_pending_remove d room l p ≡ fault null_pointer
  unfolding event_loop_handle_pending_remove
  remove_missing l p fd t e h w =
      ap (λ z. handle_remove_at d room l z) e
      ∙ missing (entry-of_channel_at l.map fd none (omega (arith, t.counted)) w)
    where
      missing : entry l.map fd ≡ ok none → handle_remove_at d room l (pos fd) ≡ fault null_pointer
      missing at = ground arith
