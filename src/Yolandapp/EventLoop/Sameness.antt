-- ===== src/Yolandapp/EventLoop/Sameness.antt =====
-- The two loops stay alike through a whole change, whoever asks for it.
use yolanda.Outcome.{fault, out_of_bounds, ok, ◌>>=◌, Outcome}
use yolanda.Prelude.Int.{ℤ, negsuc, pos, minus_one, eqb_ℤ, eqb_ℤ_iff}
use yolanda.Dispatcher.{Dispatcher}
use yolanda.Prelude.{
  ◌≡◌, ◌∷◌, ◌==◌, refl, sym, subst, inl, inr, none, some, true, ℕ, List, Bool, arith, Bool-cases,
  Option-cases, get_elem?, [], ap, false,
}
use yolanda.EventLoop.{
  EventLoop, Element, handle_element, handle_elements, event_loop_handle_pending_add,
  handle_update_at, event_loop_handle_pending_remove, update_known,
  event_loop_handle_pending_update, kind_add, kind_remove, kind_update, event_loop_do_channel_event,
  event_loop_handle_pending_channel, handle_add_at, handle_remove_at,
  event_loop_channel_buffer_nolock, is_in_same_thread, event_loop_wakeup,
}
use yolanda.Yolandapp.EventLoop.{
  PortLoop, handle_one, handle_all, do_channel_event, handle_pending_update, KeyedMap,
  handle_pending_channel, handle_pending_add, handle_pending_remove, channel_buffer_nolock, wakeup,
}
use yolanda.Yolandapp.EventLoop.Port.{
  Alike, AlikeResult, port, Follows, Follows-bind, Follows-same, Follows-by, add-Follows,
  remove-Follows,
}

ported :
    {D : Type 0} (l : EventLoop D) (m : PortLoop D) → Alike l m → Alike l (port l m.channel_map)
ported l m a = record { same = refl; table = a.table; low = a.low; entries = a.entries }

bind-ok : {A : Type 0} (o : Outcome A) → (o >>= λ a. ok a) ≡ o
bind-ok (ok a) = refl
bind-ok (fault reason) = refl

module _ {D : Type 0} (d : Dispatcher D) (room : ℕ → Bool)
    (free : (size : ℕ) → room size ≡ true) where
  update-Follows :
      (l : EventLoop D) (keys : KeyedMap) (z : ℤ) (p : ℕ)
      → Alike l (port l keys)
      → Follows
          (λ l' y. Alike l' y.1)
          (handle_update_at d room l z p)
          (handle_pending_update d (port l keys) z p)
  unfolding handle_update_at update_known handle_pending_update
  update-Follows l keys (negsuc n) p a = a
  update-Follows l keys (pos fd) p a = elim (Option-cases (get_elem? l.map.entries fd)) [
    | inl beyond ↦ Follows-by (λ l' y. Alike l' y.1) (outside beyond) refl tt
    | inr (none, empty) ↦ Follows-by (λ l' y. Alike l' y.1) (left_none empty) (right_none empty) a
    | inr (some q, full) ↦
        Follows-by (λ l' y. Alike l' y.1) (left q full) (right q full)
          (Follows-same (λ l' y. Alike l' y.1) (d.update (l.channels p) l.dispatcher)
            (λ s. ok (record l { dispatcher = s }))
            (λ s. ok (pos 0, record (port l keys) { dispatcher = s }))
            (λ s. record { same = refl; table = a.table; low = a.low; entries = a.entries }))
  ]
    where
      outside :
          get_elem? l.map.entries fd ≡ none
          → handle_update_at d room l (pos fd) p ≡ fault out_of_bounds
      outside e = ground arith

      left_none :
          get_elem? l.map.entries fd ≡ some none → handle_update_at d room l (pos fd) p ≡ ok l
      left_none e = ground arith

      right_none :
          get_elem? l.map.entries fd ≡ some none
          → handle_pending_update d (port l keys) (pos fd) p ≡ ok (minus_one, port l keys)
      right_none e = ground (arith, a.entries fd)

      left :
          (q : ℕ)
          → get_elem? l.map.entries fd ≡ some (some q)
          → handle_update_at d room l (pos fd) p
            ≡ (d.update (l.channels p) l.dispatcher >>= λ s. ok (record l { dispatcher = s }))
      left q e = ground arith

      right :
          (q : ℕ)
          → get_elem? l.map.entries fd ≡ some (some q)
          → handle_pending_update d (port l keys) (pos fd) p ≡ (
              d.update (l.channels p) l.dispatcher >>= λ s.
              ok (pos 0, record (port l keys) { dispatcher = s }))
      right q e = ground (arith, a.entries fd)

  one-Follows :
      (l : EventLoop D) (keys : KeyedMap) (e : Element)
      → Alike l (port l keys)
      → Follows Alike (handle_element d room l e) (handle_one d (port l keys) e)
  unfolding handle_element handle_one event_loop_handle_pending_add event_loop_handle_pending_remove
      event_loop_handle_pending_update
  one-Follows l keys e a = elim (Bool-cases (e.kind == kind_add)) [
    | inl adds ↦ rw adds (
        Follows-bind (AlikeResult d room free) Alike
          (handle_add_at d room l (l.channels e.channel).fd e.channel)
          (handle_pending_add d (port l keys) (l.channels e.channel).fd e.channel) (λ x. ok x.1)
          (λ y. ok y.1)
          (add-Follows d room free l keys (l.channels e.channel).fd e.channel a (a.low e.channel))
          (λ x y r. r.alike))
    | inr other ↦ elim (Bool-cases (e.kind == kind_remove)) [
      | inl removes ↦
          rw (other, removes)
            (Follows-bind (AlikeResult d room free) Alike
              (handle_remove_at d room l (l.channels e.channel).fd)
              (handle_pending_remove d (port l keys) (l.channels e.channel).fd e.channel)
              (λ x. ok x.1) (λ y. ok y.1)
              (remove-Follows d room free l keys (l.channels e.channel).fd e.channel a own)
              (λ x y r. r.alike))
      | inr rest ↦ elim (Bool-cases (e.kind == kind_update)) [
        | inl updates ↦
            rw (other, rest, updates)
              (Follows-by Alike
                (sym (bind-ok (handle_update_at d room l (l.channels e.channel).fd e.channel))) refl
                (Follows-bind (λ l' y. Alike l' y.1) Alike
                  (handle_update_at d room l (l.channels e.channel).fd e.channel)
                  (handle_pending_update d (port l keys) (l.channels e.channel).fd e.channel)
                  (λ l'. ok l') (λ y. ok y.1)
                  (update-Follows l keys (l.channels e.channel).fd e.channel a) (λ x y r. r)))
        | inr unknown ↦ rw (other, rest, unknown) a
      ]
    ]
  ]
    where
      own : eqb_ℤ (l.channels e.channel).fd (l.channels e.channel).fd ≡ true
      own = (eqb_ℤ_iff (l.channels e.channel).fd (l.channels e.channel).fd).1 refl

  all-Follows :
      (es : List Element) (l : EventLoop D) (m : PortLoop D)
      → Alike l m
      → Follows Alike (handle_elements d room l es) (handle_all d m es)
  unfolding handle_elements handle_all
  all-Follows [] l m a = a
  all-Follows (e ∷ es) l m a =
      subst (λ x. Follows Alike (handle_elements d room l (e ∷ es)) (handle_all d x (e ∷ es)))
        (sym a.same)
        (Follows-bind Alike Alike (handle_element d room l e)
          (handle_one d (port l m.channel_map) e) (λ l'. handle_elements d room l' es)
          (λ m'. handle_all d m' es) (one-Follows l m.channel_map e (ported l m a))
          (λ l' m' a'. all-Follows es l' m' a'))

  pending-Follows :
      (l : EventLoop D) (m : PortLoop D)
      → Alike l m
      → Follows Alike (event_loop_handle_pending_channel d room l) (handle_pending_channel d m)
  unfolding event_loop_handle_pending_channel handle_pending_channel
  pending-Follows l m a =
      subst
        (λ x.
          Follows Alike (event_loop_handle_pending_channel d room l) (handle_pending_channel d x))
        (sym a.same)
        (Follows-bind Alike Alike
          (handle_elements d room (record l { is_handle_pending = true }) l.pending)
          (handle_all d (record (port l m.channel_map) { is_handle_pending = true }) l.pending)
          (λ l'. ok (record l' { pending = []; is_handle_pending = false }))
          (λ m'. ok (record m' { pending = []; is_handle_pending = false }))
          (all-Follows l.pending (record l { is_handle_pending = true })
            (record (port l m.channel_map) { is_handle_pending = true })
            (record { same = refl; table = a.table; low = a.low; entries = a.entries }))
          (λ l' m' a'. record {
            same =
                ap {A = PortLoop D} (λ x. record x { pending = []; is_handle_pending = false })
                  a'.same;
            table = a'.table;
            low = a'.low;
            entries = a'.entries;
          }))

  event-Follows :
      (self : ℕ) (sent : Bool) (l : EventLoop D) (m : PortLoop D) (p kind : ℕ)
      → Alike l m
      → Follows Alike
          (event_loop_do_channel_event d room self sent l p kind)
          (do_channel_event d self sent m p kind)
  unfolding event_loop_do_channel_event do_channel_event event_loop_channel_buffer_nolock
      channel_buffer_nolock is_in_same_thread event_loop_wakeup wakeup
      event_loop_handle_pending_channel handle_pending_channel
  event-Follows self sent l m p kind a =
      subst
        (λ x.
          Follows Alike (event_loop_do_channel_event d room self sent l p kind)
            (do_channel_event d self sent x p kind))
        (sym a.same)
        (elim (Bool-cases l.is_handle_pending) [
          | inl busy ↦ rw busy tt
          | inr idle ↦ elim (Bool-cases (l.owner_thread == self)) [
            | inl own ↦ rw (idle, own) (pending-Follows _ _ queued)
            | inr other ↦
                rw (idle, other)
                  (record { same = refl; table = a.table; low = a.low; entries = a.entries })
          ]
        ])
    where
      queued :
          Alike
            (event_loop_channel_buffer_nolock d room l p kind)
            (channel_buffer_nolock d (port l m.channel_map) p kind)
      queued = record { same = refl; table = a.table; low = a.low; entries = a.entries }

  -- While the table can grow as far as the descriptors at hand: where a change asked of a loop of the
  -- library comes to a value, the same change asked of a loop of the port that holds the same, for any
  -- dispatcher and from any thread, comes to a value too, and the two loops hold the same again.
  pub do_channel_event-same :
      (self : ℕ) (sent : Bool) (l : EventLoop D) (m : PortLoop D) (p kind : ℕ) {l' : EventLoop D}
      → Alike l m
      → event_loop_do_channel_event d room self sent l p kind ≡ ok l'
      → (m' : PortLoop D) × (do_channel_event d self sent m p kind ≡ ok m') × Alike l' m'
  do_channel_event-same self sent l m p kind a e = met (do_channel_event d self sent m p kind) (
      subst (λ o. Follows Alike o (do_channel_event d self sent m p kind)) e
        (event-Follows self sent l m p kind a))
    where
      met :
          {l' : EventLoop D} (o : Outcome (PortLoop D))
          → Follows Alike (ok l') o
          → (m' : PortLoop D) × (o ≡ ok m') × Alike l' m'
      met (ok m') f = (m', refl, f)
      met (fault reason) f = absurd f
