-- ===== src/EventLoop/Pending.antt =====
-- The pending list: changes are carried out once each and in the order in which they were queued,
-- whatever threads queue them and whenever the owner drains the list.
use yolanda.ChannelMap.{ChannelMap}
use yolanda.Prelude.Int.{ℤ, negsuc, pos}
use yolanda.Outcome.{Outcome, ◌>>=◌, ok, fault, >>=-eq-ok}
use yolanda.EventLoop.{
  EventLoop, Element, handle_add_at, handle_element, handle_elements, handle_remove_at,
  handle_update_at, event_loop_handle_pending_add, event_loop_handle_pending_remove,
  event_loop_handle_pending_update, kind_add, kind_remove, kind_update, event_loop_do_channel_event,
  event_loop_handle_pending_channel,
}
use yolanda.Dispatcher.{Dispatcher}
use yolanda.Prelude.{
  ◌≡◌, ◌∙◌, ◌∷◌, ◌==◌, refl, ap, inl, inr, ℕ, List, Bool, arith, Bool-cases, [], ◌+◌, ◌≢◌, ◌++◌,
  if◌then◌else◌, false, true, sym, subst, append-nil, append_assoc,
}

-- The loop with another state of its queue.
requeue : {D : Type 0} → EventLoop D → Bool → List Element → ℕ → EventLoop D
requeue l h es w = record l { is_handle_pending = h; pending = es; wakeups = w }

module _ {D : Type 0} (d : Dispatcher D) (room : ℕ → Bool) where
  abbrev after_requeue : Outcome (EventLoop D) → Bool → List Element → ℕ → Outcome (EventLoop D)
  after_requeue m h es w = m >>= λ l. ok (requeue l h es w)

  -- A change does not look at the queue, and leaves it alone.
  add-requeue :
      (l : EventLoop D) (z : ℤ) (p : ℕ) (h : Bool) (es : List Element) (w : ℕ)
      → (handle_add_at d room (requeue l h es w) z p >>= λ r. ok r.1)
        ≡ after_requeue (handle_add_at d room l z p >>= λ r. ok r.1) h es w
  unfolding requeue handle_add_at
  add-requeue l (negsuc n) p h es w = refl
  add-requeue l (pos fd) p h es w = ground arith

  remove-requeue :
      (l : EventLoop D) (z : ℤ) (h : Bool) (es : List Element) (w : ℕ)
      → (handle_remove_at d room (requeue l h es w) z >>= λ r. ok r.1)
        ≡ after_requeue (handle_remove_at d room l z >>= λ r. ok r.1) h es w
  unfolding requeue handle_remove_at
  remove-requeue l (negsuc n) h es w = refl
  remove-requeue l (pos fd) h es w = ground arith

  update-requeue :
      (l : EventLoop D) (z : ℤ) (p : ℕ) (h : Bool) (es : List Element) (w : ℕ)
      → handle_update_at d room (requeue l h es w) z p
        ≡ after_requeue (handle_update_at d room l z p) h es w
  unfolding requeue handle_update_at
  update-requeue l (negsuc n) p h es w = refl
  update-requeue l (pos fd) p h es w = ground arith

  handle_element-requeue :
      (l : EventLoop D) (e : Element) (h : Bool) (es : List Element) (w : ℕ)
      → handle_element d room (requeue l h es w) e
        ≡ after_requeue (handle_element d room l e) h es w
  unfolding handle_element requeue event_loop_handle_pending_add event_loop_handle_pending_remove
      event_loop_handle_pending_update
  handle_element-requeue l e h es w = elim (Bool-cases (e.kind == kind_add)) [
    | inl a ↦ rw a (add-requeue l (l.channels e.channel).fd e.channel h es w)
    | inr a ↦ elim (Bool-cases (e.kind == kind_remove)) [
      | inl b ↦ rw (a, b) (remove-requeue l (l.channels e.channel).fd h es w)
      | inr b ↦ elim (Bool-cases (e.kind == kind_update)) [
        | inl c ↦ rw (a, b, c) (update-requeue l (l.channels e.channel).fd e.channel h es w)
        | inr c ↦ rw (a, b, c) refl
      ]
    ]
  ]

  handle_elements-requeue :
      (l : EventLoop D) (todo : List Element) (h : Bool) (es : List Element) (w : ℕ)
      → handle_elements d room (requeue l h es w) todo
        ≡ after_requeue (handle_elements d room l todo) h es w
  unfolding handle_elements
  handle_elements-requeue l [] h es w = refl
  handle_elements-requeue l (e ∷ todo) h es w =
      ap (λ m. m >>= λ l'. handle_elements d room l' todo) (handle_element-requeue l e h es w)
      ∙ next (λ l'. handle_elements-requeue l' todo h es w) (handle_element d room l e)
    where
      next :
          ((l' : EventLoop D)
            → handle_elements d room (requeue l' h es w) todo
              ≡ after_requeue (handle_elements d room l' todo) h es w)
          → (m : Outcome (EventLoop D))
          → (after_requeue m h es w >>= λ l'. handle_elements d room l' todo)
            ≡ after_requeue (m >>= λ l'. handle_elements d room l' todo) h es w
      next ih (ok l') = ih l'
      next ih (fault f) = refl

  pub handle_elements-append :
      (l : EventLoop D) (xs ys : List Element)
      → handle_elements d room l (xs ++ ys)
        ≡ (handle_elements d room l xs >>= λ l'. handle_elements d room l' ys)
  unfolding handle_elements
  handle_elements-append l [] ys = refl
  handle_elements-append l (e ∷ xs) ys =
      next (λ l'. handle_elements-append l' xs ys) (handle_element d room l e)
    where
      next :
          ((l' : EventLoop D)
            → handle_elements d room l' (xs ++ ys)
              ≡ (handle_elements d room l' xs >>= λ l''. handle_elements d room l'' ys))
          → (m : Outcome (EventLoop D))
          → (m >>= λ l'. handle_elements d room l' (xs ++ ys))
            ≡ (m >>= (λ l'. handle_elements d room l' xs) >>= λ l''. handle_elements d room l'' ys)
      next ih (ok l') = ih l'
      next ih (fault f) = refl

-- What threads do to a loop's queue: some other thread queues a change, and the socket pair takes
-- its wakeup or not; or the owner drains the list.
pub data Act : Type 0 where
  queues : ℕ → Element → Bool → Act
  drains : Act

abbrev pub queued : List Act → List Element
queued [] = []
queued (queues self e sent ∷ acts) = e ∷ queued acts
queued (drains ∷ acts) = queued acts

-- The threads that queue are not the loop's own.
abbrev pub AreForeign : ℕ → List Act → Type 0
AreForeign owner [] = Unit {0}
AreForeign owner (queues self e sent ∷ acts) = (owner ≢ self) × AreForeign owner acts
AreForeign owner (drains ∷ acts) = AreForeign owner acts

module _ {D : Type 0} (d : Dispatcher D) (room : ℕ → Bool) where
  pub act : EventLoop D → Act → Outcome (EventLoop D)
  act l (queues self e sent) = event_loop_do_channel_event d room self sent l e.channel e.kind
  act l drains = event_loop_handle_pending_channel d room l

  pub run_acts : EventLoop D → List Act → Outcome (EventLoop D)
  unfolding act
  run_acts l [] = event_loop_handle_pending_channel d room l
  run_acts l (a ∷ acts) = do l' ← act l a; run_acts l' acts

  -- The table and the watched descriptors.
  abbrev pub settled : Outcome (EventLoop D) → Outcome (ChannelMap ℕ × D)
  settled m = m >>= λ l. ok (l.map, l.dispatcher)

  settled-requeue :
      (m : Outcome (EventLoop D)) (h : Bool) (es : List Element) (w : ℕ)
      → settled (m >>= λ l. ok (requeue l h es w)) ≡ settled m
  unfolding requeue
  settled-requeue (ok l) h es w = refl
  settled-requeue (fault f) h es w = refl

  act-queues :
      (l : EventLoop D) (self : ℕ) (e : Element) (sent : Bool)
      → l.is_handle_pending ≡ false
      → l.owner_thread ≢ self
      → (w : ℕ) × (act l (queues self e sent) ≡ ok (requeue l false (l.pending ++ e ∷ []) w))
  unfolding act requeue event_loop_do_channel_event
  act-queues l self e sent h ne = (if sent then l.wakeups + 1 else l.wakeups, ground arith)

  abbrev finish : EventLoop D → Outcome (EventLoop D)
  finish l = ok (record l { pending = []; is_handle_pending = false })

  drains_lem :
      (l : EventLoop D)
      → act l drains
        ≡ (handle_elements d room l l.pending >>= λ l'. ok (requeue l' false [] l.wakeups))
  unfolding act requeue event_loop_handle_pending_channel
  drains_lem l =
      ap (λ m. m >>= finish) (handle_elements-requeue d room l l.pending true l.pending l.wakeups)
      ∙ done (handle_elements d room l l.pending)
    where
      done :
          (m : Outcome (EventLoop D))
          → (after_requeue d room m true l.pending l.wakeups >>= finish)
            ≡ (m >>= λ l'. ok (requeue l' false [] l.wakeups))
      done (ok l') = refl
      done (fault f) = refl

  handle_element-owner :
      (l l' : EventLoop D) (e : Element)
      → handle_element d room l e ≡ ok l'
      → l'.owner_thread ≡ l.owner_thread
  unfolding handle_element event_loop_handle_pending_add event_loop_handle_pending_remove
      event_loop_handle_pending_update
  handle_element-owner l l' e h = ground arith

  handle_elements-owner :
      (l l' : EventLoop D) (es : List Element)
      → handle_elements d room l es ≡ ok l'
      → l'.owner_thread ≡ l.owner_thread
  unfolding handle_elements
  handle_elements-owner l l' [] h = ground arith
  handle_elements-owner l l' (e ∷ es) h =
      let (l₁, first, rest) = >>=-eq-ok (handle_element d room l e) _ h in
      handle_elements-owner l₁ l' es rest ∙ handle_element-owner l l₁ e first

  -- From a loop that is not handling its pending list, whatever the order in which other threads
  -- queue changes and the owner drains them, a last drain leaves the table and the watched
  -- descriptors, or the fault, of carrying out what was pending and then every queued change, once
  -- each, in the order of queueing.
  pub run_acts-settled :
      (l : EventLoop D) (acts : List Act)
      → l.is_handle_pending ≡ false
      → AreForeign l.owner_thread acts
      → settled (run_acts l acts) ≡ settled (handle_elements d room l (l.pending ++ queued acts))
  unfolding run_acts act requeue
  run_acts-settled l [] h f =
      ap settled (drains_lem l)
      ∙ settled-requeue (handle_elements d room l l.pending) false [] l.wakeups
      ∙ ap (λ es. settled (handle_elements d room l es)) (sym (append-nil l.pending))
  run_acts-settled l (queues self e sent ∷ acts) h f =
      let (w, q) = act-queues l self e sent h f.0 in
      ap (λ m. settled (m >>= λ l'. run_acts l' acts)) q
      ∙ run_acts-settled (requeue l false (l.pending ++ e ∷ []) w) acts refl f.1
      ∙ ap settled
          (handle_elements-requeue d room l ((l.pending ++ e ∷ []) ++ queued acts) false _ w)
      ∙ settled-requeue (handle_elements d room l ((l.pending ++ e ∷ []) ++ queued acts)) false _ w
      ∙ ap (λ es. settled (handle_elements d room l es))
          (append_assoc l.pending (e ∷ []) (queued acts))
  run_acts-settled l (drains ∷ acts) h f =
      ap (λ m. settled (m >>= λ l'. run_acts l' acts)) (drains_lem l)
      ∙ rest (λ l' g. run_acts-settled (requeue l' false [] l.wakeups) acts refl g)
          (handle_elements d room l l.pending) refl
      ∙ ap settled (sym (handle_elements-append d room l l.pending (queued acts)))
    where
      rest :
          ((l' : EventLoop D)
            → AreForeign l'.owner_thread acts
            → settled (run_acts (requeue l' false [] l.wakeups) acts)
              ≡ settled (handle_elements d room (requeue l' false [] l.wakeups) (queued acts)))
          → (m : Outcome (EventLoop D)) → handle_elements d room l l.pending ≡ m
          → settled (m >>= (λ l'. ok (requeue l' false [] l.wakeups)) >>= λ l'. run_acts l' acts)
            ≡ settled (m >>= λ l'. handle_elements d room l' (queued acts))
      rest ih (ok l') e =
          ih l' (subst (λ o. AreForeign o acts) (sym (handle_elements-owner l l' l.pending e)) f)
          ∙ ap settled (handle_elements-requeue d room l' (queued acts) false [] l.wakeups)
          ∙ settled-requeue (handle_elements d room l' (queued acts)) false [] l.wakeups
      rest ih (fault x) e = refl
