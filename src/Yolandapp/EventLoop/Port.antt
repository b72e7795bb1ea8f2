-- ===== src/Yolandapp/EventLoop/Port.antt =====
-- The loop of lib/event_loop.c and that of yolandapp/event_loop.cpp do the same.
use yolanda.ChannelMap.{ChannelMap}
use yolanda.Prelude.Int.{ℤ, pos, negsuc, eqb_ℤ, minus_one}
use yolanda.Outcome.{Outcome, fault, ◌>>=◌, ok, null_pointer}
use yolanda.Dispatcher.{Dispatcher}
use yolanda.ChannelMap.Growth.{IsTable}
use yolanda.Prelude.{
  ◌<◌, ◌≡◌, refl, true, ℕ, Bool, ◌∙◌, sym, subst, inl, inr, Option, Option-cases, length-set, ◌==◌,
  if◌then◌else◌, ap, none, some, arith, ◌≤◌, le-cases, get_elem?-of_ge,
}
use yolanda.EventLoop.{
  EventLoop, handle_add_at, set_entry, entry, reach, add_first, handle_remove_at,
}
use yolanda.EventLoop.Registry.{channel_at, entry-of_channel_at, channel_at-set_entry}
use yolanda.EventLoop.Registry.Reach.{Reached, reach_lem}
use yolanda.Yolandapp.EventLoop.{
  PortLoop, handle_pending_add, KeyedMap, set_key, handle_pending_remove,
}

-- The second outcome follows the first: a value is met by a related value, and a fault by anything.
abbrev pub Follows : {A B : Type 0} → (A → B → Type 0) → Outcome A → Outcome B → Type 0
Follows R (fault reason) o = Unit
Follows R (ok a) (fault reason) = ⊥
Follows R (ok a) (ok b) = R a b

pub Follows-bind :
    {A B A' B' : Type 0} (R : A → B → Type 0) (S : A' → B' → Type 0) (x : Outcome A) (y : Outcome B)
    (f : A → Outcome A') (g : B → Outcome B')
    → Follows R x y
    → ((a : A) (b : B) → R a b → Follows S (f a) (g b))
    → Follows S (x >>= f) (y >>= g)
Follows-bind R S (fault reason) y f g h k = tt
Follows-bind R S (ok a) (fault reason) f g h k = absurd h
Follows-bind R S (ok a) (ok b) f g h k = k a b h

-- A descriptor for which the table can grow.
abbrev pub IsLow : ℤ → Type 0
IsLow (pos fd) = fd < 134217728
IsLow (negsuc n) = Unit

-- A loop of the port that holds what a loop of the library does, but for the channels of descriptors.
abbrev pub port : {D : Type 0} → EventLoop D → KeyedMap → PortLoop D
port l map = record {
  quit = l.quit;
  dispatcher = l.dispatcher;
  channel_map = map;
  is_handle_pending = l.is_handle_pending;
  pending = l.pending;
  owner_thread = l.owner_thread;
  wakeups = l.wakeups;
  channels = l.channels;
}

-- The two loops hold the same: the map has for each descriptor what the table has.
pub record Alike {D : Type 0} (l : EventLoop D) (m : PortLoop D) : Type 0 where
  pub same : m ≡ port l m.channel_map
  pub table : IsTable l.map
  pub low : (p : ℕ) → IsLow (l.channels p).fd
  pub entries : (fd : ℕ) → m.channel_map (pos fd) ≡ channel_at l.map fd

pub Follows-same :
    {A B C : Type 0} (R : B → C → Type 0) (x : Outcome A) (f : A → Outcome B) (g : A → Outcome C)
    → ((a : A) → Follows R (f a) (g a))
    → Follows R (x >>= f) (x >>= g)
Follows-same R (fault reason) f g h = tt
Follows-same R (ok a) f g h = h a

pub Follows-by :
    {A B : Type 0} (R : A → B → Type 0) {x x' : Outcome A} {y y' : Outcome B}
    → x ≡ x'
    → y ≡ y'
    → Follows R x' y'
    → Follows R x y
Follows-by R {x' = x'} {y} p q f =
    subst (λ o. Follows R o y) (sym p) (subst (Follows R x') (sym q) f)

module _ {D : Type 0} (d : Dispatcher D) (room : ℕ → Bool)
    (free : (size : ℕ) → room size ≡ true) where
  pub record AlikeResult (x : ℤ × EventLoop D) (y : ℤ × PortLoop D) : Type 0 where
    pub result : x.0 ≡ y.0
    pub alike : Alike x.1 y.1

  -- What the theorems on the handlers say of an entry that is set in both.
  set-Alike :
      (l : EventLoop D) (map : ChannelMap ℕ) (keys : KeyedMap) (fd : ℕ) (e : Option ℕ) (s : D)
      → Alike l (port l keys)
      → Reached l fd map
      → Alike
          (record l { map = set_entry map fd e; dispatcher = s })
          (port (record l { map = set_entry map fd e; dispatcher = s }) (set_key keys (pos fd) e))
  set-Alike l map keys fd e s a r = record {
    same = refl;
    table = record { counted = length-set map.entries fd e ∙ r.table.counted };
    low = a.low;
    entries = λ q.
        ap (λ x. if q == fd then e else x) (a.entries q ∙ sym (r.same q))
        ∙ sym (channel_at-set_entry map fd e q (omega (arith, r.within, r.table.counted)));
  }

  grown-Alike :
      (l : EventLoop D) (map : ChannelMap ℕ) (keys : KeyedMap) (fd : ℕ)
      → Alike l (port l keys)
      → Reached l fd map
      → Alike (record l { map = map }) (port (record l { map = map }) keys)
  grown-Alike l map keys fd a r = record {
    same = refl;
    table = r.table;
    low = a.low;
    entries = λ q. a.entries q ∙ sym (r.same q);
  }

  pub add-Follows :
      (l : EventLoop D) (keys : KeyedMap) (z : ℤ) (p : ℕ)
      → Alike l (port l keys)
      → IsLow z
      → Follows AlikeResult (handle_add_at d room l z p) (handle_pending_add d (port l keys) z p)
  unfolding handle_add_at add_first handle_pending_add
  add-Follows l keys (negsuc n) p a low = record { result = refl; alike = a }
  add-Follows l keys (pos fd) p a low =
      let (map, made, r) = reach_lem room l fd a.table low free in
      elim (Option-cases (channel_at l.map fd)) [
        | inl empty ↦ Follows-by AlikeResult (left map made (at map r none empty)) (right empty) (
            Follows-same AlikeResult (d.add (l.channels p) l.dispatcher)
              (λ s. ok (pos 1, record l { map = set_entry map fd (some p); dispatcher = s }))
              (λ s. ok (
                pos 1,
                record (port l keys) {
                  channel_map = set_key keys (pos fd) (some p);
                  dispatcher = s;
                },
              ))
              (λ s. record { result = refl; alike = set-Alike l map keys fd (some p) s a r }))
        | inr (q, full) ↦
            Follows-by AlikeResult (again q map made (at map r (some q) full)) (known q full)
              (record { result = refl; alike = grown-Alike l map keys fd a r })
      ]
    where
      at :
          (map : ChannelMap ℕ)
          → Reached l fd map
          → (e : Option ℕ) → channel_at l.map fd ≡ e
          → entry map fd ≡ ok e
      at map r e w =
          entry-of_channel_at map fd e (omega (arith, r.within, r.table.counted)) (r.same fd ∙ w)

      again :
          (q : ℕ) (map : ChannelMap ℕ)
          → reach room l.map fd ≡ ok (some map)
          → entry map fd ≡ ok (some q)
          → handle_add_at d room l (pos fd) p ≡ ok (pos 0, record l { map = map })
      again q map made full = ground arith

      known :
          (q : ℕ)
          → channel_at l.map fd ≡ some q
          → handle_pending_add d (port l keys) (pos fd) p ≡ ok (pos 0, port l keys)
      known q full = ground (arith, a.entries fd)

      left :
          (map : ChannelMap ℕ)
          → reach room l.map fd ≡ ok (some map)
          → entry map fd ≡ ok none
          → handle_add_at d room l (pos fd) p ≡ (
              d.add (l.channels p) l.dispatcher >>= λ s.
              ok (pos 1, record l { map = set_entry map fd (some p); dispatcher = s }))
      left map made empty = ground arith

      right :
          channel_at l.map fd ≡ none
          → handle_pending_add d (port l keys) (pos fd) p ≡ (
              d.add (l.channels p) l.dispatcher >>= λ s. ok (
                pos 1,
                record (port l keys) {
                  channel_map = set_key keys (pos fd) (some p);
                  dispatcher = s;
                },
              ))
      right empty = ground (arith, a.entries fd)

  pub remove-Follows :
      (l : EventLoop D) (keys : KeyedMap) (z : ℤ) (p : ℕ)
      → Alike l (port l keys)
      → eqb_ℤ z (l.channels p).fd ≡ true
      → Follows AlikeResult
          (handle_remove_at d room l z)
          (handle_pending_remove d (port l keys) z p)
  unfolding handle_remove_at handle_pending_remove
  remove-Follows l keys (negsuc n) p a own = rw own (record { result = refl; alike = a })
  remove-Follows l keys (pos fd) p a own = elim (le-cases l.map.nentries fd) [
    | inl beyond ↦
        Follows-by AlikeResult (short beyond) (missing (channel_at-beyond beyond))
          (record { result = refl; alike = a })
    | inr within ↦ elim (Option-cases (channel_at l.map fd)) [
      | inl empty ↦ Follows-by AlikeResult (null within (at within none empty)) (missing empty) tt
      | inr (q, full) ↦
          Follows-by AlikeResult (left q within (at within (some q) full)) (right q full) (
            Follows-same AlikeResult (d.del (l.channels q) l.dispatcher)
              (λ z. ok (
                if eqb_ℤ z.0 minus_one then minus_one else pos 1,
                record l { map = set_entry l.map fd none; dispatcher = z.1 },
              ))
              (λ z. ok (
                if eqb_ℤ z.0 minus_one then minus_one else pos 1,
                record (port l keys) { channel_map = set_key keys (pos fd) none; dispatcher = z.1 },
              ))
              (λ z. record {
                result = refl;
                alike =
                    set-Alike l l.map keys fd none z.1 a
                      (record { table = a.table; within = within; same = λ r. refl });
              }))
    ]
  ]
    where
      channel_at-beyond : l.map.nentries ≤ fd → channel_at l.map fd ≡ none
      channel_at-beyond h =
          ground (arith, get_elem?-of_ge l.map.entries fd (omega (arith, a.table.counted)))

      at : fd < l.map.nentries → (e : Option ℕ) → channel_at l.map fd ≡ e → entry l.map fd ≡ ok e
      at h e w = entry-of_channel_at l.map fd e (omega (arith, a.table.counted)) w

      short : l.map.nentries ≤ fd → handle_remove_at d room l (pos fd) ≡ ok (minus_one, l)
      short h = ground arith

      missing :
          channel_at l.map fd ≡ none
          → handle_pending_remove d (port l keys) (pos fd) p ≡ ok (minus_one, port l keys)
      missing empty = ground (arith, own, a.entries fd)

      null :
          fd < l.map.nentries
          → entry l.map fd ≡ ok none
          → handle_remove_at d room l (pos fd) ≡ fault null_pointer
      null h e = ground arith

      left :
          (q : ℕ)
          → fd < l.map.nentries
          → entry l.map fd ≡ ok (some q)
          → handle_remove_at d room l (pos fd) ≡ (
              d.del (l.channels q) l.dispatcher >>= λ z. ok (
                if eqb_ℤ z.0 minus_one then minus_one else pos 1,
                record l { map = set_entry l.map fd none; dispatcher = z.1 },
              ))
      left q h e = ground arith

      right :
          (q : ℕ)
          → channel_at l.map fd ≡ some q
          → handle_pending_remove d (port l keys) (pos fd) p ≡ (
              d.del (l.channels q) l.dispatcher >>= λ z. ok (
                if eqb_ℤ z.0 minus_one then minus_one else pos 1,
                record (port l keys) { channel_map = set_key keys (pos fd) none; dispatcher = z.1 },
              ))
      right q full = ground (arith, own, a.entries fd)
