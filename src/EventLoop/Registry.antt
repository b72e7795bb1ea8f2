-- ===== src/EventLoop/Registry.antt =====
-- The table of channels and the dispatcher agree: a descriptor has an entry exactly if it is
-- watched, and every entry is a channel of its own descriptor.
pub mod Reach
pub mod Changes
use yolanda.ChannelMap.Growth.{IsTable}
use yolanda.Prelude.Int.{pos, ℤ, is_neg}
use yolanda.Outcome.{ok}
use yolanda.EventLoop.{entry, set_entry, EventLoop}
use yolanda.Dispatcher.{Dispatcher, DispatcherLaws, Interest, rewatch}
use yolanda.ChannelMap.{ChannelMap}
use yolanda.Channel.{Channel}
use yolanda.Prelude.{
  ◌<◌, ◌≡◌, ◌≢◌, ◌∙◌, ◌==◌, if◌then◌else◌, refl, sym, subst, inl, inr, none, some, false, ℕ, Option,
  arith, Bool-cases, length, get_elem?, get_elem?-set_self, get_elem?-of_lt, get_elem?-set_ne,
  length-set,
}

-- The channel at a descriptor, `none` also beyond the table.
abbrev pub channel_at : ChannelMap ℕ → ℕ → Option ℕ
channel_at map fd = elim (get_elem? map.entries fd) [ none ↦ none | some e ↦ e ]

-- What the table has for a descriptor, and what the dispatcher watches it for.
abbrev pub Agree : (ℕ → Channel) → ℕ → Option ℕ → Option Interest → Type 0
Agree channels fd none none = Unit
Agree channels fd (some p) (some i) = (channels p).fd ≡ pos fd
Agree channels fd none (some i) = ⊥
Agree channels fd (some p) none = ⊥

pub channel_at-set_entry :
    (map : ChannelMap ℕ) (fd : ℕ) (e : Option ℕ) (q : ℕ)
    → fd < length map.entries
    → channel_at (set_entry map fd e) q ≡ (if q == fd then e else channel_at map q)
channel_at-set_entry map fd e q h = elim (Bool-cases (q == fd)) [
  | inl same ↦
      let at : q ≡ fd = ground arith in
      rw same (rw at (ground (arith, get_elem?-set_self map.entries fd e h)))
  | inr other ↦
      let ne : fd ≢ q = ground arith in
      rw other (ground (arith, get_elem?-set_ne map.entries fd q e ne))
]

pub entry-of_channel_at :
    (map : ChannelMap ℕ) (fd : ℕ) (e : Option ℕ)
    → fd < length map.entries
    → channel_at map fd ≡ e
    → entry map fd ≡ ok e
entry-of_channel_at map fd e h k = let (x, g) = get_elem?-of_lt map.entries fd h in ground arith

module _ {D : Type 0} (d : Dispatcher D) (laws : DispatcherLaws d) where
  open laws use {Valid, HasRoom, watched}

  pub record IsConsistent (l : EventLoop D) : Type 0 where
    pub table : IsTable l.map
    pub dispatcher : Valid l.dispatcher
    pub agree : (fd : ℕ) → Agree l.channels fd (channel_at l.map fd) (watched l.dispatcher (pos fd))

  -- A change at one descriptor: its new entry, and what it is watched for. Nothing of the loop but its
  -- table and its dispatcher is another.
  pub record Changed (l : EventLoop D) (fd : ℕ) (e : Option ℕ) (i : Option Interest)
      (l' : EventLoop D) : Type 0 where
    pub consistent : IsConsistent l'
    pub entries : (q : ℕ) → channel_at l'.map q ≡ (if q == fd then e else channel_at l.map q)
    pub interests :
        (q : ℕ)
        → watched l'.dispatcher (pos q) ≡ (if q == fd then i else watched l.dispatcher (pos q))
    pub others : l' ≡ record l { map = l'.map; dispatcher = l'.dispatcher }

  pub Changed-map :
      (l : EventLoop D) (fd : ℕ) (e : Option ℕ) (i : Option Interest) (map : ChannelMap ℕ) (s' : D)
      → IsConsistent l
      → IsTable map
      → ((q : ℕ) → channel_at map q ≡ (if q == fd then e else channel_at l.map q))
      → Agree l.channels fd e i
      → Valid s'
      → ((q : ℤ) → is_neg q ≡ false → watched s' q ≡ rewatch (watched l.dispatcher) (pos fd) i q)
      → Changed l fd e i (record l { map = map; dispatcher = s' })
  Changed-map l fd e i map s' v t at a valid w = record {
    consistent = record {
      table = t;
      dispatcher = valid;
      agree = λ q.
          subst (λ x. Agree l.channels q x (watched s' (pos q))) (sym (at q))
            (subst (Agree l.channels q (if q == fd then e else channel_at l.map q))
              (sym (w (pos q) refl)) (both q));
    };
    entries = at;
    interests = λ q. w (pos q) refl;
    others = refl;
  }
    where
      both :
          (q : ℕ)
          → Agree l.channels q
              (if q == fd then e else channel_at l.map q)
              (if q == fd then i else watched l.dispatcher (pos q))
      both q = elim (Bool-cases (q == fd)) [
        | inl same ↦
            let k : fd ≡ q = ground arith in rw same (subst (λ x. Agree l.channels x e i) k a)
        | inr other ↦ rw other (v.agree q)
      ]

  pub changed :
      (l : EventLoop D) (fd : ℕ) (e : Option ℕ) (i : Option Interest) (s' : D)
      → IsConsistent l
      → fd < l.map.nentries
      → Agree l.channels fd e i
      → Valid s'
      → ((q : ℤ) → is_neg q ≡ false → watched s' q ≡ rewatch (watched l.dispatcher) (pos fd) i q)
      → Changed l fd e i (record l { map = set_entry l.map fd e; dispatcher = s' })
  changed l fd e i s' v h =
      Changed-map l fd e i (set_entry l.map fd e) s' v
        (record { counted = length-set l.map.entries fd e ∙ v.table.counted })
        (λ q. channel_at-set_entry l.map fd e q (omega (arith, v.table.counted)))
