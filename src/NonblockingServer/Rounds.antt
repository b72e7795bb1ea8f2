-- ===== src/NonblockingServer/Rounds.antt =====
-- A round of the loop serves each client that is ready, and stays inside the array.
use yolanda.NonblockingServer.Serving.{all_served, services, serve_descriptors_lem, all_served-Tidy}
use yolanda.Memory.{Bytes}
use mathlib.Core.Option.{some-injective}
use yolanda.NonblockingServer.Watching.{Tidy, watch-Sound, watch-adds, watch-index}
use yolanda.Prelude.Int.{pos}
use yolanda.Outcome.{ok, >>=-eq-ok, Outcome, fault}
use yolanda.NonblockingServer.MainLoop.{
  Calls, FdSet, fd_isset, is_ready, watch, accept_part, server_round, alloc_buffers,
}
use yolanda.NonblockingServer.{Buffers, SocketBuffer, fd_init_size, accept_client, alloc_buffer}
use yolanda.Prelude.{
  ◌<◌, ◌≡◌, ◌∷◌, if◌then◌else◌, refl, inl, inr, none, some, true, false, ℕ, List, arith, zero, suc,
  Bool-cases, length, get_elem?, [], set, ◌∙◌, sym, subst, ◌≢◌, ap, le-cases, length-set,
  get_elem?-of_lt, ◌==◌, ==_iff, get_elem?-set_self, get_elem?-set_ne, Option, Option-cases,
}

-- What the manuals say of `select` and `accept`, if they succeed: `select` leaves descriptors that it
-- was given, and `accept`, which is called if the listening socket is among them, returns one that was
-- not open. That it is below 128 is what the array needs.
pub record Documented (listen_fd : ℕ) (calls : Calls) (bs : Buffers) (sets : FdSet × FdSet) (fd : ℕ)
    : Type 0 where
  pub selects : calls.selected ≡ some sets
  pub reads :
      (i : ℕ) → fd_isset i (sets.0) ≡ true → fd_isset i ((watch listen_fd bs).readset) ≡ true
  pub writes :
      (i : ℕ) → fd_isset i (sets.1) ≡ true → fd_isset i ((watch listen_fd bs).writeset) ≡ true
  pub accepts : fd_isset listen_fd (sets.0) ≡ true → calls.accepted ≡ pos fd
  pub small : fd_isset listen_fd (sets.0) ≡ true → fd < fd_init_size
  pub unused :
      fd_isset listen_fd (sets.0) ≡ true → fd_isset fd ((watch listen_fd bs).readset) ≡ false

-- The array with a new client, if the listening socket is ready.
unfoldable pub admitted : ℕ → FdSet → ℕ → Buffers → Buffers
admitted listen_fd reads fd bs = elim (get_elem? bs fd) [
  | none ↦ bs
  | some b ↦ if fd_isset listen_fd reads then set bs fd (record b { connect_fd = fd }) else bs
]

is_ready-watched :
    (listen_fd : ℕ) (calls : Calls) (bs : Buffers) (sets : FdSet × FdSet) (fd i : ℕ)
    → Documented listen_fd calls bs sets fd
    → is_ready listen_fd sets i ≡ true
    → (fd_isset i ((watch listen_fd bs).readset) ≡ true) × (listen_fd ≢ i)
unfolding is_ready
is_ready-watched listen_fd calls bs (reads, writes) fd i d h =
    let other : listen_fd ≢ i = λ e. absurd (ground (arith, h, e)) in
    elim (Bool-cases (fd_isset i reads)) [
      | inl e ↦ (d.reads i e, other)
      | inr e ↦
          let written : fd_isset i writes ≡ true = ground (arith, h, e) in
          ((watch-Sound listen_fd bs).reads_too i (d.writes i written), other)
    ]

pub Tidy-set :
    (bs : Buffers) (fd : ℕ) (c : SocketBuffer)
    → Tidy bs
    → fd < fd_init_size
    → c.connect_fd ≡ fd
    → Tidy (set bs fd c)
Tidy-set bs fd c t h own = record {
  room = length-set bs fd c ∙ t.room;
  own = λ i b at. elim (Bool-cases (fd == i)) [
    | inl e ↦
        let same_fd = (==_iff fd i).0 e in
        let here = get_elem?-set_self bs fd c (omega (arith, h, t.room)) in
        let same = some-injective c b (sym here ∙ ap (get_elem? (set bs fd c)) same_fd ∙ at) in
        inr (sym (ap (λ s. s.connect_fd) same) ∙ own ∙ same_fd)
    | inr e ↦
        let other : fd ≢ i = λ q. absurd (ground (arith, e, q)) in
        t.own i b (sym (get_elem?-set_ne bs fd i c other) ∙ at)
  ];
}

free_entry :
    (listen_fd : ℕ) (bs : Buffers) (fd : ℕ) (b : SocketBuffer)
    → Tidy bs
    → fd_isset fd ((watch listen_fd bs).readset) ≡ false
    → get_elem? bs fd ≡ some b
    → b.connect_fd ≡ 0
free_entry listen_fd bs fd b t unused at = elim (t.own fd b at) [
  | inl free ↦ free
  | inr own ↦ elim (le-cases b.connect_fd 0) [
    | inl free ↦ omega (arith, free)
    | inr taken ↦
        let watched : fd_isset fd ((watch listen_fd bs).readset) ≡ true =
          subst (λ i. fd_isset i ((watch listen_fd bs).readset) ≡ true) own
            (watch-adds listen_fd bs fd b at taken) in
        absurd (ground (arith, watched, unused))
  ]
]

admitted-quiet :
    (listen_fd : ℕ) (reads : FdSet) (fd : ℕ) (bs : Buffers)
    → fd_isset listen_fd reads ≡ false
    → admitted listen_fd reads fd bs ≡ bs
unfolding admitted
admitted-quiet listen_fd reads fd bs e = elim (Option-cases (get_elem? bs fd)) [
  | inl missing ↦ ground (arith, missing)
  | inr (b, found) ↦ ground (arith, found, e)
]

-- The listening socket: what `accept` returns has a free entry.
accept_part_lem :
    (listen_fd : ℕ) (calls : Calls) (bs : Buffers) (sets : FdSet × FdSet) (fd : ℕ)
    → Tidy bs
    → Documented listen_fd calls bs sets fd
    → (accept_part listen_fd calls (sets.0) bs ≡ ok (admitted listen_fd (sets.0) fd bs))
      × Tidy (admitted listen_fd (sets.0) fd bs)
unfolding accept_part accept_client admitted
accept_part_lem listen_fd calls bs sets fd t d = elim (Bool-cases (fd_isset listen_fd (sets.0))) [
  | inl e ↦
      let small = d.small e in
      let (b, at) = get_elem?-of_lt bs fd (omega (arith, small, t.room)) in
      let free = free_entry listen_fd bs fd b t (d.unused e) at in
      let entered : admitted listen_fd (sets.0) fd bs ≡ set bs fd (record b { connect_fd = fd }) =
        ground (arith, e, at) in
      let accepts = d.accepts e in
      (
        ground (arith, e, at, free, accepts, small),
        subst Tidy (sym entered) (Tidy-set bs fd (record b { connect_fd = fd }) t small refl),
      )
  | inr e ↦
      let same = admitted-quiet listen_fd (sets.0) fd bs e in
      (ground (arith, e, same), subst Tidy (sym same) t)
]

-- If `select` and `accept` succeed and do what their manuals say, and the descriptor of a new client
-- is below 128, a round does not leave the array: it enters the client if there is a new one, and then
-- serves each client whose descriptor `select` left in a set, once and in the order of the
-- descriptors, and no other; the array stays tidy.
pub server_round_lem :
    (listen_fd : ℕ) (calls : Calls) (bs : Buffers) (sets : FdSet × FdSet) (fd : ℕ)
    → Tidy bs
    → Documented listen_fd calls bs sets fd
    → let bs₁ = admitted listen_fd (sets.0) fd bs in
      let bs₂ = all_served listen_fd calls sets 0 bs₁ in
      (server_round listen_fd calls bs ≡ ok (services listen_fd calls sets 0 bs₁, bs₂)) × Tidy bs₂
unfolding server_round
server_round_lem listen_fd calls bs sets fd t d =
    let bs₁ = admitted listen_fd (sets.0) fd bs in
    let (enters, tidy) = accept_part_lem listen_fd calls bs sets fd t d in
    let watched = λ (k : ℕ). is_ready-watched listen_fd calls bs sets fd k d in
    let loop =
      serve_descriptors_lem listen_fd calls sets (suc ((watch listen_fd bs).maxfd)) 0 [] bs₁ refl
        (λ k h. elim (Bool-cases (is_ready listen_fd sets k)) [
          | inr e ↦ e
          | inl e ↦
              let bound = (watch-Sound listen_fd bs).bounded k ((watched k e).0) in
              absurd (omega (arith, h, bound))
        ])
        (λ k h. elim (Bool-cases (is_ready listen_fd sets k)) [
          | inr e ↦ e
          | inl e ↦
              let (read, other) = watched k e in
              let within = watch-index listen_fd bs k t read other in
              absurd (omega (arith, h, within, t.room, tidy.room))
        ]) in
    let selects = d.selects in
    (ground (arith, selects, enters, loop), all_served-Tidy listen_fd calls sets bs₁ tidy)

alloc_buffers-free :
    (junks : List (Option Bytes)) (bs : Buffers)
    → alloc_buffers junks ≡ ok bs
    → (length bs ≡ length junks)
      × ((i : ℕ) (b : SocketBuffer) → get_elem? bs i ≡ some b → b.connect_fd ≡ 0)
unfolding alloc_buffers alloc_buffer
alloc_buffers-free [] [] e = (refl, λ i b at. absurd cc)
alloc_buffers-free [] (b ∷ bs) e = cc
alloc_buffers-free (none ∷ junks) bs e = cc
alloc_buffers-free (some junk ∷ junks) bs e =
    let (rest, first, last) = >>=-eq-ok (alloc_buffers junks) _ e in
    let (same, free) = alloc_buffers-free junks rest first in
    allocated junk junks rest bs same free last
  where
    allocated :
        (junk : Bytes) (junks : List (Option Bytes)) (rest bs : Buffers)
        → length rest ≡ length junks
        → ((i : ℕ) (b : SocketBuffer) → get_elem? rest i ≡ some b → b.connect_fd ≡ 0)
        → ok (
            record {
              connect_fd = 0;
              buffer = junk;
              write_index = 0;
              read_index = 0;
              readable = false;
            }
            ∷ rest)
          ≡ ok bs
        → (length bs ≡ suc (length junks))
          × ((i : ℕ) (b : SocketBuffer) → get_elem? bs i ≡ some b → b.connect_fd ≡ 0)
    allocated junk junks rest [] same free e = cc
    allocated junk junks rest (c ∷ cs) same free e =
        let tail = same_rest e in (ap (λ xs. suc (length xs)) (sym tail) ∙ ap suc same, entry)
      where
        first_fd : Outcome Buffers → ℕ
        first_fd (ok (b ∷ bs)) = b.connect_fd
        first_fd (ok []) = 0
        first_fd (fault f) = 0

        same_rest : {b : SocketBuffer} → ok (b ∷ rest) ≡ ok (c ∷ cs) → rest ≡ cs
        same_rest q = cc

        entry : (i : ℕ) (b : SocketBuffer) → get_elem? (c ∷ cs) i ≡ some b → b.connect_fd ≡ 0
        entry zero b at = ap (λ d. d.connect_fd) (sym (some-injective c b at)) ∙ sym (ap first_fd e)
        entry (suc i) b at = free i b (ap (λ xs. get_elem? xs i) {x = rest} (same_rest e) ∙ at)

-- The array before the loop, if no `malloc` fails: 128 free entries.
pub alloc_buffers-Tidy :
    (junks : List (Option Bytes)) (bs : Buffers)
    → length junks ≡ fd_init_size
    → alloc_buffers junks ≡ ok bs
    → Tidy bs
alloc_buffers-Tidy junks bs h e =
    let (same, free) = alloc_buffers-free junks bs e in
    record { room = same ∙ h; own = λ i b at. inl (free i b at) }
