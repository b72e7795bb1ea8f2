-- ===== src/NonblockingServer/Watching.antt =====
-- The sets that `select` is given hold the clients of the array, and the listening socket.
use mathlib.Core.Option.{some-injective}
use yolanda.NonblockingServer.MainLoop.{FdSets, fd_isset, watch_client, watch_clients, FdSet, watch}
use yolanda.NonblockingServer.{Buffers, SocketBuffer, fd_init_size}
use yolanda.Prelude.{
  ◌≤◌, ◌<◌, ◌≡◌, ◌⊎◌, ◌∷◌, ◌==◌, if◌then◌else◌, refl, ap, subst, inl, inr, some, true, false, ℕ,
  Bool, arith, zero, suc, Bool-cases, le-cases, length, get_elem?, ltb, [], ==_iff, ◌≢◌,
  lt_of_get_elem?,
}

-- An entry has its own descriptor, or none.
abbrev pub Owned : ℕ → SocketBuffer → Type 0
Owned i b = (b.connect_fd ≡ 0) ⊎ (b.connect_fd ≡ i)

pub record Tidy (bs : Buffers) : Type 0 where
  pub room : length bs ≡ fd_init_size
  pub own :
      (i : ℕ) (b : SocketBuffer) → get_elem? bs i ≡ some b → (b.connect_fd ≡ 0) ⊎ (b.connect_fd ≡ i)

-- Every descriptor of the sets is looked at after `select`.
pub record Sound (s : FdSets) : Type 0 where
  pub bounded : (i : ℕ) → fd_isset i (s.readset) ≡ true → i ≤ s.maxfd
  pub reads_too : (i : ℕ) → fd_isset i (s.writeset) ≡ true → fd_isset i (s.readset) ≡ true

fd_isset-cons :
    (fd i : ℕ) (fds : FdSet) → fd_isset i (fd ∷ fds) ≡ true → (fd ≡ i) ⊎ (fd_isset i fds ≡ true)
unfolding fd_isset
fd_isset-cons fd i fds h = elim (Bool-cases (fd == i)) [
  | inl e ↦ inl ((==_iff fd i).0 e)
  | inr e ↦ inr (ground (arith, h, e))
]

fd_isset_self : (fd : ℕ) (fds : FdSet) → fd_isset fd (fd ∷ fds) ≡ true
unfolding fd_isset
fd_isset_self fd fds = ground arith

fd_isset_later : (fd i : ℕ) (fds : FdSet) → fd_isset i fds ≡ true → fd_isset i (fd ∷ fds) ≡ true
unfolding fd_isset
fd_isset_later fd i fds h = ground (arith, h)

watch_client-Sound : (b : SocketBuffer) (s : FdSets) → Sound s → Sound (watch_client b s)
unfolding watch_client
watch_client-Sound b s h = watched (ltb 0 b.connect_fd) b.readable
  where
    watched :
        (taken readable : Bool)
        → Sound (
            if taken
            then record s {
              readset = b.connect_fd ∷ s.readset;
              writeset = if readable then b.connect_fd ∷ s.writeset else s.writeset;
              maxfd = if ltb s.maxfd b.connect_fd then b.connect_fd else s.maxfd;
            }
            else s)
    watched false readable = h
    watched true readable = record {
      bounded = λ i e. elim (fd_isset-cons b.connect_fd i s.readset e) [
        | inl same ↦ ground (arith, same)
        | inr old ↦ (let k = h.bounded i old in ground (arith, k))
      ];
      reads_too =
          elim readable
            as (λ k.
              (i : ℕ)
              → fd_isset i (if k then b.connect_fd ∷ s.writeset else s.writeset) ≡ true
              → fd_isset i (b.connect_fd ∷ s.readset) ≡ true) [
                | false ↦ λ i e. fd_isset_later b.connect_fd i s.readset (h.reads_too i e)
                | true ↦ λ i e. elim (fd_isset-cons b.connect_fd i s.writeset e) [
                  | inl same ↦
                      subst (λ k. fd_isset k (b.connect_fd ∷ s.readset) ≡ true) same
                        (fd_isset_self b.connect_fd s.readset)
                  | inr old ↦ fd_isset_later b.connect_fd i s.readset (h.reads_too i old)
                ]
              ];
    }

-- A descriptor that an entry has.
abbrev pub IsClient : ℕ → Buffers → Type 0
IsClient i bs =
    (j : ℕ) × (b : SocketBuffer) × (get_elem? bs j ≡ some b) × (b.connect_fd ≡ i) × (0 < i)

watch_client-fd_isset :
    (b : SocketBuffer) (s : FdSets) (i : ℕ)
    → fd_isset i ((watch_client b s).readset) ≡ true
    → ((b.connect_fd ≡ i) × (0 < i)) ⊎ (fd_isset i s.readset ≡ true)
unfolding watch_client
watch_client-fd_isset b s i h = elim (le-cases b.connect_fd 0) [
  | inl free ↦ inr (ground (arith, h, free))
  | inr taken ↦ elim (fd_isset-cons b.connect_fd i s.readset (ground (arith, h, taken))) [
    | inl same ↦ inl (same, omega (arith, same, taken))
    | inr old ↦ inr old
  ]
]

watch_client-keeps :
    (b : SocketBuffer) (s : FdSets) (i : ℕ)
    → fd_isset i s.readset ≡ true
    → fd_isset i ((watch_client b s).readset) ≡ true
unfolding watch_client
watch_client-keeps b s i h =
    let later = fd_isset_later b.connect_fd i s.readset h in ground (arith, h, later)

watch_client-adds :
    (b : SocketBuffer) (s : FdSets)
    → 0 < b.connect_fd
    → fd_isset b.connect_fd ((watch_client b s).readset) ≡ true
unfolding watch_client
watch_client-adds b s h = let self = fd_isset_self b.connect_fd s.readset in ground (arith, h, self)

watch_clients-Sound : (bs : Buffers) (s : FdSets) → Sound s → Sound (watch_clients bs s)
unfolding watch_clients
watch_clients-Sound [] s h = h
watch_clients-Sound (b ∷ bs) s h =
    watch_clients-Sound bs (watch_client b s) (watch_client-Sound b s h)

watch_clients-fd_isset :
    (bs : Buffers) (s : FdSets) (i : ℕ)
    → fd_isset i ((watch_clients bs s).readset) ≡ true
    → IsClient i bs ⊎ (fd_isset i s.readset ≡ true)
unfolding watch_clients
watch_clients-fd_isset [] s i h = inr h
watch_clients-fd_isset (b ∷ bs) s i h = elim (watch_clients-fd_isset bs (watch_client b s) i h) [
  | inl (j, c, at, same, k) ↦ inl (suc j, c, at, same, k)
  | inr old ↦ elim (watch_client-fd_isset b s i old) [
    | inl (same, k) ↦ inl (0, b, refl, same, k)
    | inr older ↦ inr older
  ]
]

watch_clients-keeps :
    (bs : Buffers) (s : FdSets) (i : ℕ)
    → fd_isset i s.readset ≡ true
    → fd_isset i ((watch_clients bs s).readset) ≡ true
unfolding watch_clients
watch_clients-keeps [] s i h = h
watch_clients-keeps (b ∷ bs) s i h =
    watch_clients-keeps bs (watch_client b s) i (watch_client-keeps b s i h)

watch_clients-adds :
    (bs : Buffers) (s : FdSets) (j : ℕ) (b : SocketBuffer)
    → get_elem? bs j ≡ some b
    → 0 < b.connect_fd
    → fd_isset b.connect_fd ((watch_clients bs s).readset) ≡ true
unfolding watch_clients
watch_clients-adds [] s j b at h = cc
watch_clients-adds (c ∷ bs) s zero b at h =
    let same = some-injective c b at in
    watch_clients-keeps bs (watch_client c s) b.connect_fd (
      subst (λ d. fd_isset d.connect_fd ((watch_client c s).readset) ≡ true) same
        (watch_client-adds c s (omega (arith, h, ap (λ d. d.connect_fd) same))))
watch_clients-adds (c ∷ bs) s (suc j) b at h = watch_clients-adds bs (watch_client c s) j b at h

nothing_set : (i : ℕ) → fd_isset i [] ≢ true
unfolding fd_isset
nothing_set i e = cc

-- The sets of a round.
pub watch-Sound : (listen_fd : ℕ) (bs : Buffers) → Sound (watch listen_fd bs)
unfolding watch
watch-Sound listen_fd bs =
    watch_clients-Sound bs (record { readset = listen_fd ∷ []; writeset = []; maxfd = listen_fd })
      (record {
        bounded = λ i e. elim (fd_isset-cons listen_fd i [] e) [
          | inl same ↦ omega (arith, same)
          | inr old ↦ absurd (nothing_set i old)
        ];
        reads_too = λ i e. absurd (nothing_set i e);
      })

pub watch-fd_isset :
    (listen_fd : ℕ) (bs : Buffers) (i : ℕ)
    → fd_isset i ((watch listen_fd bs).readset) ≡ true
    → IsClient i bs ⊎ (listen_fd ≡ i)
unfolding watch
watch-fd_isset listen_fd bs i h =
    elim (watch_clients-fd_isset bs
      (record { readset = listen_fd ∷ []; writeset = []; maxfd = listen_fd }) i h) [
        | inl client ↦ inl client
        | inr old ↦ inr (elim (fd_isset-cons listen_fd i [] old) [
          | inl same ↦ same
          | inr nothing ↦ absurd (nothing_set i nothing)
        ])
      ]

pub watch-adds :
    (listen_fd : ℕ) (bs : Buffers) (j : ℕ) (b : SocketBuffer)
    → get_elem? bs j ≡ some b
    → 0 < b.connect_fd
    → fd_isset b.connect_fd ((watch listen_fd bs).readset) ≡ true
unfolding watch
watch-adds listen_fd bs j b =
    watch_clients-adds bs (record { readset = listen_fd ∷ []; writeset = []; maxfd = listen_fd }) j
      b

-- In a tidy array a descriptor of the sets is an index.
pub watch-index :
    (listen_fd : ℕ) (bs : Buffers) (i : ℕ)
    → Tidy bs
    → fd_isset i ((watch listen_fd bs).readset) ≡ true
    → listen_fd ≢ i
    → i < length bs
watch-index listen_fd bs i t h other = elim (watch-fd_isset listen_fd bs i h) [
  | inl (j, b, at, same, k) ↦ elim (t.own j b at) [
    | inl free ↦ absurd (omega (arith, free, same, k))
    | inr own ↦ (let within = lt_of_get_elem? bs j at in omega (arith, own, same, within))
  ]
  | inr listening ↦ absurd (other listening)
]
