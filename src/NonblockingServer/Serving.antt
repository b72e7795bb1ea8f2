-- ===== src/NonblockingServer/Serving.antt =====
-- The loop over the descriptors, against a walk over the array that serves the entries that are ready.
use yolanda.Prelude.Slices.{get_elem?-append_length, set-append_length}
use yolanda.NonblockingServer.Owners.{serve_client-owner}
use mathlib.Core.Option.{some-injective}
use yolanda.Outcome.{ok}
use yolanda.NonblockingServer.Watching.{Owned, Tidy}
use yolanda.NonblockingServer.{Buffers, SocketBuffer, serve_client, Readiness}
use yolanda.NonblockingServer.MainLoop.{
  Calls, FdSet, is_ready, serve_descriptor, serve_descriptors, Service, readiness, fd_isset,
}
use yolanda.Prelude.{
  ◌+◌, ◌≤◌, ◌≡◌, ◌∙◌, ◌∷◌, ◌++◌, if◌then◌else◌, refl, sym, ap, ap₂, subst, inl, inr, some, false, ℕ,
  List, arith, zero, suc, Bool-cases, length, get_elem?, [], length-append, append_assoc, ◌&&◌,
  ◌==◌, none, true, Bool, not, ◌||◌,
}

-- A client that is served: `select` left its descriptor in the first set or in the second, and it is
-- not the listening one.
unfoldable pub chosen : ℕ → FdSet × FdSet → ℕ → Bool
chosen listen_fd sets i =
    if i == listen_fd then false else if fd_isset i (sets.0) then true else fd_isset i (sets.1)

-- What is done with it: it is read from if it is in the first set, and sent to if it is in the second.
unfoldable pub due : Calls → FdSet × FdSet → ℕ → Readiness
due calls sets i = elim (fd_isset i (sets.0)) [
  | true ↦ elim (fd_isset i (sets.1)) [
    | true ↦ record { receives = some (calls.received i); sends = some (calls.taken i) }
    | false ↦ record { receives = some (calls.received i); sends = none }
  ]
  | false ↦ elim (fd_isset i (sets.1)) [
    | true ↦ record { receives = none; sends = some (calls.taken i) }
    | false ↦ record { receives = none; sends = none }
  ]
]

is_ready-chosen :
    (listen_fd : ℕ) (sets : FdSet × FdSet) (i : ℕ)
    → is_ready listen_fd sets i ≡ chosen listen_fd sets i
unfolding is_ready chosen
is_ready-chosen listen_fd (reads, writes) i = ready (i == listen_fd) (fd_isset i reads)
  where
    ready :
        (listening reading : Bool)
        → (not listening && (reading || fd_isset i writes))
          ≡ (if listening then false else if reading then true else fd_isset i writes)
    ready true reading = refl
    ready false true = refl
    ready false false = refl

readiness-due :
    (calls : Calls) (sets : FdSet × FdSet) (i : ℕ) → readiness calls sets i ≡ due calls sets i
unfolding readiness due
readiness-due calls (reads, writes) i = ready (fd_isset i reads) (fd_isset i writes)
  where
    ready :
        (reading writing : Bool)
        → ◌≡◌ {A = Readiness}
            (record {
              receives = if reading then some (calls.received i) else none;
              sends = if writing then some (calls.taken i) else none;
            })
            (elim reading [
              | true ↦ elim writing [
                | true ↦ record { receives = some (calls.received i); sends = some (calls.taken i) }
                | false ↦ record { receives = some (calls.received i); sends = none }
              ]
              | false ↦ elim writing [
                | true ↦ record { receives = none; sends = some (calls.taken i) }
                | false ↦ record { receives = none; sends = none }
              ]
            ])
    ready true true = refl
    ready true false = refl
    ready false true = refl
    ready false false = refl

-- The entry of a descriptor after the round, and what the round does to it.
module _ (listen_fd : ℕ) (calls : Calls) (sets : FdSet × FdSet) where
  unfoldable pub served : ℕ → SocketBuffer → SocketBuffer
  served i b = if chosen listen_fd sets i then (serve_client (due calls sets i) b).2 else b

  unfoldable pub service : ℕ → SocketBuffer → List Service
  service i b =
      if chosen listen_fd sets i
      then (let (sent, closes, b') = serve_client (due calls sets i) b in
          record { fd = i; sent = sent; closed = closes } ∷ [])
      else []

  -- The entries of the array, the first of which has this index.
  unfoldable pub all_served : ℕ → Buffers → Buffers
  all_served i [] = []
  all_served i (b ∷ bs) = served i b ∷ all_served (suc i) bs

  unfoldable pub services : ℕ → Buffers → List Service
  services i [] = []
  services i (b ∷ bs) = service i b ++ services (suc i) bs

  abbrev pub QuietFrom : ℕ → Type 0
  QuietFrom i = (k : ℕ) → i ≤ k → is_ready listen_fd sets k ≡ false

  quiet : (i : ℕ) → is_ready listen_fd sets i ≡ false → chosen listen_fd sets i ≡ false
  quiet i e = sym (is_ready-chosen listen_fd sets i) ∙ e

  all_served-quiet : (i : ℕ) (bs : Buffers) → QuietFrom i → all_served i bs ≡ bs
  unfolding all_served served
  all_served-quiet i [] q = refl
  all_served-quiet i (b ∷ bs) q =
      let rest = all_served-quiet (suc i) bs (λ k h. q k (omega (arith, h))) in
      let this = quiet i (q i (omega arith)) in ground (arith, this, rest)

  services-quiet : (i : ℕ) (bs : Buffers) → QuietFrom i → services i bs ≡ []
  unfolding services service
  services-quiet i [] q = refl
  services-quiet i (b ∷ bs) q =
      let rest = services-quiet (suc i) bs (λ k h. q k (omega (arith, h))) in
      let this = quiet i (q i (omega arith)) in ground (arith, this, rest)

  serve_descriptors-quiet :
      (count i : ℕ) (bs : Buffers)
      → QuietFrom i
      → serve_descriptors listen_fd calls sets count i bs ≡ ok ([], bs)
  unfolding serve_descriptors serve_descriptor
  serve_descriptors-quiet zero i bs q = refl
  serve_descriptors-quiet (suc count) i bs q =
      let rest = serve_descriptors-quiet count (suc i) bs (λ k h. q k (omega (arith, h))) in
      let this = q i (omega arith) in ground (arith, this, rest)

  serve_descriptor_lem :
      (before : Buffers) (b : SocketBuffer) (rest : Buffers)
      → serve_descriptor listen_fd calls sets (length before) (before ++ b ∷ rest)
        ≡ ok (service (length before) b, before ++ served (length before) b ∷ rest)
  unfolding serve_descriptor service served
  serve_descriptor_lem before b rest =
      let found = get_elem?-append_length before b rest in
      let put =
        set-append_length before b rest ((serve_client (due calls sets (length before)) b).2) in
      let treated = ap (λ r. serve_client r b) (readiness-due calls sets (length before)) in
      let agrees = is_ready-chosen listen_fd sets (length before) in
      elim (Bool-cases (is_ready listen_fd sets (length before))) [
        | inl e ↦ (let e' = sym agrees ∙ e in ground (arith, e, e', found, put, treated))
        | inr e ↦ (let e' = sym agrees ∙ e in ground (arith, e, e'))
      ]

  -- The loop from an index on that is within the array.
  pub serve_descriptors_lem :
      (count i : ℕ) (before rest : Buffers)
      → length before ≡ i
      → QuietFrom (i + count)
      → QuietFrom (i + length rest)
      → serve_descriptors listen_fd calls sets count i (before ++ rest)
        ≡ ok (services i rest, before ++ all_served i rest)
  unfolding services all_served serve_descriptors
  serve_descriptors_lem zero i before rest e q r =
      let q' : QuietFrom i = λ k h. q k (omega (arith, h)) in
      let same = all_served-quiet i rest q' in
      let nothing = services-quiet i rest q' in
      serve_descriptors-quiet zero i (before ++ rest) q'
      ∙ ap₂ (λ ss bs. ok (ss, before ++ bs)) (sym nothing) (sym same)
  serve_descriptors_lem (suc count) i before [] e q r =
      serve_descriptors-quiet (suc count) i (before ++ []) (λ k h. r k (omega (arith, h)))
  serve_descriptors_lem (suc count) i before (b ∷ rest) e q r =
      let this : serve_descriptor listen_fd calls sets i (before ++ b ∷ rest)
          ≡ ok (service i b, before ++ served i b ∷ rest) =
        subst
          (λ k.
            serve_descriptor listen_fd calls sets k (before ++ b ∷ rest)
            ≡ ok (service k b, before ++ served k b ∷ rest))
          e (serve_descriptor_lem before b rest) in
      let more =
        serve_descriptors_lem count (suc i) (before ++ served i b ∷ []) rest
          (length-append before (served i b ∷ []) ∙ omega (arith, e))
          (λ k h. q k (omega (arith, h))) (λ k h. r k (omega (arith, h))) in
      let first = append_assoc before (served i b ∷ []) rest in
      let last = append_assoc before (served i b ∷ []) (all_served (suc i) rest) in
      simp (this, sym first, more, last)

served-owner :
    (listen_fd : ℕ) (calls : Calls) (sets : FdSet × FdSet) (i : ℕ) (b : SocketBuffer)
    → Owned i b
    → Owned i (served listen_fd calls sets i b)
unfolding served
served-owner listen_fd calls sets i b own = elim (Bool-cases (chosen listen_fd sets i)) [
  | inr e ↦ rw e own
  | inl e ↦ rw e (elim (serve_client-owner (due calls sets i) b) [
    | inl free ↦ inl free
    | inr same ↦ elim own [ inl free ↦ inl (same ∙ free) | inr here ↦ inr (same ∙ here) ]
  ])
]

module _ (listen_fd : ℕ) (calls : Calls) (sets : FdSet × FdSet) where
  length-all_served :
      (k : ℕ) (bs : Buffers) → length (all_served listen_fd calls sets k bs) ≡ length bs
  unfolding all_served
  length-all_served k [] = refl
  length-all_served k (b ∷ bs) = ap suc (length-all_served (suc k) bs)

  all_served-Owned :
      (k : ℕ) (bs : Buffers) (i n : ℕ) (b : SocketBuffer)
      → k + i ≡ n
      → ((j m : ℕ) (c : SocketBuffer) → k + j ≡ m → get_elem? bs j ≡ some c → Owned m c)
      → get_elem? (all_served listen_fd calls sets k bs) i ≡ some b
      → Owned n b
  unfolding all_served
  all_served-Owned k [] i n b e h at = cc
  all_served-Owned k (c ∷ bs) zero n b e h at =
      subst (λ m. Owned m b) {x = k} (omega (arith, e))
        (subst (Owned k) (some-injective _ _ at)
          (served-owner listen_fd calls sets k c (h 0 k c (omega arith) refl)))
  all_served-Owned k (c ∷ bs) (suc i) n b e h at =
      all_served-Owned (suc k) bs i n b (omega (arith, e))
        (λ j m d q. h (suc j) m d (omega (arith, q))) at

  pub all_served-Tidy : (bs : Buffers) → Tidy bs → Tidy (all_served listen_fd calls sets 0 bs)
  all_served-Tidy bs t = record {
    room = length-all_served 0 bs ∙ t.room;
    own = λ i b.
        all_served-Owned 0 bs i i b (omega arith)
          (λ j m c e at. subst (λ k. Owned k c) {x = j} (omega (arith, e)) (t.own j c at));
  }
