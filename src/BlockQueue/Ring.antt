-- ===== src/BlockQueue/Ring.antt =====
-- The queue as the list of the descriptors that wait in it.
use yolanda.Outcome.{ok}
use yolanda.BlockQueue.{BlockQueue, advance, block_queue_init, block_queue_pop, block_queue_push}
use yolanda.Prelude.{
  ◌+◌, ◌-◌, ◌<◌, ◌≡◌, ◌≢◌, ◌⊎◌, ◌∙◌, ◌∷◌, ◌++◌, if◌then◌else◌, refl, ap, ap₂, none, some, ℕ, List,
  arith, zero, suc, length, get_elem?, leb, [], set, get_elem?-set_self, length-replicate,
  get_elem?-set_ne, length-set, ◌==◌, inl, inr, Bool-cases, get_elem?-of_lt,
}

abbrev slot : List ℕ → ℕ → ℕ
slot fds i = elim (get_elem? fds i) [ none ↦ 0 | some fd ↦ fd ]

-- The n descriptors from index h on, going round at `number`.
abbrev window : List ℕ → ℕ → ℕ → ℕ → List ℕ
window fds number h zero = []
window fds number h (suc n) = slot fds h ∷ window fds number (advance number h) n

abbrev pub waiting : BlockQueue → ℕ
waiting q = if leb q.front q.rear then q.rear - q.front else q.rear + q.number - q.front

abbrev pub contents : BlockQueue → List ℕ
contents q = window q.fds q.number q.front (waiting q)

pub record IsValid (q : BlockQueue) : Type 0 where
  pub block : length q.fds ≡ q.number
  pub front : q.front < q.number
  pub rear : q.rear < q.number

pub length-window : (fds : List ℕ) (number h n : ℕ) → length (window fds number h n) ≡ n
length-window fds number h zero = refl
length-window fds number h (suc n) = ap suc (length-window fds number (advance number h) n)

-- A write n places behind h extends the window of n descriptors.
window-set :
    (fds : List ℕ) (number h n r fd : ℕ)
    → length fds ≡ number
    → h < number
    → n < number
    → r < number
    → (h + n ≡ r) ⊎ (h + n ≡ r + number)
    → window (set fds r fd) number h (suc n) ≡ window fds number h n ++ (fd ∷ [])
window-set fds number h zero r fd b p q s e =
    let same : h ≡ r = ground arith in ground (arith, get_elem?-set_self fds r fd)
window-set fds number h (suc n) r fd b p q s e =
    let other : r ≢ h = ground arith in
    let step : (advance number h + n ≡ r) ⊎ (advance number h + n ≡ r + number) = ground arith in
    ap₂ ◌∷◌ (ap (λ o. elim o [ none ↦ 0 | some x ↦ x ]) (get_elem?-set_ne fds r h fd other))
      (window-set fds number (advance number h) n r fd b (ground arith) (omega arith) s step)

block_queue_init-IsValid : (number : ℕ) → 0 < number → IsValid (block_queue_init number)
unfolding block_queue_init
block_queue_init-IsValid number h = record {
  block = length-replicate number 0;
  front = h;
  rear = h;
}

-- On a valid queue with more than one free place a push puts the descriptor behind the others.
pub push-contents :
    (q : BlockQueue) (fd : ℕ)
    → IsValid q
    → length (contents q) + 1 < q.number
    → (q' : BlockQueue) × (block_queue_push q fd ≡ ok q')
      × IsValid q'
      × (contents q' ≡ contents q ++ (fd ∷ []))
      × (q'.number ≡ q.number)
unfolding block_queue_push
push-contents q fd v h =
    let n = length-window q.fds q.number q.front (waiting q) in
    let w : waiting (record q { fds = set q.fds q.rear fd; rear = advance q.number q.rear })
        ≡ suc (waiting q) =
      ground (arith, n, v.front, v.rear) in
    (
      record q { fds = set q.fds q.rear fd; rear = advance q.number q.rear },
      ground (arith, v.block, v.rear),
      record {
        block = length-set q.fds q.rear fd ∙ v.block;
        front = v.front;
        rear = ground (arith, v.rear, v.front);
      },
      ap (window (set q.fds q.rear fd) q.number q.front) w
          ∙ window-set q.fds q.number q.front (waiting q) q.rear fd v.block v.front
              (omega (arith, n)) v.rear (ground arith),
      refl,
    )

-- A pop waits on an empty queue, and else takes the first descriptor.
pub pop-contents :
    (q : BlockQueue)
    → IsValid q
    → ((contents q ≡ []) × (block_queue_pop q ≡ ok none))
      ⊎ ((fd : ℕ) × (q' : BlockQueue) × (block_queue_pop q ≡ ok (some (fd, q')))
          × IsValid q'
          × (contents q ≡ fd ∷ contents q')
          × (q'.number ≡ q.number))
unfolding block_queue_pop
pop-contents q v = elim (Bool-cases (q.front == q.rear)) [
  | inl e ↦
      let w : waiting q ≡ 0 = ground (arith, e) in
      inl (ap (window q.fds q.number q.front) w, ground (arith, e))
  | inr e ↦
      let (fd, at) = get_elem?-of_lt q.fds q.front (omega (arith, v.block, v.front)) in
      let q' = record q { front = advance q.number q.front } in
      let w : waiting q ≡ suc (waiting q') = ground (arith, e, v.front, v.rear) in
      inr (
        fd,
        q',
        ground (arith, e, at),
        record { block = v.block; front = ground (arith, v.front); rear = v.rear },
        ap (window q.fds q.number q.front) w
            ∙ ap (λ o. elim o [ none ↦ 0 | some x ↦ x ] ∷ contents q') at,
        refl,
      )
]

-- A push onto a valid queue with one free place makes it look empty: a pop waits, and the
-- descriptors that were waiting are lost with the new one.
pub push_full :
    (q : BlockQueue) (fd : ℕ)
    → IsValid q
    → length (contents q) + 1 ≡ q.number
    → (q' : BlockQueue) × (block_queue_push q fd ≡ ok q')
      × (contents q' ≡ [])
      × (block_queue_pop q' ≡ ok none)
unfolding block_queue_push block_queue_pop
push_full q fd v h =
    let n = length-window q.fds q.number q.front (waiting q) in
    let q' = record q { fds = set q.fds q.rear fd; rear = advance q.number q.rear } in
    let e : q'.rear ≡ q.front = ground (arith, n, v.front, v.rear) in
    let w : waiting q' ≡ 0 = ground (arith, e) in
    (
      q',
      ground (arith, v.block, v.rear),
      ap (window q'.fds q'.number q'.front) w,
      ground (arith, e),
    )
