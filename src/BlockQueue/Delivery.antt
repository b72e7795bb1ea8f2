-- ===== src/BlockQueue/Delivery.antt =====
-- Every accepted descriptor reaches one worker, in the order of acceptance.
use yolanda.Outcome.{ok}
use yolanda.BlockQueue.Ring.{IsValid, contents, pop-contents, push-contents}
use yolanda.BlockQueue.{
  Server, start, BlockQueue, Step, block_queue_init, block_queue_pop, block_queue_push, push,
  push_wakes, pop, sleep, wake, finish,
}
use yolanda.Prelude.{
  ◌+◌, ◌<◌, ◌≡◌, ◌∙◌, ◌∷◌, ◌++◌, refl, sym, ap, subst, inl, inr, some, ℕ, arith, length, [],
  length-replicate, length-append, append_assoc,
}

-- A run in which fewer than `number` accepted descriptors wait at any time.
pub data Run (number : ℕ) (s : Server) : Server → Type 0 where
  here : Run number s s
  next :
      {t u : Server}
      → Run number s t
      → Step t u
      → length u.accepted < length u.taken + number
      → Run number s u

pub record IsSound (number workers : ℕ) (s : Server) : Type 0 where
  pub valid : IsValid s.queue
  pub size : s.queue.number ≡ number
  pub order : s.accepted ≡ s.taken ++ contents s.queue
  pub total : s.ready + s.asleep + length s.serving ≡ workers
  pub awake : 0 < length (contents s.queue) → s.asleep < workers

start-IsSound : (number workers : ℕ) → 0 < number → IsSound number workers (start number workers)
unfolding start block_queue_init
start-IsSound number workers h = record {
  valid = record { block = length-replicate number 0; front = h; rear = h };
  size = refl;
  order = refl;
  total = omega arith;
  awake = λ p. absurd (omega arith);
}

-- What a push does to the queue and to the two records of descriptors.
after_push :
    (number workers fd : ℕ) (s : Server) (q : BlockQueue)
    → IsSound number workers s
    → block_queue_push s.queue fd ≡ ok q
    → length s.accepted + 1 < length s.taken + number
    → IsValid q × (q.number ≡ number) × (s.accepted ++ (fd ∷ []) ≡ s.taken ++ contents q)
after_push number workers fd s q v e h =
    let n = length-append s.taken (contents s.queue) in
    let m = ap length v.order in
    let (q', pushed, valid, grown, same) =
      push-contents s.queue fd v.valid (omega (arith, n, m, v.size)) in
    let z : q' ≡ q = cc in
    subst (λ x. IsValid x × (x.number ≡ number) × (s.accepted ++ (fd ∷ []) ≡ s.taken ++ contents x))
      z
      (
        valid,
        same ∙ v.size,
        ap (λ xs. xs ++ (fd ∷ [])) v.order
            ∙ append_assoc s.taken (contents s.queue) (fd ∷ [])
            ∙ ap (λ xs. s.taken ++ xs) (sym grown),
      )

after_pop :
    (number workers fd : ℕ) (s : Server) (q : BlockQueue)
    → IsSound number workers s
    → block_queue_pop s.queue ≡ ok (some (fd, q))
    → IsValid q × (q.number ≡ number) × (s.accepted ≡ (s.taken ++ (fd ∷ [])) ++ contents q)
after_pop number workers fd s q v e = elim (pop-contents s.queue v.valid) [
  | inl (none_left, waits) ↦ cc
  | inr (fd', q', popped, valid, shrunk, same) ↦
      let z : q' ≡ q = cc in
      let y : fd' ≡ fd = cc in
      subst
        (λ x. IsValid x × (x.number ≡ number) × (s.accepted ≡ (s.taken ++ (fd ∷ [])) ++ contents x))
        z
        (
          valid,
          same ∙ v.size,
          v.order
              ∙ ap (λ xs. s.taken ++ xs) (shrunk ∙ ap (λ x. x ∷ contents q') y)
              ∙ sym (append_assoc s.taken (fd ∷ []) (contents q')),
        )
]

Step-IsSound :
    (number workers : ℕ) {s t : Server}
    → Step s t
    → length t.accepted < length t.taken + number
    → IsSound number workers s
    → 0 < workers
    → IsSound number workers t
Step-IsSound number workers {s} (push fd q e a) h v w =
    let (valid, size, order) =
      after_push number workers fd s q v e (omega (arith, length-append s.accepted (fd ∷ []))) in
    record { valid = valid; size = size; order = order; total = v.total; awake = λ p. omega arith }
Step-IsSound number workers {s} (push_wakes fd n q e a) h v w =
    let (valid, size, order) =
      after_push number workers fd s q v e (omega (arith, length-append s.accepted (fd ∷ []))) in
    record {
      valid = valid;
      size = size;
      order = order;
      total = omega (arith, v.total);
      awake = λ p. omega (arith, v.total);
    }
Step-IsSound number workers {s} (pop fd n q e a) h v w =
    let (valid, size, order) = after_pop number workers fd s q v e in
    record {
      valid = valid;
      size = size;
      order = order;
      total = omega (arith, v.total);
      awake = λ p. omega (arith, v.total);
    }
Step-IsSound number workers {s} (sleep n e a) h v w = elim (pop-contents s.queue v.valid) [
  | inl (none_left, waits) ↦ record {
    valid = v.valid;
    size = v.size;
    order = v.order;
    total = omega (arith, v.total);
    awake = λ p. absurd (omega (arith, ap length none_left));
  }
  | inr (fd', q', popped, valid, shrunk, same) ↦ cc
]
Step-IsSound number workers {s} (wake n a) h v w = record {
  valid = v.valid;
  size = v.size;
  order = v.order;
  total = omega (arith, v.total);
  awake = λ p. omega (arith, v.total);
}
Step-IsSound number workers {s} (finish fd rest e) h v w = record {
  valid = v.valid;
  size = v.size;
  order = v.order;
  total = omega (arith, v.total, ap length e);
  awake = v.awake;
}

Run-IsSound :
    (number workers : ℕ) {s t : Server}
    → Run number s t
    → IsSound number workers s
    → 0 < workers
    → IsSound number workers t
Run-IsSound number workers here v w = v
Run-IsSound number workers (next r st h) v w =
    Step-IsSound number workers st h (Run-IsSound number workers r v w) w

-- However the accepting thread and the workers run, while fewer than `number` accepted descriptors
-- wait at any time: the descriptors taken so far, followed by those in the queue, are those accepted,
-- in order; and while one waits, some worker is not asleep.
pub delivered :
    (number workers : ℕ) {s : Server}
    → 0 < number
    → 0 < workers
    → Run number (start number workers) s
    → (s.accepted ≡ s.taken ++ contents s.queue)
      × (0 < length (contents s.queue) → s.asleep < workers)
delivered number workers p w r =
    let v = Run-IsSound number workers r (start-IsSound number workers p) w in (v.order, v.awake)
