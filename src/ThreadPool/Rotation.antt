-- ===== src/ThreadPool/Rotation.antt =====
-- The loops of a started pool are handed out in turn, each once before any is handed out again.
use native.Mathlib.Nat.{mod-eq_of_lt, mod-add-mod}
use yolanda.Prelude.Int.{pos}
use yolanda.Outcome.{Outcome, ok, ◌>>=◌}
use yolanda.ThreadPool.{
  ThreadPool, thread_pool_get_loop, start_from, thread_pool_start, thread_pool_new,
}
use yolanda.Prelude.{
  ◌+◌, ◌%◌, ◌<◌, ◌≡◌, ◌∷◌, refl, ap, some, true, ℕ, List, arith, zero, suc, length, get_elem?, [],
  get_elem?-of_lt, ◌∙◌, if◌then◌else◌, sym, inl, inr, le-cases, leb,
}

module _ {L : Type 0} where
  pub record IsRunning (p : ThreadPool L) (n : ℕ) : Type 0 where
    pub positive : 0 < n
    pub number : p.thread_number ≡ pos n
    pub loops : length p.loops ≡ n
    pub position : p.position < n
    pub started : p.started ≡ true

  -- `get_loop` k times, by the main thread.
  unfoldable pub take_loops : ℕ → ThreadPool L → Outcome (List L × ThreadPool L)
  take_loops zero p = ok ([], p)
  take_loops (suc k) p = do
    (l, p') ← thread_pool_get_loop true p
    (ls, p'') ← take_loops k p'
    ok (l ∷ ls, p'')

  pub get_loop-IsRunning :
      (p : ThreadPool L) (n : ℕ)
      → IsRunning p n
      → (l : L) × (p' : ThreadPool L) × (thread_pool_get_loop true p ≡ ok (l, p'))
        × IsRunning p' n
        × (get_elem? p.loops p.position ≡ some l)
        × (p'.loops ≡ p.loops)
        × (p'.position ≡ (p.position + 1) % n)
  unfolding thread_pool_get_loop
  get_loop-IsRunning p n r =
      let (l, e) = get_elem?-of_lt p.loops p.position (omega (arith, r.loops, r.position)) in
      let next = if leb n (p.position + 1) then 0 else p.position + 1 in
      (
        l,
        record p { position = next },
        ground (arith, r.started, r.number, r.positive),
        record {
          positive = r.positive;
          number = r.number;
          loops = r.loops;
          position = ground (arith, r.positive);
          started = r.started;
        },
        e,
        refl,
        wraps p.position n r.position,
      )
    where
      wraps : (i n : ℕ) → i < n → (if leb n (i + 1) then 0 else i + 1) ≡ (i + 1) % n
      wraps i n h = elim (le-cases n (i + 1)) [
        | inl last ↦
            let e : i + 1 ≡ n = omega arith in
            let z : n % n ≡ 0 = grind arith in ground (arith, z, ap (λ k. k % n) e)
        | inr more ↦ ground (arith, mod-eq_of_lt more)
      ]

  -- On a running pool of n loops, k calls by the main thread succeed, leave the pool running, and
  -- hand out the loops that stand at the position and after it, going round at the end: the i-th
  -- one is that at (position + i) mod n.
  pub take_loops_lem :
      (k : ℕ) (p : ThreadPool L) (n : ℕ)
      → IsRunning p n
      → (ls : List L) × (p' : ThreadPool L) × (take_loops k p ≡ ok (ls, p'))
        × IsRunning p' n
        × (length ls ≡ k)
        × ((i : ℕ) → i < k → get_elem? ls i ≡ get_elem? p.loops ((p.position + i) % n))
  unfolding take_loops
  take_loops_lem zero p n r = ([], p, refl, r, refl, λ i h. absurd (omega arith))
  take_loops_lem (suc k) p n r =
      let (l, p', got, r', at, same, moved) = get_loop-IsRunning p n r in
      let (ls, p'', took, r'', len, each) = take_loops_lem k p' n r' in
      (l ∷ ls, p'', ground (arith, got, took), r'', ap suc len, all l p' ls at same moved each)
    where
      all :
          (l : L) (p' : ThreadPool L) (ls : List L)
          → get_elem? p.loops p.position ≡ some l
          → p'.loops ≡ p.loops
          → p'.position ≡ (p.position + 1) % n
          → ((i : ℕ) → i < k → get_elem? ls i ≡ get_elem? p'.loops ((p'.position + i) % n))
          → (i : ℕ) → i < suc k
          → get_elem? (l ∷ ls) i ≡ get_elem? p.loops ((p.position + i) % n)
      all l p' ls at same moved each zero h =
          sym at
          ∙ ap (get_elem? p.loops) (sym (mod-eq_of_lt r.position) ∙ ap (λ j. j % n) (omega arith))
      all l p' ls at same moved each (suc i) h =
          each i (omega arith)
          ∙ ap (λ xs. get_elem? xs ((p'.position + i) % n)) same
          ∙ ap (λ j. get_elem? p.loops ((j + i) % n)) moved
          ∙ ap (get_elem? p.loops)
              (mod-add-mod (p.position + 1) n i ∙ ap (λ j. j % n) (omega arith))

  start_from-length : (start : ℕ → L) (left i : ℕ) → length (start_from start left i) ≡ left
  unfolding start_from
  start_from-length start zero i = refl
  start_from-length start (suc left) i = ap suc (start_from-length start left (i + 1))

  get_elem?-start_from :
      (start : ℕ → L) (left i j : ℕ)
      → j < left
      → get_elem? (start_from start left i) j ≡ some (start (i + j))
  unfolding start_from
  get_elem?-start_from start zero i j h = absurd (omega arith)
  get_elem?-start_from start (suc left) i zero h = ap (λ m. some (start m)) (omega arith)
  get_elem?-start_from start (suc left) i (suc j) h =
      get_elem?-start_from start left (i + 1) j (omega arith)
      ∙ ap (λ m. some (start m)) (omega arith)

  -- A new pool of n threads, n not 0, is running once it is started, with the first loop next.
  pub thread_pool_start_lem :
      (main : L) (start : ℕ → L) (n : ℕ)
      → 0 < n
      → (p : ThreadPool L) × (thread_pool_start true start (thread_pool_new main (pos n)) ≡ ok p)
        × IsRunning p n
        × (p.position ≡ 0)
        × ((i : ℕ) → i < n → get_elem? p.loops i ≡ some (start i))
  unfolding thread_pool_start thread_pool_new
  thread_pool_start_lem main start zero h = absurd (omega arith)
  thread_pool_start_lem main start (suc k) h = (
    record (thread_pool_new main (pos (suc k))) {
      started = true;
      loops = start_from start (suc k) 0;
    },
    ground arith,
    record {
      positive = h;
      number = refl;
      loops = start_from-length start (suc k) 0;
      position = h;
      started = refl;
    },
    refl,
    λ i lt. get_elem?-start_from start (suc k) 0 i lt ∙ ap (λ m. some (start m)) (omega arith),
  )
