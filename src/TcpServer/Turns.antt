-- ===== src/TcpServer/Turns.antt =====
-- A started server spreads the connections over the loops of its threads in turn.
use native.Mathlib.Nat.{mod-lt}
use yolanda.Prelude.Int.{ℤ, pos}
use yolanda.Outcome.{Outcome, ok, ◌>>=◌, fault}
use yolanda.Channel.{Callback, Channel, channel_new, event_read, server}
use yolanda.TcpConnection.{Connection}
use yolanda.ThreadPool.{ThreadPool}
use yolanda.ThreadPool.Rotation.{
  IsRunning, get_loop-IsRunning, take_loops, take_loops_lem, thread_pool_start_lem,
}
use yolanda.TcpServer.{
  Sockets, Acceptor, TcpServer, give_data, tcp_server_init, tcp_server_set_data, tcp_server_start,
  handle_connection_established,
}
use yolanda.Prelude.{
  ◌+◌, ◌%◌, ◌<◌, ◌≡◌, ◌∙◌, ◌∷◌, refl, ap, none, some, true, ℕ, List, Option, arith, zero, suc,
  length, get_elem?, [], sym,
}

module _ {L X R S : Type 0} (sys : Sockets S)
    (new_connection : L → ℤ → S → Outcome (Connection R × S)) (set : X → R → R) where
  -- The callback of the listening channel k times, by the main thread.
  pub establish_all : ℕ → TcpServer L X → S → Outcome (List (Connection R) × TcpServer L X × S)
  establish_all zero t s = ok ([], t, s)
  establish_all (suc k) t s = do
    (c, t', s') ← handle_connection_established sys new_connection set true t s
    (cs, t'', s'') ← establish_all k t' s'
    ok (c ∷ cs, t'', s'')

  -- The connections are those that are made on these loops, one after the other, each of the
  -- descriptor that is accepted then, which has been made nonblocking, and with the server's data.
  pub AreMade : ℤ → Option X → List L → List (Connection R) → S → S → Type 0
  AreMade listen_fd x [] [] s s' = s ≡ s'
  AreMade listen_fd x [] (c ∷ cs) s s' = ⊥
  AreMade listen_fd x (l ∷ ls) [] s s' = ⊥
  AreMade listen_fd x (l ∷ ls) (c ∷ cs) s s' =
      let (fd, s₁) = sys.accept listen_fd s in
      (made : Connection R) × (s₂ : S) × (new_connection l fd (sys.set_nonblocking fd s₁)
        ≡ ok (made, s₂))
      × (c ≡ give_data set x made)
      × AreMade listen_fd x ls cs s₂ s'

  module _
      (makes : (l : L) (fd : ℤ) (s : S)
        → (c : Connection R) × (s' : S) × (new_connection l fd s ≡ ok (c, s'))) where
    establish_all-AreMade :
        (k n : ℕ) (t : TcpServer L X) (s : S)
        → IsRunning t.thread_pool n
        → (ls : List L) × (cs : List (Connection R)) × (pool : ThreadPool L) × (s' : S)
          × (take_loops k t.thread_pool ≡ ok (ls, pool))
          × (establish_all k t s ≡ ok (cs, record t { thread_pool = pool }, s'))
          × AreMade (t.acceptor.listen_fd) t.extra ls cs s s'
    unfolding establish_all AreMade handle_connection_established take_loops
    establish_all-AreMade zero n t s r = ([], [], t.thread_pool, s, refl, refl, refl)
    establish_all-AreMade (suc k) n t s r =
        let (l, p', got, r', at, same, moved) = get_loop-IsRunning t.thread_pool n r in
        let fd = (sys.accept (t.acceptor.listen_fd) s).0 in
        let s₁ = sys.set_nonblocking fd ((sys.accept (t.acceptor.listen_fd) s).1) in
        let (c, s₂, made) = makes l fd s₁ in
        let (ls, cs, pool, s', took, run, are) =
          establish_all-AreMade k n (record t { thread_pool = p' }) s₂ r' in
        let pair : Outcome (L × ThreadPool L) → Outcome (Connection R × TcpServer L X × S) = λ o.
          o >>= λ z. new_connection (z.0) fd s₁ >>= λ w.
          ok (give_data set t.extra (w.0), record t { thread_pool = z.1 }, w.1) in
        let step =
          ap pair got
          ∙ ap
              (λ o. o >>= λ w. ok (give_data set t.extra (w.0), record t { thread_pool = p' }, w.1))
              made in
        (
          l ∷ ls,
          give_data set t.extra c ∷ cs,
          pool,
          s',
          ap (λ o. o >>= λ z. take_loops k (z.1) >>= λ w. ok (z.0 ∷ w.0, w.1)) got
              ∙ ap (λ o. o >>= λ w. ok (l ∷ w.0, w.1)) took,
          ap (λ o. o >>= λ z. establish_all k (z.1) (z.2) >>= λ w. ok (z.0 ∷ w.0, w.1, w.2)) step
              ∙ ap (λ o. o >>= λ w. ok (give_data set t.extra c ∷ w.0, w.1, w.2)) run,
          (c, s₂, made, refl, are),
        )

    pub established_in_turn :
        (k n : ℕ) (main : L) (acceptor : Acceptor) (x : X) (add : L → Channel → S → Outcome S)
        (start : ℕ → L) (s₀ s : S)
        → 0 < n
        → add main
            (channel_new acceptor.listen_fd event_read
              (some Callback.handle_connection_established)
              none
              server)
            s₀
          ≡ ok s
        → (t t' : TcpServer L X) × (ls : List L) × (cs : List (Connection R)) × (s' : S)
          × (tcp_server_start add true start
                (tcp_server_set_data (tcp_server_init main acceptor (pos n)) (some x))
                s₀
              ≡ ok (t, s))
          × (establish_all k t s ≡ ok (cs, t', s'))
          × (length ls ≡ k)
          × ((i : ℕ) → i < k → get_elem? ls i ≡ some (start (i % n)))
          × AreMade (acceptor.listen_fd) (some x) ls cs s s'
    unfolding tcp_server_start tcp_server_set_data tcp_server_init
    established_in_turn k n main acceptor x add start s₀ s positive adds =
        let (p, started, r, first, loops) = thread_pool_start_lem main start n positive in
        let t : TcpServer L X = record {
          event_loop = main;
          acceptor = acceptor;
          thread_num = pos n;
          thread_pool = p;
          extra = some x;
        } in
        let (ls, cs, pool, s', took, run, are) = establish_all-AreMade k n t s r in
        let (ls', pool', took', r', len, each) = take_loops_lem k p n r in
        let same : ls' ≡ ls = ap first_of (sym took' ∙ took) in
        (
          t,
          record t { thread_pool = pool },
          ls,
          cs,
          s',
          ap
                (λ o. o >>= λ pool.
                  add main listens s₀ >>= λ z. ok (record t { thread_pool = pool }, z))
                started
              ∙ ap (λ o. o >>= λ z. ok (t, z)) adds,
          run,
          ap length (sym same) ∙ len,
          λ i lt.
              ap (λ xs. get_elem? xs i) (sym same)
              ∙ each i lt
              ∙ ap (λ j. get_elem? p.loops ((j + i) % n)) first
              ∙ ap (λ j. get_elem? p.loops (j % n)) (omega arith)
              ∙ loops (i % n) (mod-lt i positive),
          are,
        )
      where
        first_of : Outcome (List L × ThreadPool L) → List L
        first_of (ok z) = z.0
        first_of (fault reason) = []

        listens : Channel
        listens =
            channel_new acceptor.listen_fd event_read (some Callback.handle_connection_established)
              none server
