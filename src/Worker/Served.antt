-- ===== src/Worker/Served.antt =====
-- What the statistics of a worker count, and how a worker stops.
use zapps.Prelude.{
  subst, suc, ℕ, ◌+◌, ◌^◌, ◌<◌, ◌≡◌, refl, sym, ◌∙◌, ap, arith, Bool, true, false, List, [], ◌∷◌,
  ◌++◌, length, drop, Option, none, some, Result, ok, err, assertion, ◌>>=◌, ◌↔◌, if◌then◌else◌,
}
use zapps.Worker.Queue.{Queue, contents}
use zapps.Worker.Serve.{
  WorkerStats, reset_stats, add32, Calls, finish_action, begun_action, serve_action, serve_all,
  abort_one_trx, abort_each, pre_stop,
}

bind-bind :
    {A B C : Type 0} (r : Result A) (f : A → Result B) (g : A → Result C) (h : B → Result C)
    → ((a : A) → (f a >>= h) ≡ g a)
    → (r >>= f >>= h) ≡ (r >>= g)
bind-bind (ok a) f g h same = same a
bind-bind (err e) f g h same = refl

module _ {S : Type 0} (m : Calls S) where
  abort_each-append :
      (xct_of : ℕ → Option ℕ) (xs ys : List ℕ) (n : ℕ) (s : S)
      → (abort_each m xct_of xs n s >>= λ r. abort_each m xct_of ys r.0 r.1)
        ≡ abort_each m xct_of (xs ++ ys) n s
  unfolding abort_each
  abort_each-append xct_of [] ys n s = refl
  abort_each-append xct_of (x ∷ xs) ys n s =
      bind-bind (abort_one_trx m xct_of (xct_of x) s) _
        (λ a. abort_each m xct_of (xs ++ ys) (if a.0 then n + 1 else n) a.1)
        (λ r. abort_each m xct_of ys r.0 r.1)
        (λ a. abort_each-append xct_of xs ys (if a.0 then n + 1 else n) a.1)

  abort_each-unserved :
      (xct_of : ℕ → Option ℕ) (x : ℕ) (xs : List ℕ) (n : ℕ) (s : S)
      → xct_of x ≡ none
      → abort_each m xct_of (x ∷ xs) n s ≡ err assertion
  unfolding abort_each abort_one_trx
  abort_each-unserved xct_of x xs n s fresh = rw fresh refl

  pre_stop-contents :
      (xct_of : ℕ → Option ℕ) (q : Queue) (s : S)
      → pre_stop m xct_of q s ≡ abort_each m xct_of (contents q) 0 s
  unfolding pre_stop contents
  pre_stop-contents xct_of q s =
      abort_each-append xct_of (drop q.read_pos q.for_readers) q.for_writers 0 s

  abort_each-cases :
      (xct_of : ℕ → Option ℕ) (xs : List ℕ) (s : S)
      → ((x : ℕ) → xct_of x ≡ none)
      → ((n : ℕ) × (s' : S) × (abort_each m xct_of xs 0 s ≡ ok (n, s'))) ↔ (xs ≡ [])
  unfolding abort_each
  abort_each-cases xct_of [] s fresh = (λ run. refl, λ e. (0, s, refl))
  abort_each-cases xct_of (x ∷ xs) s fresh =
      let stops = abort_each-unserved xct_of x xs 0 s (fresh x) in (λ run. cc, λ e. cc)

  -- As long as no request of a queue has a transaction, as clients submit them: a worker that goes
  -- over its queue before it stops ends this without a failed assertion exactly when no request is
  -- left in the queue.
  pub pre_stop-empty :
      (xct_of : ℕ → Option ℕ) (q : Queue) (s : S)
      → ((request : ℕ) → xct_of request ≡ none)
      → ((n : ℕ) × (s' : S) × (pre_stop m xct_of q s ≡ ok (n, s'))) ↔ (contents q ≡ [])
  pre_stop-empty xct_of q s fresh =
      let all = abort_each-cases xct_of (contents q) s fresh in
      let same = pre_stop-contents xct_of q s in
      (
        λ (n, s', run). all.0 (n, s', sym same ∙ run),
        λ e. (let (n, s', run) = all.1 e in (n, s', same ∙ run)),
      )

  -- Every request that was served is counted once, as processed or as a problem.
  record IsCounted (n : ℕ) (stats : WorkerStats) : Type 0 where
    served : stats.served_input ≡ n
    ended : stats.processed + stats.problems ≡ n

  finish_action-ended :
      (n : ℕ) (stats : WorkerStats) (r : Bool × S)
      → n + 1 < 2 ^ 32
      → IsCounted n stats
      → let (rc, after, s) = finish_action m stats r in
        IsCounted (n + 1) (record after { served_input = add32 after.served_input 1 })
  unfolding finish_action
  finish_action-ended n stats (true, s) small h = record {
    served = ground (arith, h.served);
    ended = ground (arith, h.ended);
  }
  finish_action-ended n stats (false, s) small h = record {
    served = ground (arith, h.served);
    ended = ground (arith, h.ended);
  }

  serve_all-IsCounted :
      (requests : List ℕ) (n : ℕ) (stats : WorkerStats) (s : S)
      → ((s : S) → (xct : ℕ) × (s' : S) × (m.begin_xct s ≡ (some xct, s')))
      → n + length requests < 2 ^ 32
      → IsCounted n stats
      → (after : WorkerStats) × (s' : S) × (serve_all m requests stats s ≡ ok (after, s'))
        × IsCounted (n + length requests) after
  unfolding serve_all serve_action begun_action
  serve_all-IsCounted [] n stats s begins small h =
      let e : n ≡ n + 0 = omega arith in (stats, s, refl, subst (λ k. IsCounted k stats) e h)
  serve_all-IsCounted (x ∷ xs) n stats s begins small h =
      let (xct, s1, begun) = begins s in
      let t : ℕ × WorkerStats × S = finish_action m stats (m.run_one_xct x xct s1) in
      let next : WorkerStats = record t.1 { served_input = add32 t.1.served_input 1 } in
      let counted : IsCounted (n + 1) next =
        finish_action-ended n stats (m.run_one_xct x xct s1) (omega (arith, small)) h in
      let (after, s', rest, all) =
        serve_all-IsCounted xs (n + 1) next t.2 begins (omega (arith, small)) counted in
      let e : n + 1 + length xs ≡ n + suc (length xs) = omega arith in
      (
        after,
        s',
        ap
              (λ r. r >>= λ t.
                serve_all m xs (record t.1 { served_input = add32 t.1.served_input 1 }) t.2)
              (ap (begun_action m x stats) begun)
            ∙ rest,
        subst (λ k. IsCounted k after) e all,
      )

  -- If every transaction begins, and fewer than 2 ^ 32 requests are served: a worker serves all
  -- requests, and its statistics, which start at zero, count each once as served, and once as
  -- processed or as a problem.
  pub serve_all-counts :
      (requests : List ℕ) (s : S)
      → ((s : S) → (xct : ℕ) × (s' : S) × (m.begin_xct s ≡ (some xct, s')))
      → length requests < 2 ^ 32
      → (stats : WorkerStats) × (s' : S) × (serve_all m requests reset_stats s ≡ ok (stats, s'))
        × (stats.served_input ≡ length requests)
        × (stats.processed + stats.problems ≡ length requests)
  unfolding reset_stats
  serve_all-counts requests s begins small =
      let (stats, s', run, counted) =
        serve_all-IsCounted requests 0 reset_stats s begins (omega (arith, small))
          (record { served = refl; ended = refl }) in
      (stats, s', run, omega (arith, counted.served), omega (arith, counted.ended))
