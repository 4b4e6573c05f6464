-- ===== src/Tests/Serving.antt =====
-- A worker that serves three requests, of which the second fails, and one that stops.
use zapps.Prelude.{ℕ, ◌+◌, ◌≡◌, ◌↔◌, refl, arith, true, [], ◌∷◌, ok, none, some, ◌==◌, not}
use zapps.Worker.Queue.{Queue, new_queue, contents, push_back}
use zapps.Worker.Serve.{WorkerStats, Calls, serve_all, reset_stats, pre_stop}
use zapps.Worker.Served.{serve_all-counts, pre_stop-empty}

-- The store is the number of the next transaction.
abbrev calls : Calls ℕ
calls = record {
  begin_xct = λ s. (some s, s + 1);
  run_one_xct = λ request xct s. (not (request == 8), s);
  abort_xct = λ xct s. (true, s);
}

serve_all-counts_example :
    (stats : WorkerStats) × (s' : ℕ) × (serve_all calls (7 ∷ 8 ∷ 9 ∷ []) reset_stats 0
      ≡ ok (stats, s'))
    × (stats.served_input ≡ 3)
    × (stats.processed + stats.problems ≡ 3)
serve_all-counts_example =
    serve_all-counts calls (7 ∷ 8 ∷ 9 ∷ []) 0 (λ s. (s, s + 1, refl)) (omega arith)

abbrev one_left : Queue
unfolding new_queue push_back
one_left = push_back new_queue 7

pre_stop-empty_example :
    ((n : ℕ) × (s' : ℕ) × (pre_stop calls (λ request. none) one_left 0 ≡ ok (n, s')))
    ↔ (contents one_left ≡ [])
pre_stop-empty_example = pre_stop-empty calls (λ request. none) one_left 0 (λ request. refl)
