-- ===== src/Worker/Serve.antt =====
-- How a worker serves its requests, and what it does with those that are left when it stops:
-- src/kits/trx_worker.cpp, and the statistics of src/kits/shore_worker.cpp. The storage manager and
-- the environment are parameters; W_COERCE ends the process.
use zapps.Prelude.{
  ℕ, ◌+◌, ◌%◌, ◌^◌, Bool, true, false, if◌then◌else◌, List, [], ◌∷◌, drop, Option, none, some,
  Result, ok, err, assertion, assert_some, ◌>>=◌,
}
use zapps.Worker.Queue.{Queue}

-- Counters of 32 bits.
pub record WorkerStats : Type 0 where
  pub processed : ℕ
  pub problems : ℕ
  pub served_input : ℕ
  pub served_waiting : ℕ
  pub condex_sleep : ℕ
  pub failed_sleep : ℕ
  pub early_aborts : ℕ
  pub mid_aborts : ℕ

abbrev pub add32 : ℕ → ℕ → ℕ
add32 a b = (a + b) % 2 ^ 32

unfoldable pub reset_stats : WorkerStats
reset_stats = record {
  processed = 0;
  problems = 0;
  served_input = 0;
  served_waiting = 0;
  condex_sleep = 0;
  failed_sleep = 0;
  early_aborts = 0;
  mid_aborts = 0;
}

-- `operator+=`
unfoldable pub add_stats : WorkerStats → WorkerStats → WorkerStats
add_stats s rhs = record {
  processed = add32 s.processed rhs.processed;
  problems = add32 s.problems rhs.problems;
  served_input = add32 s.served_input rhs.served_input;
  served_waiting = add32 s.served_waiting rhs.served_waiting;
  condex_sleep = add32 s.condex_sleep rhs.condex_sleep;
  failed_sleep = add32 s.failed_sleep rhs.failed_sleep;
  early_aborts = add32 s.early_aborts rhs.early_aborts;
  mid_aborts = add32 s.mid_aborts rhs.mid_aborts;
}

-- What the worker calls: `begin_xct`, `run_one_xct` of the environment, and `abort_xct`. The
-- Boolean of the last two says whether the call succeeded; the transaction that a request runs in
-- is in the store.
pub record Calls (S : Type 0) : Type 0 where
  pub begin_xct : S → Option ℕ × S
  pub run_one_xct : (request xct : ℕ) → S → Bool × S
  pub abort_xct : (xct : ℕ) → S → Bool × S

module _ {S : Type 0} (m : Calls S) where
  unfoldable pub finish_action : WorkerStats → Bool × S → ℕ × WorkerStats × S
  finish_action stats (true, s) = (0, record stats { processed = add32 stats.processed 1 }, s)
  finish_action stats (false, s) = (1, record stats { problems = add32 stats.problems 1 }, s)

  -- The return code, the statistics, and the store.
  unfoldable pub begun_action : ℕ → WorkerStats → Option ℕ × S → Result (ℕ × WorkerStats × S)
  unfolding finish_action
  begun_action request stats (none, s) = err assertion
  begun_action request stats (some xct, s) = ok (finish_action stats (m.run_one_xct request xct s))

  unfoldable pub serve_action : ℕ → WorkerStats → S → Result (ℕ × WorkerStats × S)
  unfolding begun_action
  serve_action request stats s = begun_action request stats (m.begin_xct s)

  -- The loop of `_work_ACTIVE_impl`, for the requests that it pops.
  unfoldable pub serve_all : List ℕ → WorkerStats → S → Result (WorkerStats × S)
  unfolding serve_action
  serve_all [] stats s = ok (stats, s)
  serve_all (request ∷ requests) stats s = do
    (rc, stats', s') ← serve_action request stats s
    serve_all requests (record stats' { served_input = add32 stats'.served_input 1 }) s'

  module _ (xct_of : ℕ → Option ℕ) where
    unfoldable pub abort_one_trx : Option ℕ → S → Result (Bool × S)
    abort_one_trx axct s = do xct ← assert_some axct; ok (m.abort_xct xct s)

    -- One loop of `_pre_STOP_impl`; the result has `reqs_abt`.
    unfoldable pub abort_each : List ℕ → ℕ → S → Result (ℕ × S)
    unfolding abort_one_trx
    abort_each [] reqs_abt s = ok (reqs_abt, s)
    abort_each (request ∷ requests) reqs_abt s = do
      (aborted, s') ← abort_one_trx (xct_of request) s
      abort_each requests (if aborted then reqs_abt + 1 else reqs_abt) s'

    -- The readers' list from the reading position on, and the writers' list.
    unfoldable pub pre_stop : Queue → S → Result (ℕ × S)
    unfolding abort_each
    pre_stop q s = do
      (reqs_abt, s') ← abort_each (drop q.read_pos q.for_readers) 0 s
      abort_each q.for_writers reqs_abt s'
