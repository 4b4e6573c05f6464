-- ===== src/Tests/Runs.antt =====
-- Running transactions at concrete inputs.
use zapps.Prelude.{
  ℕ, ◌+◌, ◌≡◌, refl, inl, inr, arith, true, false, List, [], ◌∷◌, none, some, length, ok,
}
use zapps.Prelude.Int.{pos}
use zapps.Manager.Calls.{storage, tuple_not_found}
use zapps.Skewer.{skew_none}
use zapps.Shore.Settings.{Settings}
use zapps.Tpcb.Stats.{
  acct_update, mbench_insert_only, mbench_probe_only, mbench_delete_only, TrxCount, TrxStats,
  reset_stats, throughput,
}
use zapps.Tpcb.Run.{TrxManager, Env, mst_measure, run}
use zapps.Tpcb.Throughput.{Job, run_jobs, AllCounted, throughput-run_jobs}
use zapps.Tpcb.Accounts.{Accounted, answered, all_settled, run_jobs-Accounted}
use zapps.Tpcb.Run.{mix, pick_trx, xct_tpcb_mbench_mix}
use zapps.Tests.Skewers.{counter}
use zapps.Tpcb.Mix.{chosen, mix-chosen}

-- A database that counts what is written; a commit writes 100, an abort 1000.
abbrev manager : TrxManager ℕ
manager = record {
  commit_xct = λ lazy s. (none, s + 100);
  abort_xct = λ s. (none, s + 1000);
  is_deadlock = λ e. elim e [ storage n ↦ true | _ ↦ false ];
}

abbrev counts : ℕ → TrxCount
counts n = record {
  acct_update = n;
  populate_db = n;
  mbench_insert_only = n;
  mbench_delete_only = n;
  mbench_probe_only = n;
  mbench_insert_delete = n;
  mbench_insert_probe = n;
  mbench_delete_probe = n;
  mbench_mix = n;
}

abbrev stats : ℕ → TrxStats
stats n = record { attempted = counts (n + n); failed = counts n; deadlocked = counts 0 }

abbrev env : Env ℕ
env = record {
  store = 0;
  stats = record { my_stats = λ t. stats (t + 3); threads = 1 ∷ 2 ∷ []; last_stats = stats 7 };
  env_stats = record { trx_att = 5; trx_com = 4 };
  measure = mst_measure;
  asynch_commit = false;
  notified = [];
}

abbrev good : Job ℕ
good = record { thread = 1; trx = acct_update; id = 11; body = λ s. (none, s + 1) }

abbrev deadlock : Job ℕ
deadlock = record { thread = 2; trx = acct_update; id = 12; body = λ s. (some (storage 4), s + 1) }

abbrev missing : Job ℕ
missing = record {
  thread = 2;
  trx = mbench_probe_only;
  id = 13;
  body = λ s. (some tuple_not_found, s);
}

abbrev jobs : List (Job ℕ)
jobs = good ∷ deadlock ∷ missing ∷ (record good { id = 14 }) ∷ []

two_commit : (run_jobs manager jobs env).0 ≡ 2
unfolding run
two_commit = refl

answered_all : (run_jobs manager jobs env).1.notified ≡ 14 ∷ 13 ∷ 12 ∷ 11 ∷ []
unfolding run
answered_all = refl

jobs-AllCounted : AllCounted (1 ∷ 2 ∷ []) jobs
jobs-AllCounted = (
  record { registered = inl refl; benchmark = λ e. cc },
  (
    record { registered = inr (inl refl); benchmark = λ e. cc },
    (
      record { registered = inr (inl refl); benchmark = λ e. cc },
      (record { registered = inl refl; benchmark = λ e. cc }, tt),
    ),
  ),
)

throughput-run_jobs_example :
    throughput
      (stats 9)
      (run_jobs manager jobs (record env { stats = reset_stats (stats 8) env.stats })).1.stats
    ≡ (run_jobs manager jobs (record env { stats = reset_stats (stats 8) env.stats })).0
throughput-run_jobs_example =
    throughput-run_jobs manager (stats 8) (stats 9) jobs env (((λ e. omega arith), tt), (tt, tt))
      jobs-AllCounted (omega arith)

run_jobs-Accounted_example :
    Accounted env (run_jobs manager jobs env).1 (length jobs) (run_jobs manager jobs env).0
    × ((run_jobs manager jobs env).1.notified ≡ answered jobs env.notified)
    × ((run_jobs manager jobs env).1.store ≡ all_settled manager env.asynch_commit jobs env.store)
run_jobs-Accounted_example = run_jobs-Accounted manager jobs env refl (omega arith) (omega arith)

abbrev settings : Settings
settings = record {
  scaling_factor = pos 10;
  queried_factor = pos 10;
  max_cpu_count = 8;
  active_cpu_count = 8;
  insert_freq = pos 20;
  delete_freq = pos 30;
  probe_freq = pos 50;
  alarm_set = false;
  start_imbalance = pos 0;
  skew_type = skew_none;
}

mix-chosen_example :
    (pick_trx counter settings xct_tpcb_mbench_mix 119 ≡ ok (mbench_insert_only, 120))
    × (chosen settings mbench_insert_only 100 ≡ 20)
    × (chosen settings mbench_probe_only 100 ≡ 50)
    × (chosen settings mbench_delete_only 100 ≡ 30)
unfolding mix
mix-chosen_example = mix-chosen counter settings 119 20 50 30 refl refl refl refl
