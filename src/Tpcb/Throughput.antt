-- ===== src/Tpcb/Throughput.antt =====
-- What `print_throughput` counts.
use zapps.Prelude.{
  ℕ, suc, ◌-◌, ◌^◌, ◌≡◌, ◌≢◌, ◌<◌, ◌≤◌, refl, ap, sym, subst, ◌∙◌, arith, List, [], ◌∷◌, Option,
  none, some, length, Bool-cases, inl, inr,
}
use zapps.Manager.Calls.{Error}
use zapps.Manager.Runs.{and_then}
use zapps.Tpcb.Stats.{
  Trx, populate_db, TrxStats, StatMap, add32, sub_stats, inc_att, inc_failed, inc_dld, get_stats,
  reset_stats, throughput,
}
use zapps.Tpcb.Sums.{
  net, nets, inc_att-nets, inc_failed-nets, inc_dld-nets, nets-lt, Among, AreDistinct,
  net-sum_stats, net-sub_stats, net-nothing, AreBounded, sum_stats-AreBounded, sub_count-IsBounded,
}
use zapps.Tpcb.Run.{TrxManager, Env, run, finish_run, count_error}

-- A request that a thread serves, with the body of its transaction.
pub record Job (S : Type 0) : Type 0 where
  pub thread : ℕ
  pub trx : Trx
  pub id : ℕ
  pub body : S → Option Error × S

abbrev pub count_success : Option Error → ℕ → ℕ
count_success none n = suc n
count_success (some e) n = n

module _ {S : Type 0} (m : TrxManager S) where
  abbrev pub run_job : Job S → Env S → Option Error × Env S
  run_job j env = run m j.thread j.trx j.id j.body env

  -- The requests one after the other: how many `run_trx` calls return without an error.
  abbrev pub run_jobs : List (Job S) → Env S → ℕ × Env S
  run_jobs [] env = (0, env)
  run_jobs (j ∷ js) env =
      let r = run_jobs js (run_job j env).1 in (count_success (run_job j env).0 r.0, r.1)

-- A transaction that the dispatch can start, of a thread that is registered.
pub record IsCounted {S : Type 0} (threads : List ℕ) (j : Job S) : Type 0 where
  pub registered : Among j.thread threads
  pub benchmark : j.trx ≢ populate_db

abbrev pub AllCounted : {S : Type 0} → List ℕ → List (Job S) → Type 0
AllCounted threads [] = Unit {0}
AllCounted threads (j ∷ js) = IsCounted threads j × AllCounted threads js

abbrev registered_nets : {S : Type 0} → Env S → ℕ
registered_nets env = nets env.stats.my_stats env.stats.threads

abbrev Kept : StatMap → StatMap → Type 0
Kept a b = (b.threads ≡ a.threads) × (b.last_stats ≡ a.last_stats)

module _ {S : Type 0} (m : TrxManager S) (t : ℕ) (x : Trx) (h : x ≢ populate_db) where
  count_error-nets :
      (e : Error) (s : StatMap)
      → AreDistinct s.threads
      → Among t s.threads
      → nets (count_error m t x e s).my_stats s.threads
        ≡ add32 (nets s.my_stats s.threads) (2 ^ 32 - 1)
  unfolding count_error
  count_error-nets e s d among = elim (Bool-cases (m.is_deadlock e)) [
    | inl deadlock ↦ rw deadlock (inc_dld-nets t x s d among h)
    | inr other ↦ rw other (inc_failed-nets t x s d among h)
  ]

  finish_run-nets :
      (id : ℕ) (r : Option Error × S) (env : Env S)
      → AreDistinct env.stats.threads
      → Among t env.stats.threads
      → nets (finish_run m t x id r env).1.stats.my_stats env.stats.threads
        ≡ add32 (registered_nets env) (count_success (finish_run m t x id r env).0 (2 ^ 32 - 1))
  unfolding finish_run
  finish_run-nets id (none, s) env d among =
      omega (arith, nets-lt env.stats.my_stats env.stats.threads)
  finish_run-nets id (some e, s) env d among = count_error-nets e env.stats d among

module _ {S : Type 0} (m : TrxManager S) (t : ℕ) (x : Trx) where
  finish_run-Kept :
      (id : ℕ) (r : Option Error × S) (env : Env S)
      → Kept env.stats (finish_run m t x id r env).1.stats
  unfolding finish_run count_error inc_failed inc_dld
  finish_run-Kept id (none, s) env = (refl, refl)
  finish_run-Kept id (some e, s) env = elim (Bool-cases (m.is_deadlock e)) [
    | inl deadlock ↦ rw deadlock (refl, refl)
    | inr other ↦ rw other (refl, refl)
  ]

pub count_success-suc :
    (r : Option Error) (n k : ℕ)
    → add32 (add32 n (count_success r 0)) k ≡ add32 n (count_success r k)
count_success-suc none n k = omega arith
count_success-suc (some e) n k = omega arith

count_success-attempted :
    (r : Option Error) (n : ℕ)
    → add32 (add32 n 1) (count_success r (2 ^ 32 - 1)) ≡ add32 n (count_success r 0)
count_success-attempted none n = omega arith
count_success-attempted (some e) n = omega arith

count_success-lt : (r : Option Error) (n k : ℕ) → n ≤ k → count_success r n ≤ suc k
count_success-lt none n k h = omega arith
count_success-lt (some e) n k h = omega arith

module _ {S : Type 0} (m : TrxManager S) where
  run_job-Kept : (j : Job S) (env : Env S) → Kept env.stats (run_job m j env).1.stats
  unfolding run inc_att
  run_job-Kept j env =
      finish_run-Kept m j.thread j.trx j.id
        (and_then (j.body env.store) (m.commit_xct env.asynch_commit))
        (record env { stats = inc_att j.thread j.trx env.stats })

  run_job-nets :
      (j : Job S) (env : Env S)
      → AreDistinct env.stats.threads
      → IsCounted env.stats.threads j
      → nets (run_job m j env).1.stats.my_stats env.stats.threads
        ≡ add32 (registered_nets env) (count_success (run_job m j env).0 0)
  unfolding run inc_att
  run_job-nets j env d c =
      let r : Option Error × S = and_then (j.body env.store) (m.commit_xct env.asynch_commit) in
      let env1 : Env S = record env { stats = inc_att j.thread j.trx env.stats } in
      finish_run-nets m j.thread j.trx c.benchmark j.id r env1 d c.registered
      ∙ ap (λ n. add32 n (count_success (finish_run m j.thread j.trx j.id r env1).0 (2 ^ 32 - 1)))
          (inc_att-nets j.thread j.trx env.stats d c.registered c.benchmark)
      ∙ count_success-attempted (finish_run m j.thread j.trx j.id r env1).0 (registered_nets env)

  run_jobs-nets :
      (ts : List ℕ) (js : List (Job S)) (env : Env S)
      → env.stats.threads ≡ ts
      → AreDistinct ts
      → AllCounted ts js
      → Kept env.stats (run_jobs m js env).1.stats
        × (nets (run_jobs m js env).1.stats.my_stats ts
            ≡ add32 (nets env.stats.my_stats ts) (run_jobs m js env).0)
        × ((run_jobs m js env).0 ≤ length js)
  run_jobs-nets ts [] env e d c =
      ((refl, refl), omega (arith, nets-lt env.stats.my_stats ts), omega arith)
  run_jobs-nets ts (j ∷ js) env e d c =
      let (same, last) = run_job-Kept j env in
      let ((same', last'), sum, few) = run_jobs-nets ts js (run_job m j env).1 (same ∙ e) d c.1 in
      let first =
        run_job-nets j env (subst AreDistinct (sym e) d)
          (subst (λ us. IsCounted us j) (sym e) c.0) in
      (
        (same' ∙ same, last' ∙ last),
        sum
            ∙ ap (λ n. add32 n (run_jobs m js (run_job m j env).1).0)
                (subst
                  (λ us.
                    nets (run_job m j env).1.stats.my_stats us
                    ≡ add32 (nets env.stats.my_stats us) (count_success (run_job m j env).0 0))
                  e first)
            ∙ count_success-suc (run_job m j env).0 (nets env.stats.my_stats ts) _,
        count_success-lt (run_job m j env).0 _ _ few,
      )

  net-get_stats :
      (garbage : TrxStats) (s : StatMap) → net (get_stats garbage s) ≡ nets s.my_stats s.threads
  unfolding get_stats
  net-get_stats garbage s = omega (
    arith,
    net-sum_stats s.my_stats s.threads (sub_stats garbage garbage),
    net-nothing garbage,
    nets-lt s.my_stats s.threads,
  )

  get_stats-AreBounded : (garbage : TrxStats) (s : StatMap) → AreBounded (get_stats garbage s)
  unfolding get_stats sub_stats
  get_stats-AreBounded garbage s =
      sum_stats-AreBounded s.my_stats s.threads (sub_stats garbage garbage) record {
        attempted_bounded = sub_count-IsBounded garbage.attempted garbage.attempted;
        failed_bounded = sub_count-IsBounded garbage.failed garbage.failed;
        deadlocked_bounded = sub_count-IsBounded garbage.deadlocked garbage.deadlocked;
      }

  -- After `reset_stats`, fewer than 2 ^ 32 requests of the benchmark (of any transaction but
  -- `populate_db`) are run one after the other, by threads that stay registered, each once: then
  -- `print_throughput` counts those that committed, whatever the memory of its result held before.
  pub throughput-run_jobs :
      (garbage garbage' : TrxStats) (js : List (Job S)) (env : Env S)
      → AreDistinct env.stats.threads
      → AllCounted env.stats.threads js
      → length js < 2 ^ 32
      → throughput garbage'
          (run_jobs m js (record env { stats = reset_stats garbage env.stats })).1.stats
        ≡ (run_jobs m js (record env { stats = reset_stats garbage env.stats })).0
  unfolding throughput reset_stats net
  throughput-run_jobs garbage garbage' js env d c few =
      let start : Env S = record env { stats = reset_stats garbage env.stats } in
      let end : StatMap = (run_jobs m js start).1.stats in
      let ((same, last), sum, le) = run_jobs-nets env.stats.threads js start refl d c in
      let now : net (get_stats garbage' end) ≡ nets end.my_stats env.stats.threads =
        net-get_stats garbage' end ∙ ap (nets end.my_stats) same in
      ap (λ l. net (sub_stats (get_stats garbage' end) l)) last
      ∙ net-sub_stats (get_stats garbage' end) (get_stats garbage env.stats)
          (get_stats-AreBounded garbage env.stats)
      ∙ omega (
        arith,
        now,
        sum,
        le,
        net-get_stats garbage env.stats,
        nets-lt env.stats.my_stats env.stats.threads,
      )
