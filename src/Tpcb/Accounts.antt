-- ===== src/Tpcb/Accounts.antt =====
-- What the wrappers of the transactions account for.
use zapps.Prelude.{
  ℕ, ◌^◌, ◌≡◌, ◌<◌, refl, ap, ◌∙◌, arith, List, [], ◌∷◌, Option, none, some, length, Bool,
}
use zapps.Manager.Calls.{Error}
use zapps.Manager.Runs.{and_then}
use zapps.Tpcb.Stats.{add32, Trx, inc_att}
use zapps.Tpcb.Run.{
  TrxManager, Env, run, finish_run, mst_measure, inc_trx_att, inc_trx_com, measuring,
}
use zapps.Tpcb.Throughput.{Job, run_job, run_jobs, count_success, count_success-suc}

-- The requests of the jobs, onto those that were answered before.
abbrev pub answered : {S : Type 0} → List (Job S) → List ℕ → List ℕ
answered [] ids = ids
answered (j ∷ js) ids = answered js (j.id ∷ ids)

module _ {S : Type 0} (m : TrxManager S) where
  -- A transaction and its commit, or the abort after the first that fails.
  abbrev pub settled : Option Error × S → S
  settled (none, s) = s
  settled (some e, s) = (m.abort_xct s).1

  abbrev pub all_settled : (lazy : Bool) → List (Job S) → S → S
  all_settled lazy [] s = s
  all_settled lazy (j ∷ js) s =
      all_settled lazy js (settled (and_then (j.body s) (m.commit_xct lazy)))

-- `k` requests more, of which `n` succeeded.
pub record Accounted {S : Type 0} (env env' : Env S) (k n : ℕ) : Type 0 where
  pub attempted : env'.env_stats.trx_att ≡ add32 env.env_stats.trx_att k
  pub committed : env'.env_stats.trx_com ≡ add32 env.env_stats.trx_com n
  pub still_measuring : env'.measure ≡ mst_measure
  pub same_commit : env'.asynch_commit ≡ env.asynch_commit

module _ {S : Type 0} (m : TrxManager S) where
  finish_run-Accounted :
      (thread : ℕ) (x : Trx) (id : ℕ) (r : Option Error × S) (env : Env S)
      → env.measure ≡ mst_measure
      → env.env_stats.trx_com < 2 ^ 32
      → Accounted env
          (finish_run m thread x id r env).1
          1
          (count_success (finish_run m thread x id r env).0 0)
        × ((finish_run m thread x id r env).1.notified ≡ id ∷ env.notified)
        × ((finish_run m thread x id r env).1.store ≡ settled m r)
  unfolding finish_run inc_trx_att inc_trx_com measuring
  finish_run-Accounted thread x id (none, s) env e lt = (ground (arith, ap measuring e), refl, refl)
  finish_run-Accounted thread x id (some f, s) env e lt =
      (ground (arith, ap measuring e), refl, refl)

  -- While a measurement runs, requests are run one after the other: then the client is notified of
  -- each of them once and in their order, the counters of the environment grow by the requests and by
  -- those that committed, and the database is that of the transactions one after the other, each
  -- committed, or aborted if it or its commit fails.
  pub run_jobs-Accounted :
      (js : List (Job S)) (env : Env S)
      → env.measure ≡ mst_measure
      → env.env_stats.trx_att < 2 ^ 32
      → env.env_stats.trx_com < 2 ^ 32
      → Accounted env (run_jobs m js env).1 (length js) (run_jobs m js env).0
        × ((run_jobs m js env).1.notified ≡ answered js env.notified)
        × ((run_jobs m js env).1.store ≡ all_settled m env.asynch_commit js env.store)
  unfolding run inc_att
  run_jobs-Accounted [] env e a c = (
    record {
      attempted = omega arith;
      committed = omega arith;
      still_measuring = e;
      same_commit = refl;
    },
    refl,
    refl,
  )
  run_jobs-Accounted (j ∷ js) env e a c =
      let r : Option Error × S = and_then (j.body env.store) (m.commit_xct env.asynch_commit) in
      let env1 : Env S = (run_job m j env).1 in
      let (one, noted, stored) =
        finish_run-Accounted j.thread j.trx j.id r
          (record env { stats = inc_att j.thread j.trx env.stats }) e c in
      let (others, noted', stored') =
        run_jobs-Accounted js env1 one.still_measuring (omega (arith, one.attempted))
          (omega (arith, one.committed)) in
      (
        record {
          attempted = omega (arith, one.attempted, others.attempted);
          committed =
              others.committed
              ∙ ap (λ n. add32 n (run_jobs m js env1).0) one.committed
              ∙ count_success-suc (run_job m j env).0 env.env_stats.trx_com (run_jobs m js env1).0;
          still_measuring = others.still_measuring;
          same_commit = others.same_commit ∙ one.same_commit;
        },
        noted' ∙ ap (answered js) noted,
        stored'
            ∙ ap (λ lazy. all_settled m lazy js env1.store) one.same_commit
            ∙ ap (all_settled m env.asynch_commit js) stored,
      )
