-- ===== src/Tpcb/Run.antt =====
-- Running a transaction: the wrappers of DEFINE_TRX in src/kits/shore_env.h, and `run_one_xct` of
-- src/kits/tpcb/tpcb_xct.cpp.
-- The bodies of the transactions, with the inputs that they draw, are parameters here, and so are
-- the storage manager's commit and abort. The build has no flusher.
use zapps.Prelude.{
  ℕ, ◌==◌, Bool, true, false, ◌&&◌, not, if◌then◌else◌, Option, none, some, List, ◌∷◌, err,
  assertion,
}
use zapps.Prelude.Int.{ℤ, pos, ◌+ℤ◌, ltb_ℤ, leb_ℤ}
use zapps.Random.{Source, Draw, urand, pure, lift, ◌>>=◌}
use zapps.Manager.Calls.{Error}
use zapps.Manager.Runs.{and_then}
use zapps.Shore.Settings.{Settings}
use zapps.Tpcb.Stats.{
  Trx, StatMap, inc_att, inc_failed, inc_dld, add32, acct_update, mbench_insert_only,
  mbench_delete_only, mbench_probe_only,
}

pub data MeasurementState : Type 0 where
  mst_undef mst_warmup mst_measure mst_done mst_pause : MeasurementState

-- `env_stats_t`
pub record EnvStats : Type 0 where
  pub trx_att : ℕ
  pub trx_com : ℕ

pub record TrxManager (S : Type 0) : Type 0 where
  pub commit_xct : (lazy : Bool) → S → Option Error × S
  pub abort_xct : S → Option Error × S
  pub is_deadlock : Error → Bool

-- The database, the statistics, and the requests of which the client is notified, the last first.
pub record Env (S : Type 0) : Type 0 where
  pub store : S
  pub stats : StatMap
  pub env_stats : EnvStats
  pub measure : MeasurementState
  pub asynch_commit : Bool
  pub notified : List ℕ

unfoldable pub inc_trx_att : EnvStats → EnvStats
inc_trx_att s = record s { trx_att = add32 s.trx_att 1 }

unfoldable pub inc_trx_com : EnvStats → EnvStats
inc_trx_com s = record s { trx_att = add32 s.trx_att 1; trx_com = add32 s.trx_com 1 }

unfoldable pub measuring : MeasurementState → Bool
measuring mst_measure = true
measuring m = false

module _ {S : Type 0} (m : TrxManager S) (thread : ℕ) where
  unfoldable pub count_error : Trx → Error → StatMap → StatMap
  unfolding inc_failed inc_dld
  count_error x e s = if m.is_deadlock e then inc_dld thread x s else inc_failed thread x s

  unfoldable pub finish_run : Trx → ℕ → Option Error × S → Env S → Option Error × Env S
  unfolding count_error inc_trx_att inc_trx_com measuring
  finish_run x id (none, s) env = (
    none,
    record env {
      store = s;
      notified = id ∷ env.notified;
      env_stats = if measuring env.measure then inc_trx_com env.env_stats else env.env_stats;
    },
  )
  finish_run x id (some e, s) env = (
    some e,
    record env {
      store = (m.abort_xct s).1;
      stats = count_error x e env.stats;
      notified = id ∷ env.notified;
      env_stats = if measuring env.measure then inc_trx_att env.env_stats else env.env_stats;
    },
  )

  -- `run_trx` of the request `id`; `body` is `xct_trx`.
  unfoldable pub run : Trx → ℕ → (S → Option Error × S) → Env S → Option Error × Env S
  unfolding finish_run inc_att
  run x id body env =
      finish_run x id (and_then (body env.store) (m.commit_xct env.asynch_commit))
        (record env { stats = inc_att thread x env.stats })

abbrev xct_tpcb_acct_update : ℕ
xct_tpcb_acct_update = 0

abbrev xct_tpcb_mbench_insert_only : ℕ
xct_tpcb_mbench_insert_only = 41

abbrev xct_tpcb_mbench_delete_only : ℕ
xct_tpcb_mbench_delete_only = 42

abbrev xct_tpcb_mbench_probe_only : ℕ
xct_tpcb_mbench_probe_only = 43

abbrev xct_tpcb_mbench_insert_delete : ℕ
xct_tpcb_mbench_insert_delete = 44

abbrev xct_tpcb_mbench_insert_probe : ℕ
xct_tpcb_mbench_insert_probe = 45

abbrev xct_tpcb_mbench_delete_probe : ℕ
xct_tpcb_mbench_delete_probe = 46

abbrev pub xct_tpcb_mbench_mix : ℕ
xct_tpcb_mbench_mix = 47

-- What the frequencies make of a number between 1 and 100.
unfoldable pub mix : Settings → ℤ → Trx
mix s r =
    if leb_ℤ r s.insert_freq
    then mbench_insert_only
    else (if leb_ℤ r (s.insert_freq +ℤ s.probe_freq) then mbench_probe_only else mbench_delete_only)

abbrev above : ℤ → ℤ → Trx → Trx → Trx
above r freq x y = if ltb_ℤ freq r then x else y

module _ {G : Type 0} (source : Source G) where
  -- The transaction that the switch starts.
  unfoldable pub pick_trx : Settings → ℕ → Draw G Trx
  unfolding mix
  pick_trx s type =
      let drawn : (ℤ → Trx) → Draw G Trx =
        λ f. urand source (pos 1) (pos 100) >>= λ r. pure (f r) in
      if type == xct_tpcb_acct_update
      then pure acct_update
      else (if type == xct_tpcb_mbench_insert_only
          then pure mbench_insert_only
          else (if type == xct_tpcb_mbench_delete_only
              then pure mbench_delete_only
              else (if type == xct_tpcb_mbench_probe_only
                  then pure mbench_probe_only
                  else (if type == xct_tpcb_mbench_insert_delete
                      then drawn (λ r. above r s.delete_freq mbench_insert_only mbench_delete_only)
                      else (if type == xct_tpcb_mbench_insert_probe
                          then drawn
                              (λ r. above r s.probe_freq mbench_insert_only mbench_probe_only)
                          else (if type == xct_tpcb_mbench_delete_probe
                              then drawn
                                  (λ r. above r s.delete_freq mbench_probe_only mbench_delete_only)
                              else (if type == xct_tpcb_mbench_mix
                                  then drawn (mix s)
                                  else lift (err assertion))))))))

  -- The alarm is set before the first transaction of an imbalance.
  unfoldable pub set_alarm : Settings → Settings
  set_alarm s =
      if ltb_ℤ (pos 0) s.start_imbalance && not s.alarm_set
      then record s { alarm_set = true }
      else s

  module _ {S : Type 0} (m : TrxManager S) (body : Trx → S → Option Error × S) where
    unfoldable pub run_one_xct :
        ℕ → (id type : ℕ) → Settings × Env S → Draw G (Option Error × Settings × Env S)
    unfolding pick_trx run set_alarm
    run_one_xct thread id type (s, env) = do
      x ← pick_trx (set_alarm s) type
      let r = run m thread x id (body x) env
      pure (r.0, set_alarm s, r.1)
