-- ===== src/Tests/Shores.antt =====
-- Starting and stopping an environment at concrete inputs.
use zapps.Prelude.{
  ℕ, ◌+◌, ◌≡◌, refl, arith, true, false, [], ◌∷◌, none, length, ok, err, bad_access,
}
use zapps.Shore.Lifecycle.{
  Backend, ShoreEnv, null, dbc_undef, start, stop, close, live, deleted, dbc_stopped,
}
use zapps.Tpcb.Run.{mst_undef}
use zapps.Shore.Restarts.{close-start}
use zapps.Shore.Stuck.{op_stop, apply_all, restarted-Stuck}

-- Each call writes 1.
abbrev backend : Backend ℕ
backend = record {
  create = λ s. s + 1;
  format = λ s. (none, s + 1);
  config_info = λ s. none;
  load_fids = λ s. (none, s + 1);
  post_init = λ s. (0, s + 1);
  destroy = λ s. s + 1;
  configure_sm = λ s. (0, s + 1);
  load_schema = λ s. (none, s + 1);
  update_partitioning = λ s. (none, s + 1);
  create_tables = λ s. (none, s + 1);
  load_data = λ s. (none, s + 1);
}

-- An environment that has been started on a new device, with two workers, then closed, then
-- started again, then closed again.
abbrev fresh : ShoreEnv ℕ
fresh = record {
  store = 0;
  pssm = null;
  dbc = dbc_undef;
  clobber = true;
  initialized = false;
  loaded = false;
  measure = mst_undef;
  workers = [];
  worker_cnt = 0;
}

abbrev running : ShoreEnv ℕ
running = record fresh {
  store = 2;
  pssm = live;
  initialized = true;
  workers = 0 ∷ 1 ∷ [];
  worker_cnt = 2;
}

abbrev closed : ShoreEnv ℕ
closed = record running {
  store = 3;
  pssm = deleted;
  dbc = dbc_stopped;
  initialized = false;
  workers = [];
}

abbrev again : ShoreEnv ℕ
again = record closed { store = 5; pssm = live; initialized = true; workers = 0 ∷ 1 ∷ [] }

abbrev at_end : ShoreEnv ℕ
at_end = record again { store = 6; pssm = deleted; initialized = false }

fresh-start : start backend 2 fresh ≡ ok (0, running)
unfolding start
fresh-start = refl

running-close : close backend 2 running ≡ ok (0, closed)
unfolding close
running-close = refl

closed-start : start backend 2 closed ≡ ok (0, again)
unfolding start
closed-start = refl

again_stop : apply_all backend 2 (op_stop ∷ []) again ≡ ok again
unfolding stop
again_stop = refl

close-start_example :
    (fresh.workers ≡ [])
    × (length running.workers ≡ 2)
    × (running.pssm ≡ live)
    × ((e2 : ShoreEnv ℕ) × (close backend 2 running ≡ ok (0, e2))
        × (e2.workers ≡ [])
        × (e2.pssm ≡ deleted)
        × (e2.initialized ≡ false)
        × (e2.dbc ≡ dbc_stopped)
        × (close backend 2 e2 ≡ err bad_access))
close-start_example = close-start backend 2 fresh running (λ e. cc) fresh-start

restarted-Stuck_example :
    (length again.workers ≡ 2)
    × (again.workers ≡ again.workers)
    × (close backend 2 again ≡ ok (0, at_end))
restarted-Stuck_example =
    restarted-Stuck backend 2 closed again again (op_stop ∷ []) (omega arith) refl closed-start
      again_stop
