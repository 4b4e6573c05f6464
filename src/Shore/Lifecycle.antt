-- ===== src/Shore/Lifecycle.antt =====
-- Starting and stopping an environment: `init`, `start`, `stop`, `close`, `restart` and `load` of
-- src/kits/shore_env.cpp, and their versions in src/kits/tpcb/tpcb_env.cpp.
-- The storage manager, and the functions of the benchmark, are parameters. W_COERCE asserts that a
-- call has not failed. The options of the fake disk latency are left out, and so are the processors,
-- which `restart` sets again.
use zapps.Prelude.{
  ℕ, zero, suc, ◌==◌, Bool, true, false, not, if◌then◌else◌, Option, none, some, List, [], ◌∷◌,
  Result, ok, err, assertion, bad_access, assert, ◌>>=◌, ◌>>◌,
}
use zapps.Manager.Calls.{Error}
use zapps.Tpcb.Run.{MeasurementState, mst_measure, mst_pause, mst_undef}

pub data DbControl : Type 0 where
  dbc_undef dbc_paused dbc_active dbc_stopped : DbControl

-- The pointer `_pssm`: deleting what it points at does not reset it.
pub data Handle : Type 0 where
  null live deleted : Handle

-- `workers` are the numbers of the threads that run.
pub record ShoreEnv (S : Type 0) : Type 0 where
  pub store : S
  pub pssm : Handle
  pub dbc : DbControl
  pub clobber : Bool
  pub initialized : Bool
  pub loaded : Bool
  pub measure : MeasurementState
  pub workers : List ℕ
  pub worker_cnt : ℕ

-- The device is formatted and mounted in `format`; `load_fids` runs in a transaction of its own.
pub record Backend (S : Type 0) : Type 0 where
  pub create : S → S
  pub format : S → Option Error × S
  pub config_info : S → Option Error
  pub load_fids : S → Option Error × S
  pub post_init : S → ℕ × S
  pub destroy : S → S
  pub configure_sm : S → ℕ × S
  pub load_schema : S → Option Error × S
  pub update_partitioning : S → Option Error × S
  pub create_tables : S → Option Error × S
  pub load_data : S → Option Error × S

unfoldable pub coerce : {S : Type 0} → Option Error × S → Result S
coerce (none, s) = ok s
coerce (some e, s) = err assertion

-- for (i = 0; i < count; i++)
unfoldable pub numbers : ℕ → ℕ → List ℕ
numbers zero i = []
numbers (suc count) i = i ∷ numbers count (suc i)

unfoldable pub assert_empty : List ℕ → Result (Unit {0})
assert_empty [] = ok tt
assert_empty (w ∷ ws) = err assertion

unfoldable pub stopped : DbControl → Bool
stopped dbc_stopped = true
stopped d = false

unfoldable pub code_of : Option Error → ℕ
code_of none = 0
code_of (some e) = 1

unfoldable pub new_env : {S : Type 0} → S → Bool → ShoreEnv S
new_env s clobber = record {
  store = s;
  pssm = null;
  dbc = dbc_undef;
  clobber = clobber;
  initialized = false;
  loaded = false;
  measure = mst_undef;
  workers = [];
  worker_cnt = 0;
}

-- `db_workers` is the variable `db-workers`.
module _ {S : Type 0} (b : Backend S) (db_workers : ℕ) where
  Call : Type 0
  Call = ShoreEnv S → Result (ℕ × ShoreEnv S)

  -- Creating and mounting the device, unless it is used as it is. The checks of the volume, the
  -- catalogue and the name of the device by w_assert0 are left out.
  unfoldable pub open_device : ShoreEnv S → Result (ShoreEnv S)
  unfolding coerce
  open_device e =
      if e.clobber
      then (coerce (b.format e.store) >>= λ s. ok (record e { store = s; loaded = false }))
      else ok (record e { loaded = true })

  unfoldable pub start_sm : ShoreEnv S → Result (ℕ × ShoreEnv S)
  unfolding open_device code_of
  start_sm e = if e.initialized then ok (1, e) else (do
    e1 ← open_device (record e { store = b.create e.store; pssm = live })
    ok (code_of (b.config_info e1.store), e1))

  unfoldable pub upd_worker_cnt : ShoreEnv S → Result (ShoreEnv S)
  upd_worker_cnt e = do assert (not (db_workers == 0)); ok (record e { worker_cnt = db_workers })

  unfoldable pub start_workers : ShoreEnv S → Result (ℕ × ShoreEnv S)
  unfolding upd_worker_cnt assert_empty numbers
  start_workers e = do
    e1 ← upd_worker_cnt (record e { initialized = true })
    assert_empty e1.workers
    ok (0, record e1 { workers = numbers e1.worker_cnt 0 })

  -- What is cached of a database that is there already.
  unfoldable pub load_cache : ShoreEnv S → Result (ℕ × ShoreEnv S)
  unfolding coerce
  load_cache e = if e.clobber then ok (0, e) else (do
    s ← coerce (b.load_fids e.store)
    let r = b.post_init s
    ok (r.0, record e { store = r.1 }))

  unfoldable pub start_loaded : ℕ × ShoreEnv S → Result (ℕ × ShoreEnv S)
  unfolding start_workers
  start_loaded (rval, e) = if rval == 0 then start_workers e else ok (rval, e)

  unfoldable pub start_opened : ℕ × ShoreEnv S → Result (ℕ × ShoreEnv S)
  unfolding load_cache start_loaded
  start_opened (code, e) = if code == 0 then (load_cache e >>= start_loaded) else ok (5, e)

  unfoldable pub start : ShoreEnv S → Result (ℕ × ShoreEnv S)
  unfolding start_sm start_opened
  start e = start_sm e >>= start_opened

  -- All workers are stopped, joined and deleted.
  unfoldable pub stop : ShoreEnv S → ℕ × ShoreEnv S
  unfolding stopped
  stop e =
      if stopped e.dbc
      then (0, e)
      else (if e.initialized then (0, record e { workers = []; dbc = dbc_stopped }) else (1, e))

  -- A manager that has been deleted is still called.
  unfoldable pub close_sm : ShoreEnv S → Result (ℕ × ShoreEnv S)
  close_sm e = elim e.pssm [
    | null ↦ ok (1, e)
    | live ↦ ok (0, record e { store = b.destroy e.store; pssm = deleted })
    | deleted ↦ err bad_access
  ]

  unfoldable pub close_stopped : ℕ × ShoreEnv S → Result (ℕ × ShoreEnv S)
  unfolding close_sm
  close_stopped (r, e) =
      if r == 0 then (close_sm e >>= λ c. ok (0, record c.1 { initialized = false })) else ok (r, e)

  unfoldable pub close : ShoreEnv S → Result (ℕ × ShoreEnv S)
  unfolding close_stopped stop
  close e = close_stopped (stop e)

  -- The codes of `stop` and `start` are not looked at.
  unfoldable pub restart : ShoreEnv S → Result (ℕ × ShoreEnv S)
  unfolding stop upd_worker_cnt start
  restart e = do e1 ← upd_worker_cnt (stop e).1; r ← start e1; ok (0, r.1)

  -- What `init` does after the options are read.
  unfoldable pub init_schema : ℕ × S → ShoreEnv S → ℕ × ShoreEnv S
  init_schema (suc c, s) e = (2, record e { store = s })
  init_schema (zero, s) e =
      let schema = b.load_schema s in
      let parts = b.update_partitioning schema.1 in
      elim schema.0 [
        | some x ↦ (3, record e { store = schema.1 })
        | none ↦ elim parts.0 [
          | some x ↦ (4, record e { store = parts.1 })
          | none ↦ (0, record e { store = parts.1 })
        ]
      ]

  unfoldable pub init : ShoreEnv S → ℕ × ShoreEnv S
  unfolding init_schema
  init e = if e.initialized then (0, e) else init_schema (b.configure_sm e.store) e

  unfoldable pub load_created : Option Error × S → ShoreEnv S → Option Error × ShoreEnv S
  load_created (some x, s) e = (some x, record e { store = s })
  load_created (none, s) e =
      let r = b.load_data s in
      elim r.0 [
        | some x ↦ (some x, record e { store = r.1; measure = mst_measure })
        | none ↦ (none, record e { store = r.1; measure = mst_pause; loaded = true })
      ]

  unfoldable pub load : ShoreEnv S → Option Error × ShoreEnv S
  unfolding load_created
  load e = if e.loaded then (none, e) else load_created (b.create_tables e.store) e
