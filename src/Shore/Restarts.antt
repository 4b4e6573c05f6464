-- ===== src/Shore/Restarts.antt =====
-- Restarting an environment, and closing it after a start.
use zapps.Prelude.{
  ℕ, ◌≡◌, ◌≢◌, ◌<◌, refl, ap, sym, ◌∙◌, true, false, [], ok, err, bad_access, length, inl, inr,
}
use zapps.Shore.Lifecycle.{
  ShoreEnv, Backend, dbc_stopped, live, deleted, start, stop, close, restart, close_stopped,
  close_sm, stopped,
}
use zapps.Shore.Starts.{
  stop-running, start-initialized, upd_worker_cnt-ok, length-numbers, start-Ends,
}

module _ {S : Type 0} (b : Backend S) (db_workers : ℕ) where
  -- A restart of an environment that runs, with a number of workers that is not 0: it returns 0, and
  -- afterwards no worker runs.
  pub restart-none :
      (e : ShoreEnv S)
      → e.initialized ≡ true
      → e.dbc ≢ dbc_stopped
      → 0 < db_workers
      → (e' : ShoreEnv S) × (restart b db_workers e ≡ ok (0, e'))
        × (e'.workers ≡ [])
        × (e'.dbc ≡ dbc_stopped)
  unfolding restart
  restart-none e initialized running workers =
      let e1 : ShoreEnv S = record e { workers = []; dbc = dbc_stopped; worker_cnt = db_workers } in
      (
        e1,
        rw
            (
              stop-running b db_workers e initialized running,
              upd_worker_cnt-ok b db_workers (record e { workers = []; dbc = dbc_stopped }) workers,
              start-initialized b db_workers e1 initialized,
            )
            refl,
        refl,
        refl,
      )

  close-running :
      (e : ShoreEnv S)
      → e.initialized ≡ true
      → e.dbc ≢ dbc_stopped
      → e.pssm ≡ live
      → (e' : ShoreEnv S) × (close b db_workers e ≡ ok (0, e'))
        × (e'.workers ≡ [])
        × (e'.pssm ≡ deleted)
        × (e'.initialized ≡ false)
        × (e'.dbc ≡ dbc_stopped)
  unfolding close close_stopped close_sm
  close-running e initialized running manager = (
    record e {
      store = b.destroy e.store;
      workers = [];
      dbc = dbc_stopped;
      pssm = deleted;
      initialized = false;
    },
    rw (stop-running b db_workers e initialized running, manager) refl,
    refl,
    refl,
    refl,
    refl,
  )

  close-deleted :
      (e : ShoreEnv S)
      → e.dbc ≡ dbc_stopped
      → e.pssm ≡ deleted
      → close b db_workers e ≡ err bad_access
  unfolding close close_stopped close_sm stop stopped
  close-deleted e d manager = rw (d, manager) refl

  -- If an environment is not stopped and `start` returns 0, then no worker ran before it, as many run
  -- as there shall be, and the storage manager is there; and then `close` returns 0, stops them all
  -- and deletes the storage manager; and a second `close` calls the deleted one.
  pub close-start :
      (e e1 : ShoreEnv S)
      → e.dbc ≢ dbc_stopped
      → start b db_workers e ≡ ok (0, e1)
      → (e.workers ≡ [])
        × (length e1.workers ≡ db_workers)
        × (e1.pssm ≡ live)
        × ((e2 : ShoreEnv S) × (close b db_workers e1 ≡ ok (0, e2))
            × (e2.workers ≡ [])
            × (e2.pssm ≡ deleted)
            × (e2.initialized ≡ false)
            × (e2.dbc ≡ dbc_stopped)
            × (close b db_workers e2 ≡ err bad_access))
  close-start e e1 running started = elim (start-Ends b db_workers e e.initialized started) [
    | inl (bad, u) ↦ absurd (bad refl)
    | inr (good, u) ↦
        let (e2, closed, none_left, gone, forgotten, at_end) =
          close-running e1 u.is_initialized (λ z. running (sym u.same_dbc ∙ z)) u.same_manager in
        (
          u.none_before,
          ap length u.numbered ∙ length-numbers db_workers 0,
          u.same_manager,
          (e2, closed, none_left, gone, forgotten, at_end, close-deleted e2 at_end gone),
        )
  ]
