-- ===== src/Shore/Stuck.antt =====
-- An environment that is started again after it has been stopped.
use zapps.Prelude.{
  err, bad_access, false, zero, suc, arith, ℕ, ◌≡◌, ◌≢◌, refl, sym, subst, ◌∙◌, arith, List, [],
  ◌∷◌, ok, ok-inj, inl, inr, Result, ap, ◌<◌, ◌>>=◌, >>=-eq-ok, length, assert, not, ◌==◌, suc,
}
use zapps.Shore.Lifecycle.{
  ShoreEnv, Backend, dbc_stopped, live, deleted, start, stop, init, load, close_stopped, close_sm,
  stopped, Handle, null, init_schema, load_created, restart, upd_worker_cnt, close, numbers,
}
use zapps.Shore.Starts.{start-Ends, length-numbers}

pub data Operation : Type 0 where
  op_init op_start op_stop op_close op_restart op_load : Operation

some_numbers : (n i : ℕ) → 0 < n → (ws : List ℕ) × (numbers n i ≡ i ∷ ws)
unfolding numbers
some_numbers zero i h = absurd (omega arith)
some_numbers (suc n) i h = (numbers n (suc i), refl)

nonempty : (w : ℕ) (ws : List ℕ) → w ∷ ws ≢ []
nonempty w ws e = cc

module _ {S : Type 0} (b : Backend S) (db_workers : ℕ) where
  abbrev pub apply : Operation → ShoreEnv S → Result (ShoreEnv S)
  apply op_init e = ok (init b db_workers e).1
  apply op_start e = start b db_workers e >>= λ r. ok r.1
  apply op_stop e = ok (stop b db_workers e).1
  apply op_close e = close b db_workers e >>= λ r. ok r.1
  apply op_restart e = restart b db_workers e >>= λ r. ok r.1
  apply op_load e = ok (load b db_workers e).1

  abbrev pub apply_all : List Operation → ShoreEnv S → Result (ShoreEnv S)
  apply_all [] e = ok e
  apply_all (op ∷ ops) e = apply op e >>= apply_all ops

  -- Once the environment has been stopped, `start` does not change that, and `stop` does nothing.
  record Stuck (ws : List ℕ) (e : ShoreEnv S) : Type 0 where
    pub is_stopped : e.dbc ≡ dbc_stopped
    pub same_workers : e.workers ≡ ws

  stop-Stuck : (ws : List ℕ) (e : ShoreEnv S) → Stuck ws e → stop b db_workers e ≡ (0, e)
  unfolding stop stopped
  stop-Stuck ws e s = rw s.is_stopped refl

  start-Stuck :
      (w : ℕ) (ws : List ℕ) (e : ShoreEnv S) {r : ℕ × ShoreEnv S}
      → Stuck (w ∷ ws) e
      → start b db_workers e ≡ ok r
      → Stuck (w ∷ ws) r.1
  start-Stuck w ws e s started = elim (start-Ends b db_workers e e.initialized started) [
    | inl (bad, u) ↦ record {
      is_stopped = u.same_dbc ∙ s.is_stopped;
      same_workers = u.same_workers ∙ s.same_workers;
    }
    | inr (good, u) ↦ absurd (nonempty w ws (sym s.same_workers ∙ u.none_before))
  ]

  close-Stuck :
      (ws : List ℕ) (e : ShoreEnv S) (h : Handle) {r : ℕ × ShoreEnv S}
      → Stuck ws e
      → close_stopped b db_workers (0, record e { pssm = h }) ≡ ok r
      → Stuck ws r.1
  unfolding close_stopped close_sm
  close-Stuck ws e null s h =
      subst (λ x. Stuck ws x.1) (ok-inj h)
        record { is_stopped = s.is_stopped; same_workers = s.same_workers }
  close-Stuck ws e live s h =
      subst (λ x. Stuck ws x.1) (ok-inj h)
        record { is_stopped = s.is_stopped; same_workers = s.same_workers }
  close-Stuck ws e deleted s h = cc

  -- What `close` does where `stop` does nothing: it deletes the storage manager and stops no worker.
  abbrev pub close_running : ShoreEnv S → Result (ℕ × ShoreEnv S)
  close_running e = elim e.pssm [
    | null ↦ ok (0, record e { initialized = false })
    | live ↦ ok (0, record e { store = b.destroy e.store; pssm = deleted; initialized = false })
    | deleted ↦ err bad_access
  ]

  close_stopped-close_running :
      (e : ShoreEnv S) (h : Handle)
      → close_stopped b db_workers (0, record e { pssm = h })
        ≡ close_running (record e { pssm = h })
  unfolding close_stopped close_sm
  close_stopped-close_running e null = refl
  close_stopped-close_running e live = refl
  close_stopped-close_running e deleted = refl

  close-close_running :
      (ws : List ℕ) (e : ShoreEnv S) → Stuck ws e → close b db_workers e ≡ close_running e
  unfolding close
  close-close_running ws e s =
      ap (close_stopped b db_workers) (stop-Stuck ws e s) ∙ close_stopped-close_running e e.pssm

  init-Stuck : (ws : List ℕ) (e : ShoreEnv S) → Stuck ws e → Stuck ws (init b db_workers e).1
  unfolding init init_schema
  init-Stuck ws e s = ground arith

  load-Stuck : (ws : List ℕ) (e : ShoreEnv S) → Stuck ws e → Stuck ws (load b db_workers e).1
  unfolding load load_created
  load-Stuck ws e s = ground arith

  close-called :
      (ws : List ℕ) (e : ShoreEnv S) {r : ℕ × ShoreEnv S}
      → Stuck ws e
      → close b db_workers e ≡ ok r
      → Stuck ws r.1
  unfolding close
  close-called ws e {r = r} s h =
      close-Stuck ws e e.pssm s
        (subst (λ x. close_stopped b db_workers x ≡ ok r) (stop-Stuck ws e s) h)

  restart-Stuck :
      (w : ℕ) (ws : List ℕ) (e : ShoreEnv S) {r : ℕ × ShoreEnv S}
      → Stuck (w ∷ ws) e
      → restart b db_workers e ≡ ok r
      → Stuck (w ∷ ws) r.1
  unfolding restart upd_worker_cnt
  restart-Stuck w ws e s h =
      let (e1, counted, h1) = >>=-eq-ok (upd_worker_cnt b db_workers (stop b db_workers e).1) _ h in
      let (u, test, known) = >>=-eq-ok (assert (not (db_workers == 0))) _ counted in
      let (q, started, h2) = >>=-eq-ok (start b db_workers e1) _ h1 in
      let s1 : Stuck (w ∷ ws) (stop b db_workers e).1 =
        subst (λ x. Stuck (w ∷ ws) x.1) (sym (stop-Stuck (w ∷ ws) e s)) s in
      let s2 : Stuck (w ∷ ws) e1 =
        subst (Stuck (w ∷ ws)) (ok-inj known)
          record { is_stopped = s1.is_stopped; same_workers = s1.same_workers } in
      subst (λ x. Stuck (w ∷ ws) x.1) (ok-inj h2) (start-Stuck w ws e1 s2 started)

  apply-Stuck :
      (op : Operation) (w : ℕ) (ws : List ℕ) (e : ShoreEnv S) {e1 : ShoreEnv S}
      → Stuck (w ∷ ws) e
      → apply op e ≡ ok e1
      → Stuck (w ∷ ws) e1
  apply-Stuck op_init w ws e s h = subst (Stuck (w ∷ ws)) (ok-inj h) (init-Stuck (w ∷ ws) e s)
  apply-Stuck op_load w ws e s h = subst (Stuck (w ∷ ws)) (ok-inj h) (load-Stuck (w ∷ ws) e s)
  apply-Stuck op_stop w ws e s h =
      subst (Stuck (w ∷ ws)) (ap (λ x. x.1) (sym (stop-Stuck (w ∷ ws) e s)) ∙ ok-inj h) s
  apply-Stuck op_start w ws e s h =
      let (r, started, known) = >>=-eq-ok (start b db_workers e) _ h in
      subst (Stuck (w ∷ ws)) (ok-inj known) (start-Stuck w ws e s started)
  apply-Stuck op_restart w ws e s h =
      let (r, restarted, known) = >>=-eq-ok (restart b db_workers e) _ h in
      subst (Stuck (w ∷ ws)) (ok-inj known) (restart-Stuck w ws e s restarted)
  apply-Stuck op_close w ws e s h =
      let (r, closed, known) = >>=-eq-ok (close b db_workers e) _ h in
      subst (Stuck (w ∷ ws)) (ok-inj known) (close-called (w ∷ ws) e s closed)

  apply_all-Stuck :
      (ops : List Operation) (w : ℕ) (ws : List ℕ) (e : ShoreEnv S) {e1 : ShoreEnv S}
      → Stuck (w ∷ ws) e
      → apply_all ops e ≡ ok e1
      → Stuck (w ∷ ws) e1
  apply_all-Stuck [] w ws e s h = subst (Stuck (w ∷ ws)) (ok-inj h) s
  apply_all-Stuck (op ∷ ops) w ws e s h =
      let (e1, first, rest) = >>=-eq-ok (apply op e) (apply_all ops) h in
      apply_all-Stuck ops w ws e1 (apply-Stuck op w ws e s first) rest

  -- When an environment that has been stopped is started again, with workers, then they run for
  -- good: whatever calls follow, as long as they return, the same workers run; and a `close` after
  -- these calls stops none of them and, if the storage manager is there, deletes it.
  pub restarted-Stuck :
      (e e1 e2 : ShoreEnv S) (ops : List Operation)
      → 0 < db_workers
      → e.dbc ≡ dbc_stopped
      → start b db_workers e ≡ ok (0, e1)
      → apply_all ops e1 ≡ ok e2
      → (length e2.workers ≡ db_workers)
        × (e2.workers ≡ e1.workers)
        × (close b db_workers e2 ≡ close_running e2)
  restarted-Stuck e e1 e2 ops some_workers at_end started h =
      elim (start-Ends b db_workers e e.initialized started) [
        | inl (bad, u) ↦ absurd (bad refl)
        | inr (good, u) ↦
            let (ws, many) = some_numbers db_workers 0 some_workers in
            let stuck =
              apply_all-Stuck ops 0 ws e1
                record { is_stopped = u.same_dbc ∙ at_end; same_workers = u.numbered ∙ many } h in
            let same : e2.workers ≡ e1.workers = stuck.same_workers ∙ sym many ∙ sym u.numbered in
            (
              ap length (same ∙ u.numbered) ∙ length-numbers db_workers 0,
              same,
              close-close_running (0 ∷ ws) e2 stuck,
            )
      ]
