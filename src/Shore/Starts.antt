-- ===== src/Shore/Starts.antt =====
-- How `start` ends.
use zapps.Prelude.{
  ℕ, zero, suc, ◌≡◌, ◌≢◌, ◌<◌, refl, ap, sym, subst, ◌∙◌, arith, Bool, true, false, List, [], ◌∷◌,
  ok, >>=-eq-ok, ok-inj, length, ◌⊎◌, inl, inr, ◌==◌, not, assert,
}
use zapps.Shore.Lifecycle.{
  ShoreEnv, Backend, dbc_stopped, live, start, stop, numbers, upd_worker_cnt, start_sm,
  start_opened, coerce, stopped, DbControl, dbc_undef, dbc_paused, dbc_active, assert_empty,
  start_loaded, start_workers, load_cache, open_device,
}

pub stopped-false : (d : DbControl) → d ≢ dbc_stopped → stopped d ≡ false
unfolding stopped
stopped-false dbc_undef h = refl
stopped-false dbc_paused h = refl
stopped-false dbc_active h = refl
stopped-false dbc_stopped h = absurd (h refl)

pub ne_zero : (n : ℕ) → 0 < n → (n == 0) ≡ false
ne_zero n h = ground arith

module _ {S : Type 0} (b : Backend S) (db_workers : ℕ) where
  pub upd_worker_cnt-ok :
      (e : ShoreEnv S)
      → 0 < db_workers
      → upd_worker_cnt b db_workers e ≡ ok (record e { worker_cnt = db_workers })
  unfolding upd_worker_cnt
  upd_worker_cnt-ok e h = rw (ne_zero db_workers h) refl

  pub stop-running :
      (e : ShoreEnv S)
      → e.initialized ≡ true
      → e.dbc ≢ dbc_stopped
      → stop b db_workers e ≡ (0, record e { workers = []; dbc = dbc_stopped })
  unfolding stop
  stop-running e initialized running = rw (stopped-false e.dbc running, initialized) refl

  pub start-initialized : (e : ShoreEnv S) → e.initialized ≡ true → start b db_workers e ≡ ok (5, e)
  unfolding start start_sm start_opened
  start-initialized e h = rw h refl

assert_empty-nil : (ws : List ℕ) {u : Unit {0}} → assert_empty ws ≡ ok u → ws ≡ []
unfolding assert_empty
assert_empty-nil [] h = refl
assert_empty-nil (w ∷ ws) h = cc

pub length-numbers : (n i : ℕ) → length (numbers n i) ≡ n
unfolding numbers
length-numbers zero i = refl
length-numbers (suc n) i = ap suc (length-numbers n (suc i))

module _ {S : Type 0} (b : Backend S) (db_workers : ℕ) where
  pub record Unstarted (e e1 : ShoreEnv S) : Type 0 where
    pub same_dbc : e1.dbc ≡ e.dbc
    pub same_workers : e1.workers ≡ e.workers

  pub record Running (e e1 : ShoreEnv S) : Type 0 where
    pub same_dbc : e1.dbc ≡ e.dbc
    pub none_before : e.workers ≡ []
    pub numbered : e1.workers ≡ numbers db_workers 0
    pub is_initialized : e1.initialized ≡ true
    pub same_manager : e1.pssm ≡ e.pssm

  -- A call of `start` that returns, or a part of it.
  abbrev pub Ends : (e : ShoreEnv S) (code : ℕ) (e1 : ShoreEnv S) → Type 0
  Ends e code e1 = ((code ≢ 0) × Unstarted e e1) ⊎ ((code ≡ 0) × Running e e1)

  start_workers-Ends :
      (e : ShoreEnv S) {r : ℕ × ShoreEnv S} → start_workers b db_workers e ≡ ok r → Ends e r.0 r.1
  unfolding start_workers upd_worker_cnt
  start_workers-Ends e {r = r} h =
      let e0 : ShoreEnv S = record e { initialized = true } in
      let (u, counted, h1) = >>=-eq-ok (upd_worker_cnt b db_workers e0) _ h in
      let (v, test, known) = >>=-eq-ok (assert (not (db_workers == 0))) _ counted in
      let (w, empty, h2) = >>=-eq-ok (assert_empty u.workers) _ h1 in
      let before : record e0 { worker_cnt = db_workers } ≡ u = ok-inj known in
      let after : (0, record u { workers = numbers u.worker_cnt 0 }) ≡ r = ok-inj h2 in
      inr (
        sym (ap (λ x. x.0) after),
        record {
          same_dbc = sym (ap (λ x. x.1.dbc) after) ∙ sym (ap (λ x. x.dbc) before);
          none_before = ap (λ x. x.workers) before ∙ assert_empty-nil u.workers empty;
          numbered =
              sym (ap (λ x. x.1.workers) after) ∙ sym (ap (λ x. numbers x.worker_cnt 0) before);
          is_initialized =
              sym (ap (λ x. x.1.initialized) after) ∙ sym (ap (λ x. x.initialized) before);
          same_manager = sym (ap (λ x. x.1.pssm) after) ∙ sym (ap (λ x. x.pssm) before);
        },
      )

  record Passed (e e1 : ShoreEnv S) : Type 0 where
    pub passed_dbc : e1.dbc ≡ e.dbc
    pub passed_workers : e1.workers ≡ e.workers
    pub passed_pssm : e1.pssm ≡ e.pssm

  Passed-eq : {e e1 : ShoreEnv S} (e2 : ShoreEnv S) → Passed e e2 → e2 ≡ e1 → Passed e e1
  Passed-eq {e} e2 p q = subst (Passed e) q p

  load_cache-Passed :
      (e : ShoreEnv S) (clobber : Bool) {r : ℕ × ShoreEnv S}
      → load_cache b db_workers (record e { clobber = clobber }) ≡ ok r
      → Passed e r.1
  unfolding load_cache
  load_cache-Passed e true h =
      Passed-eq (record e { clobber = true })
        record { passed_dbc = refl; passed_workers = refl; passed_pssm = refl }
        (ap (λ x. x.1) (ok-inj h))
  load_cache-Passed e false h =
      let (s, fids, h1) = >>=-eq-ok (coerce (b.load_fids e.store)) _ h in
      Passed-eq (record e { clobber = false; store = (b.post_init s).1 })
        record { passed_dbc = refl; passed_workers = refl; passed_pssm = refl }
        (ap (λ x. x.1) (ok-inj h1))

  Ends-Passed :
      {e e1 : ShoreEnv S} (e2 : ShoreEnv S) (code : ℕ)
      → Passed e e1
      → Ends e1 code e2
      → Ends e code e2
  Ends-Passed e2 code p (inl (bad, u)) = inl (
    bad,
    record {
      same_dbc = u.same_dbc ∙ p.passed_dbc;
      same_workers = u.same_workers ∙ p.passed_workers;
    },
  )
  Ends-Passed e2 code p (inr (good, u)) = inr (
    good,
    record {
      same_dbc = u.same_dbc ∙ p.passed_dbc;
      none_before = sym p.passed_workers ∙ u.none_before;
      numbered = u.numbered;
      is_initialized = u.is_initialized;
      same_manager = u.same_manager ∙ p.passed_pssm;
    },
  )

  refused :
      (c : ℕ) (e : ShoreEnv S) {r : ℕ × ShoreEnv S} → c ≢ 0 → ok (c, e) ≡ ok r → Ends e r.0 r.1
  refused c e h q =
      subst (λ x. Ends e x.0 x.1) (ok-inj q)
        (inl (h, record { same_dbc = refl; same_workers = refl }))

  start_loaded-Ends :
      (q : ℕ × ShoreEnv S) {r : ℕ × ShoreEnv S}
      → start_loaded b db_workers q ≡ ok r
      → Ends q.1 r.0 r.1
  unfolding start_loaded
  start_loaded-Ends (zero, e) h = start_workers-Ends e h
  start_loaded-Ends (suc c, e) h =
      refused (suc c) e (λ z. omega arith) (rw (ne_zero (suc c) (omega arith)) at h)

  start_opened-Ends :
      (q : ℕ × ShoreEnv S) {r : ℕ × ShoreEnv S}
      → start_opened b db_workers q ≡ ok r
      → Ends q.1 r.0 r.1
  unfolding start_opened
  start_opened-Ends (zero, e) h =
      let (q, cached, h1) = >>=-eq-ok (load_cache b db_workers e) _ h in
      Ends-Passed _ _ (load_cache-Passed e e.clobber cached) (start_loaded-Ends q h1)
  start_opened-Ends (suc c, e) h =
      refused 5 e (λ z. omega arith) (rw (ne_zero (suc c) (omega arith)) at h)

  open_device-Passed :
      (e : ShoreEnv S) (clobber : Bool) {e1 : ShoreEnv S}
      → open_device b db_workers (record e { clobber = clobber }) ≡ ok e1
      → Passed e e1
  unfolding open_device
  open_device-Passed e true h =
      let (s, formatted, h1) = >>=-eq-ok (coerce (b.format e.store)) _ h in
      Passed-eq (record e { clobber = true; store = s; loaded = false })
        record { passed_dbc = refl; passed_workers = refl; passed_pssm = refl } (ok-inj h1)
  open_device-Passed e false h =
      Passed-eq (record e { clobber = false; loaded = true })
        record { passed_dbc = refl; passed_workers = refl; passed_pssm = refl } (ok-inj h)

  pub start-Ends :
      (e : ShoreEnv S) (initialized : Bool) {r : ℕ × ShoreEnv S}
      → start b db_workers (record e { initialized = initialized }) ≡ ok r
      → Ends (record e { pssm = live }) r.0 r.1
  unfolding start start_sm
  start-Ends e true {r = r} h =
      let e0 : ShoreEnv S = record e { initialized = true } in
      let known : (5, e0) ≡ r = ok-inj (sym (start-initialized b db_workers e0 refl) ∙ h) in
      subst (λ x. Ends (record e { pssm = live }) x.0 x.1) known
        (inl ((λ z. omega arith), record { same_dbc = refl; same_workers = refl }))
  start-Ends e false h =
      let e0 : ShoreEnv S = record e {
        initialized = false;
        store = b.create e.store;
        pssm = live;
      } in
      let (q, opened, h1) =
        >>=-eq-ok (start_sm b db_workers (record e { initialized = false })) _ h in
      let (e1, device, known) = >>=-eq-ok (open_device b db_workers e0) _ opened in
      let p : Passed e0 q.1 =
        Passed-eq e1 (open_device-Passed e0 e0.clobber device) (ap (λ x. x.1) (ok-inj known)) in
      Ends-Passed _ _
        record {
          passed_dbc = p.passed_dbc;
          passed_workers = p.passed_workers;
          passed_pssm = p.passed_pssm;
        }
        (start_opened-Ends q h1)
