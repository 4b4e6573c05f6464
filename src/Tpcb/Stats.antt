-- ===== src/Tpcb/Stats.antt =====
-- The statistics of the transactions: src/kits/tpcb/tpcb_env.h, the counters of
-- src/kits/shore_env.h, and `_get_stats`, `reset_stats` and `print_throughput` of
-- src/kits/tpcb/tpcb_xct.cpp. Counters are 32-bit numbers.
use zapps.Prelude.{ℕ, ◌+◌, ◌-◌, ◌%◌, ◌^◌, ◌==◌, if◌then◌else◌, List, [], ◌∷◌}

-- The transactions that DEFINE_TRX defines.
pub data Trx : Type 0 where
  acct_update populate_db : Trx
  mbench_insert_only mbench_delete_only mbench_probe_only : Trx
  mbench_insert_delete mbench_insert_probe mbench_delete_probe mbench_mix : Trx

pub record TrxCount : Type 0 where
  pub acct_update : ℕ
  pub populate_db : ℕ
  pub mbench_insert_only : ℕ
  pub mbench_delete_only : ℕ
  pub mbench_probe_only : ℕ
  pub mbench_insert_delete : ℕ
  pub mbench_insert_probe : ℕ
  pub mbench_delete_probe : ℕ
  pub mbench_mix : ℕ

abbrev pub add32 : ℕ → ℕ → ℕ
add32 a b = (a + b) % 2 ^ 32

abbrev pub sub32 : ℕ → ℕ → ℕ
sub32 a b = (a + 2 ^ 32 - b) % 2 ^ 32

-- `operator+=` and `operator-=`, which leave `populate_db` alone.
unfoldable pub add_count : TrxCount → TrxCount → TrxCount
add_count a b = record a {
  acct_update = add32 a.acct_update b.acct_update;
  mbench_insert_only = add32 a.mbench_insert_only b.mbench_insert_only;
  mbench_delete_only = add32 a.mbench_delete_only b.mbench_delete_only;
  mbench_probe_only = add32 a.mbench_probe_only b.mbench_probe_only;
  mbench_insert_delete = add32 a.mbench_insert_delete b.mbench_insert_delete;
  mbench_insert_probe = add32 a.mbench_insert_probe b.mbench_insert_probe;
  mbench_delete_probe = add32 a.mbench_delete_probe b.mbench_delete_probe;
  mbench_mix = add32 a.mbench_mix b.mbench_mix;
}

unfoldable pub sub_count : TrxCount → TrxCount → TrxCount
sub_count a b = record a {
  acct_update = sub32 a.acct_update b.acct_update;
  mbench_insert_only = sub32 a.mbench_insert_only b.mbench_insert_only;
  mbench_delete_only = sub32 a.mbench_delete_only b.mbench_delete_only;
  mbench_probe_only = sub32 a.mbench_probe_only b.mbench_probe_only;
  mbench_insert_delete = sub32 a.mbench_insert_delete b.mbench_insert_delete;
  mbench_insert_probe = sub32 a.mbench_insert_probe b.mbench_insert_probe;
  mbench_delete_probe = sub32 a.mbench_delete_probe b.mbench_delete_probe;
  mbench_mix = sub32 a.mbench_mix b.mbench_mix;
}

unfoldable pub total : TrxCount → ℕ
total c =
    (c.acct_update + c.mbench_insert_only + c.mbench_delete_only + c.mbench_probe_only
      + c.mbench_insert_delete + c.mbench_insert_probe + c.mbench_delete_probe + c.mbench_mix)
    % 2 ^ 32

-- ++count.trx
unfoldable pub inc : Trx → TrxCount → TrxCount
inc acct_update c = record c { acct_update = add32 c.acct_update 1 }
inc populate_db c = record c { populate_db = add32 c.populate_db 1 }
inc mbench_insert_only c = record c { mbench_insert_only = add32 c.mbench_insert_only 1 }
inc mbench_delete_only c = record c { mbench_delete_only = add32 c.mbench_delete_only 1 }
inc mbench_probe_only c = record c { mbench_probe_only = add32 c.mbench_probe_only 1 }
inc mbench_insert_delete c = record c { mbench_insert_delete = add32 c.mbench_insert_delete 1 }
inc mbench_insert_probe c = record c { mbench_insert_probe = add32 c.mbench_insert_probe 1 }
inc mbench_delete_probe c = record c { mbench_delete_probe = add32 c.mbench_delete_probe 1 }
inc mbench_mix c = record c { mbench_mix = add32 c.mbench_mix 1 }

pub record TrxStats : Type 0 where
  pub attempted : TrxCount
  pub failed : TrxCount
  pub deadlocked : TrxCount

unfoldable pub add_stats : TrxStats → TrxStats → TrxStats
unfolding add_count
add_stats a b = record {
  attempted = add_count a.attempted b.attempted;
  failed = add_count a.failed b.failed;
  deadlocked = add_count a.deadlocked b.deadlocked;
}

unfoldable pub sub_stats : TrxStats → TrxStats → TrxStats
unfolding sub_count
sub_stats a b = record {
  attempted = sub_count a.attempted b.attempted;
  failed = sub_count a.failed b.failed;
  deadlocked = sub_count a.deadlocked b.deadlocked;
}

-- The statistics of each thread, `my_stats`; the threads of which `_statmap` holds a pointer to
-- them; and the statistics gathered last.
pub record StatMap : Type 0 where
  pub my_stats : ℕ → TrxStats
  pub threads : List ℕ
  pub last_stats : TrxStats

without : ℕ → List ℕ → List ℕ
without t [] = []
without t (u ∷ us) = if u == t then without t us else u ∷ without t us

unfoldable pub env_thread_init : ℕ → StatMap → StatMap
unfolding without
env_thread_init t m = record m { threads = t ∷ without t m.threads }

unfoldable pub env_thread_fini : ℕ → StatMap → StatMap
unfolding without
env_thread_fini t m = record m { threads = without t m.threads }

unfoldable pub sum_stats : (ℕ → TrxStats) → List ℕ → TrxStats → TrxStats
unfolding add_stats
sum_stats stats [] r = r
sum_stats stats (t ∷ ts) r = sum_stats stats ts (add_stats r (stats t))

-- The result starts as the difference of what its memory holds with itself.
unfoldable pub get_stats : TrxStats → StatMap → TrxStats
unfolding sum_stats sub_stats
get_stats garbage m = sum_stats m.my_stats m.threads (sub_stats garbage garbage)

unfoldable pub reset_stats : TrxStats → StatMap → StatMap
unfolding get_stats
reset_stats garbage m = record m { last_stats = get_stats garbage m }

-- The number of transactions of which `print_throughput` prints the rate.
unfoldable pub throughput : TrxStats → StatMap → ℕ
unfolding get_stats sub_stats total
throughput garbage m =
    let current : TrxStats = sub_stats (get_stats garbage m) m.last_stats in
    sub32 (sub32 (total current.attempted) (total current.failed)) (total current.deadlocked)

abbrev pub update : {A : Type 0} → (ℕ → A) → ℕ → A → ℕ → A
update f t a u = if u == t then a else f u

-- `_inc_trx_att`, `_inc_trx_failed` and `_inc_trx_dld`, by a thread
unfoldable pub inc_att : ℕ → Trx → StatMap → StatMap
unfolding inc
inc_att t x m = record m {
  my_stats =
      update m.my_stats t (record (m.my_stats t) { attempted = inc x (m.my_stats t).attempted });
}

unfoldable pub inc_failed : ℕ → Trx → StatMap → StatMap
unfolding inc
inc_failed t x m = record m {
  my_stats = update m.my_stats t (record (m.my_stats t) { failed = inc x (m.my_stats t).failed });
}

unfoldable pub inc_dld : ℕ → Trx → StatMap → StatMap
unfolding inc
inc_dld t x m = record m {
  my_stats =
      update m.my_stats t (record (m.my_stats t) { deadlocked = inc x (m.my_stats t).deadlocked });
}
