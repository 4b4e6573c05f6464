-- ===== src/Tpcb/Sums.antt =====
-- Totals of statistics, modulo the size of a counter.
use zapps.Prelude.{
  ℕ, ◌-◌, ◌^◌, ◌≡◌, ◌≢◌, ◌⊎◌, inl, inr, ◌<◌, arith, List, [], ◌∷◌, refl, ◌∙◌, ap, sym, subst,
}
use zapps.Tpcb.Stats.{
  Trx, populate_db, TrxCount, TrxStats, add32, sub32, add_count, sub_count, total, inc, add_stats,
  sub_stats, sum_stats, update, StatMap, inc_att, inc_failed, inc_dld,
}

pub total-lt : (c : TrxCount) → total c < 2 ^ 32
unfolding total
total-lt c = omega arith

pub total-add_count : (a b : TrxCount) → total (add_count a b) ≡ add32 (total a) (total b)
unfolding total add_count
total-add_count a b = omega arith

-- What a counter can hold.
pub record IsBounded (c : TrxCount) : Type 0 where
  pub acct_update_lt : c.acct_update < 2 ^ 32
  pub mbench_insert_only_lt : c.mbench_insert_only < 2 ^ 32
  pub mbench_delete_only_lt : c.mbench_delete_only < 2 ^ 32
  pub mbench_probe_only_lt : c.mbench_probe_only < 2 ^ 32
  pub mbench_insert_delete_lt : c.mbench_insert_delete < 2 ^ 32
  pub mbench_insert_probe_lt : c.mbench_insert_probe < 2 ^ 32
  pub mbench_delete_probe_lt : c.mbench_delete_probe < 2 ^ 32
  pub mbench_mix_lt : c.mbench_mix < 2 ^ 32

pub total-sub_count :
    (a b : TrxCount) → IsBounded b → total (sub_count a b) ≡ sub32 (total a) (total b)
unfolding total sub_count
total-sub_count a b h = omega arith

pub add_count-IsBounded : (a b : TrxCount) → IsBounded (add_count a b)
unfolding add_count
add_count-IsBounded a b = omega arith

pub sub_count-IsBounded : (a b : TrxCount) → IsBounded (sub_count a b)
unfolding sub_count
sub_count-IsBounded a b = omega arith

pub total-inc : (x : Trx) (c : TrxCount) → x ≢ populate_db → total (inc x c) ≡ add32 (total c) 1
unfolding total inc
total-inc populate_db c h = absurd (h refl)
total-inc x c h = omega arith

-- Attempted, less failed and deadlocked.
unfoldable pub net : TrxStats → ℕ
net s = sub32 (sub32 (total s.attempted) (total s.failed)) (total s.deadlocked)

pub net-lt : (s : TrxStats) → net s < 2 ^ 32
unfolding net
net-lt s = omega arith

pub net-add_stats : (a b : TrxStats) → net (add_stats a b) ≡ add32 (net a) (net b)
unfolding net add_stats
net-add_stats a b = omega (arith, total-add_count, total-lt)

pub record AreBounded (s : TrxStats) : Type 0 where
  pub attempted_bounded : IsBounded s.attempted
  pub failed_bounded : IsBounded s.failed
  pub deadlocked_bounded : IsBounded s.deadlocked

pub net-sub_stats : (a b : TrxStats) → AreBounded b → net (sub_stats a b) ≡ sub32 (net a) (net b)
unfolding net sub_stats
net-sub_stats a b h = omega (
  arith,
  total-sub_count a.attempted b.attempted h.attempted_bounded,
  total-sub_count a.failed b.failed h.failed_bounded,
  total-sub_count a.deadlocked b.deadlocked h.deadlocked_bounded,
  total-lt,
)

pub nets : (ℕ → TrxStats) → List ℕ → ℕ
nets f [] = 0
nets f (t ∷ ts) = add32 (net (f t)) (nets f ts)

pub net-sum_stats :
    (f : ℕ → TrxStats) (ts : List ℕ) (r : TrxStats)
    → net (sum_stats f ts r) ≡ add32 (net r) (nets f ts)
unfolding sum_stats nets
net-sum_stats f [] r = omega (arith, net-lt)
net-sum_stats f (t ∷ ts) r =
    omega (arith, net-sum_stats f ts (add_stats r (f t)), net-add_stats r (f t))

pub sum_stats-AreBounded :
    (f : ℕ → TrxStats) (ts : List ℕ) (r : TrxStats) → AreBounded r → AreBounded (sum_stats f ts r)
unfolding sum_stats add_stats
sum_stats-AreBounded f [] r h = h
sum_stats-AreBounded f (t ∷ ts) r h = sum_stats-AreBounded f ts (add_stats r (f t)) record {
  attempted_bounded = add_count-IsBounded r.attempted (f t).attempted;
  failed_bounded = add_count-IsBounded r.failed (f t).failed;
  deadlocked_bounded = add_count-IsBounded r.deadlocked (f t).deadlocked;
}

pub net-nothing : (r : TrxStats) → net (sub_stats r r) ≡ 0
unfolding net sub_stats sub_count total
net-nothing r = omega arith

abbrev pub Fresh : ℕ → List ℕ → Type 0
Fresh t [] = Unit {0}
Fresh t (u ∷ us) = (u ≢ t) × Fresh t us

-- No thread stands in the list twice.
abbrev pub AreDistinct : List ℕ → Type 0
AreDistinct [] = Unit {0}
AreDistinct (t ∷ ts) = Fresh t ts × AreDistinct ts

abbrev pub Among : ℕ → List ℕ → Type 0
Among t [] = ⊥
Among t (u ∷ us) = (u ≡ t) ⊎ Among t us

nets-Fresh :
    (f : ℕ → TrxStats) (t : ℕ) (s : TrxStats) (ts : List ℕ)
    → Fresh t ts
    → nets (update f t s) ts ≡ nets f ts
unfolding nets
nets-Fresh f t s [] h = refl
nets-Fresh f t s (u ∷ us) h = ground (arith, nets-Fresh f t s us h.1)

update-at : (f : ℕ → TrxStats) (t u : ℕ) (s : TrxStats) → u ≡ t → update f t s u ≡ s
update-at f t u s h = ground arith

update-other : (f : ℕ → TrxStats) (t u : ℕ) (s : TrxStats) → u ≢ t → update f t s u ≡ f u
update-other f t u s h = ground arith

Fresh-Among : (t u : ℕ) (us : List ℕ) → Fresh u us → Among t us → u ≢ t
Fresh-Among t u [] h m e = m
Fresh-Among t u (v ∷ us) h (inl here) e = h.0 (here ∙ sym e)
Fresh-Among t u (v ∷ us) h (inr there) e = Fresh-Among t u us h.1 there e

-- A thread's own statistics change the sum once.
nets-update :
    (f : ℕ → TrxStats) (t k : ℕ) (s : TrxStats) (ts : List ℕ)
    → AreDistinct ts
    → Among t ts
    → net s ≡ add32 (net (f t)) k
    → nets (update f t s) ts ≡ add32 (nets f ts) k
unfolding nets
nets-update f t k s [] d m e = absurd m
nets-update f t k s (u ∷ us) d (inl here) e = omega (
  arith,
  ap net (update-at f t u s here),
  nets-Fresh f t s us (subst (λ v. Fresh v us) here d.0),
  ap (λ v. net (f v)) here,
  e,
)
nets-update f t k s (u ∷ us) d (inr there) e = omega (
  arith,
  ap net (update-other f t u s (Fresh-Among t u us d.0 there)),
  nets-update f t k s us d.1 there e,
)

pub nets-lt : (f : ℕ → TrxStats) (ts : List ℕ) → nets f ts < 2 ^ 32
unfolding nets
nets-lt f [] = omega arith
nets-lt f (t ∷ ts) = omega arith

-- One transaction more that was attempted, or that did not end well.
module _ (t : ℕ) (x : Trx) (m : StatMap) (d : AreDistinct m.threads) (among : Among t m.threads)
    (h : x ≢ populate_db) where
  pub inc_att-nets : nets (inc_att t x m).my_stats m.threads ≡ add32 (nets m.my_stats m.threads) 1
  unfolding inc_att net
  inc_att-nets =
      nets-update m.my_stats t 1 _ m.threads d among
        (omega (arith, total-inc x (m.my_stats t).attempted h, total-lt))

  pub inc_failed-nets :
      nets (inc_failed t x m).my_stats m.threads ≡ add32 (nets m.my_stats m.threads) (2 ^ 32 - 1)
  unfolding inc_failed net
  inc_failed-nets =
      nets-update m.my_stats t (2 ^ 32 - 1) _ m.threads d among
        (omega (arith, total-inc x (m.my_stats t).failed h, total-lt))

  pub inc_dld-nets :
      nets (inc_dld t x m).my_stats m.threads ≡ add32 (nets m.my_stats m.threads) (2 ^ 32 - 1)
  unfolding inc_dld net
  inc_dld-nets =
      nets-update m.my_stats t (2 ^ 32 - 1) _ m.threads d among
        (omega (arith, total-inc x (m.my_stats t).deadlocked h, total-lt))
