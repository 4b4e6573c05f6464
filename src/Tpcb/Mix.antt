-- ===== src/Tpcb/Mix.antt =====
-- How often the frequencies choose a transaction.
use zapps.Prelude.{ok, ap, ◌%◌, ℕ, zero, suc, ◌+◌, ◌≡◌, arith, min, ◌-◌, leb, if◌then◌else◌}
use zapps.Prelude.Int.{pos, ◌+ℤ◌, ◌-ℤ◌}
use zapps.Shore.Settings.{Settings}
use zapps.Tpcb.Stats.{Trx, mbench_insert_only, mbench_probe_only, mbench_delete_only}
use zapps.Tpcb.Run.{mix, pick_trx, xct_tpcb_mbench_mix}
use zapps.Random.{Source, urand}

pub is_trx : Trx → Trx → ℕ
is_trx mbench_insert_only mbench_insert_only = 1
is_trx mbench_probe_only mbench_probe_only = 1
is_trx mbench_delete_only mbench_delete_only = 1
is_trx x y = 0

-- How many of the numbers from 1 to `n` the mix takes to the transaction.
pub chosen : Settings → Trx → ℕ → ℕ
chosen s x zero = 0
chosen s x (suc n) = chosen s x n + is_trx x (mix s (pos (suc n)))

module _ (s : Settings) (a b : ℕ) (insert : s.insert_freq ≡ pos a)
    (probe : s.probe_freq ≡ pos b) where
  mix_eq :
      (r : ℕ)
      → mix s (pos r) ≡ (
          if leb r a
          then mbench_insert_only
          else (if leb r (a + b) then mbench_probe_only else mbench_delete_only))
  unfolding mix ◌+ℤ◌
  mix_eq r = rw (insert, probe) (ground arith)

  insert_chosen : (n : ℕ) → chosen s mbench_insert_only n ≡ min n a
  unfolding chosen is_trx
  insert_chosen zero = omega arith
  insert_chosen (suc n) = ground (arith, insert_chosen n, mix_eq (suc n))

  probe_chosen : (n : ℕ) → chosen s mbench_probe_only n ≡ min n (a + b) - min n a
  unfolding chosen is_trx
  probe_chosen zero = omega arith
  probe_chosen (suc n) = ground (arith, probe_chosen n, mix_eq (suc n))

  delete_chosen : (n : ℕ) → chosen s mbench_delete_only n ≡ n - (a + b)
  unfolding chosen is_trx
  delete_chosen zero = omega arith
  delete_chosen (suc n) = ground (arith, delete_chosen n, mix_eq (suc n))

module _ {G : Type 0} (source : Source G) (s : Settings) where
  -- A number that the generator gives is taken to one from 1 to 100.
  pick_trx-mix :
      (g : G)
      → pick_trx source s xct_tpcb_mbench_mix g
        ≡ ok (mix s (pos (suc ((source.rand_int g).0 % 100))), (source.rand_int g).1)
  unfolding pick_trx urand ◌+ℤ◌ ◌-ℤ◌
  pick_trx-mix g =
      let n : ℕ = (source.rand_int g).0 % 100 in
      let shifted : pos 1 +ℤ pos n ≡ pos (suc n) = ground arith in
      ap (λ x. ok (mix s x, (source.rand_int g).1)) shifted

  -- With frequencies that add up to 100: for the mixed microbenchmark the dispatch draws one number
  -- and takes it, modulo 100 and plus 1, to a transaction by the frequencies; and of the 100 numbers
  -- that this gives, as many are taken to the insert, the probe and the delete transaction as the
  -- frequency of each says.
  pub mix-chosen :
      (g : G) (a b c : ℕ)
      → s.insert_freq ≡ pos a
      → s.probe_freq ≡ pos b
      → s.delete_freq ≡ pos c
      → a + b + c ≡ 100
      → (pick_trx source s xct_tpcb_mbench_mix g
          ≡ ok (mix s (pos (suc ((source.rand_int g).0 % 100))), (source.rand_int g).1))
        × (chosen s mbench_insert_only 100 ≡ a)
        × (chosen s mbench_probe_only 100 ≡ b)
        × (chosen s mbench_delete_only 100 ≡ c)
  mix-chosen g a b c insert probe delete all = (
    pick_trx-mix g,
    omega (arith, insert_chosen s a b insert probe 100),
    omega (arith, probe_chosen s a b insert probe 100),
    omega (arith, delete_chosen s a b insert probe 100),
  )
