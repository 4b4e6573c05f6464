-- ===== src/Tpcb/Imbalance.antt =====
-- The imbalance of the load: `set_skew`, `start_load_imbalance` and `reset_skew` of
-- src/kits/tpcb/tpcb_env.cpp, which set the skewers of branches, tellers and accounts.
use zapps.Prelude.{Bool, true, false, if◌then◌else◌}
use zapps.Prelude.Int.{ℤ, pos, ◌-ℤ◌, ltb_ℤ}
use zapps.Random.{Source, Draw, urand, pure, ◌>>=◌}
use zapps.Skewer.{SkewType, skew_chaotic, Skewer, set_skewer, reset, clear, is_used}
use zapps.Shore.Settings
use zapps.Shore.Settings.{Settings}
use zapps.Tpcb.{tellers_per_branch, accounts_per_branch}
use zapps.Tpcb.Input.{Skews}

is_chaotic : SkewType → Bool
is_chaotic skew_chaotic = true
is_chaotic k = false

module _ {G : Type 0} (source : Source G) where
  unfoldable pub set_skew : (area load start n : ℤ) → Settings × Skews → Draw G (Settings × Skews)
  unfolding Settings.set_skew set_skewer
  set_skew area load start n (s, k) = do
    s' ← Settings.set_skew source area load start n s
    b ← set_skewer source k.b_skewer area (pos 0) (s'.scaling_factor -ℤ pos 1) load
    t ← set_skewer source k.t_skewer area (pos 0) (pos tellers_per_branch -ℤ pos 1) load
    a ← set_skewer source k.a_skewer area (pos 0) (pos accounts_per_branch -ℤ pos 1) load
    pure (s', record k { b_skewer = b; t_skewer = t; a_skewer = a })

  -- Only if the skewer of the branches has been used; `is_used` marks it.
  reset_skewers : SkewType → Bool × Skewer → Skews → Draw G Skews
  unfolding reset
  reset_skewers type (false, b) k = pure (record k { b_skewer = b })
  reset_skewers type (true, b) k = do
    b' ← reset source type b
    t ← reset source type k.t_skewer
    a ← reset source type k.a_skewer
    pure record { b_skewer = b'; t_skewer = t; a_skewer = a; change_load = false }

  change_load : SkewType → Skews → Draw G Skews
  unfolding is_chaotic
  change_load type k =
      if is_chaotic type
      then (do
        r ← urand source (pos 1) (pos 100)
        pure (if ltb_ℤ (pos 30) r then record k { change_load = true } else k))
      else pure (record k { change_load = true })

  unfoldable pub start_load_imbalance : Settings × Skews → Draw G (Settings × Skews)
  unfolding is_used reset_skewers change_load Settings.start_load_imbalance
  start_load_imbalance (s, k) = do
    k' ← reset_skewers s.skew_type (is_used k.b_skewer) k
    k2 ← change_load s.skew_type k'
    s' ← Settings.start_load_imbalance source s
    pure (s', k2)

unfoldable pub reset_skew : Settings × Skews → Settings × Skews
unfolding Settings.reset_skew clear
reset_skew (s, k) = (
  Settings.reset_skew s,
  record {
    b_skewer = clear k.b_skewer;
    t_skewer = clear k.t_skewer;
    a_skewer = clear k.a_skewer;
    change_load = false;
  },
)
