-- ===== src/Shore/Settings.antt =====
-- The settings of an environment: factors, processors, frequencies and skew.
-- The scaling and the queried factor are integers that are stored as doubles.
use zapps.Prelude.{
  ℕ, Bool, true, false, ◌&&◌, if◌then◌else◌, ◌==◌, ltb, assert, Result, ok, err, assertion,
}
use zapps.Prelude as Base
use zapps.Prelude.Int.{ℤ, pos, ltb_ℤ, leb_ℤ}
use zapps.Random.{Source, Draw, urand, pure, lift, ◌>>=◌, ◌>>◌}
use zapps.Skewer.{SkewType, skew_normal, skew_dynamic, skew_chaotic}

pub record Settings : Type 0 where
  pub scaling_factor : ℤ
  pub queried_factor : ℤ
  pub max_cpu_count : ℕ
  pub active_cpu_count : ℕ
  pub insert_freq : ℤ
  pub delete_freq : ℤ
  pub probe_freq : ℤ
  pub alarm_set : Bool
  pub start_imbalance : ℤ
  pub skew_type : SkewType

unfoldable pub set_qf : ℤ → Settings → Settings
set_qf qf s =
    if ltb_ℤ (pos 0) qf && leb_ℤ qf s.scaling_factor then record s { queried_factor = qf } else s

unfoldable pub set_sf : ℤ → Settings → Settings
set_sf sf s = if ltb_ℤ (pos 0) sf then record s { scaling_factor = sf } else s

unfoldable pub set_max_cpu_count : ℕ → Settings → Settings
set_max_cpu_count count s =
    let limit : ℕ = if ltb 0 count then count else s.max_cpu_count in
    record s {
      max_cpu_count = limit;
      active_cpu_count = if ltb limit s.active_cpu_count then limit else s.active_cpu_count;
    }

unfoldable pub set_active_cpu_count : ℕ → Settings → Settings
set_active_cpu_count count s = record s {
  active_cpu_count = if ltb 0 count then count else s.active_cpu_count;
}

-- With the options for the processors; those that are there are counted if the limit is 0.
unfoldable pub set_sys_params : ℕ → ℕ → Settings → Settings
set_sys_params hard soft s =
    let limit : ℕ = if s.max_cpu_count == 0 then hard else s.max_cpu_count in
    record s { max_cpu_count = limit; active_cpu_count = if ltb limit soft then limit else soft }

percentage : ℤ → Bool
percentage f = leb_ℤ (pos 0) f && leb_ℤ f (pos 100)

unfoldable pub set_freqs : ℤ → ℤ → ℤ → Settings → Result Settings
unfolding percentage
set_freqs insert delete probe s =
    Base.◌>>◌ (assert (percentage insert && percentage delete && percentage probe))
      (ok (record s { insert_freq = insert; delete_freq = delete; probe_freq = probe }))

-- The type of a skew, by its number.
unfoldable pub skew_of : ℤ → Result SkewType
skew_of n =
    if ltb_ℤ n (pos 6)
    then ok skew_normal
    else (if ltb_ℤ n (pos 9)
        then ok skew_dynamic
        else (if ltb_ℤ n (pos 11) then ok skew_chaotic else err assertion))

module _ {G : Type 0} (source : Source G) where
  draw_type : ℤ → Draw G ℤ
  draw_type n = if leb_ℤ n (pos 0) then urand source (pos 1) (pos 10) else pure n

  unfoldable pub set_skew : (area load start n : ℤ) → Settings → Draw G Settings
  unfolding draw_type skew_of percentage
  set_skew area load start n s = do
    lift (assert (percentage load))
    lift (assert (ltb_ℤ (pos 0) start))
    lift (assert (ltb_ℤ (pos 0) area && ltb_ℤ area (pos 100)))
    m ← draw_type n
    k ← lift (skew_of m)
    pure (record s { start_imbalance = start; skew_type = k })

  moves : SkewType → Bool
  moves skew_dynamic = true
  moves skew_chaotic = true
  moves k = false

  unfoldable pub start_load_imbalance : Settings → Draw G Settings
  unfolding moves
  start_load_imbalance s =
      if moves s.skew_type
      then (do
        start ← urand source (pos 10) (pos 30)
        pure (record s { start_imbalance = start; alarm_set = false }))
      else pure s

unfoldable pub reset_skew : Settings → Settings
reset_skew s = record s { start_imbalance = pos 0; alarm_set = false }
