-- ===== src/Tests/Skewers.antt =====
-- A skewer of the numbers from 0 to 9.
use zapps.Prelude.{ℕ, ◌+◌, ◌<◌, ◌≡◌, refl, arith, false, [], ◌∷◌, length, ok}
use zapps.Prelude.Int.{◌*ℤ◌, ◌+ℤ◌, ◌-ℤ◌, pos}
use zapps.Random.{Source, DrawsIn}
use zapps.Skewer.{Skewer, get_input, set_intervals}
use zapps.Skewer.Draws.{Spans, get_input-DrawsIn}
use zapps.Skewer.Gaps.{lows, highs, gaps}
use zapps.Skewer.Outside.{set_intervals-Spans}

abbrev pub counter : Source ℕ
counter = record { rand_int = λ g. (g, g + 1); zipf_enabled = false; zipf_next = λ n u. n }

abbrev pub fresh : Skewer
fresh = record {
  area = pos 20;
  load = pos 50;
  lower = pos 0;
  upper = pos 9;
  interval_l = [];
  interval_u = [];
  non_interval_l = [];
  non_interval_u = [];
  used = false;
}

abbrev split : Skewer
split = record fresh {
  interval_l = pos 2 ∷ [];
  interval_u = pos 3 ∷ [];
  non_interval_l = pos 0 ∷ pos 4 ∷ [];
  non_interval_u = pos 1 ∷ pos 9 ∷ [];
}

abbrev whole : Skewer
whole = record fresh { interval_l = pos 0 ∷ []; interval_u = pos 9 ∷ [] }

set_intervals-Spans_example :
    (t : Skewer) × (g' : ℕ) × (set_intervals counter fresh 7 ≡ ok (t, g'))
    × Spans t.interval_l t.interval_u
    × Spans t.non_interval_l t.non_interval_u
    × (0 < length t.interval_u)
    × (t.lower ≡ pos 0)
    × (t.upper ≡ pos 9)
    × (t.non_interval_l ≡ lows (gaps (pos 0) (pos 9) t.interval_l t.interval_u))
    × (t.non_interval_u ≡ highs (gaps (pos 0) (pos 9) t.interval_l t.interval_u))
unfolding ◌*ℤ◌ ◌+ℤ◌ ◌-ℤ◌
set_intervals-Spans_example =
    set_intervals-Spans counter fresh 7 (omega arith) (omega arith) (omega arith) tt tt

get_input-DrawsIn_example : DrawsIn counter (get_input counter split 7) (pos 0) (pos 9)
get_input-DrawsIn_example =
    get_input-DrawsIn counter refl split 7 (omega arith) (omega arith, tt)
      (omega arith, (omega arith, tt)) (omega arith) (omega arith)
