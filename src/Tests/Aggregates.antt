-- ===== src/Tests/Aggregates.antt =====
-- Counts of a short log: the types 2 and 3 are counted, of 5; the ticks have the types 0 and 1.
use zapps.Prelude.{ℕ, ◌≡◌, refl, arith, Bool, List, [], ◌∷◌, ok, ◌==◌, ◌||◌}
use zapps.Aggregate.{is_tick, AggregateHandler, new_handler, finalize, invoke}
use zapps.Aggregate.Counts.{invoke_all, printed, printed-finalize}

abbrev filter : ℕ → Bool
filter i = i == 2 || i == 3

abbrev log : List ℕ
log = 2 ∷ 3 ∷ 0 ∷ 2 ∷ 4 ∷ 1 ∷ 2 ∷ 0 ∷ 2 ∷ []

abbrev started : AggregateHandler
started = record { counts = λ i. 0; filter = filter; interval = 2; current_tick = 0; out = [] }

-- Two ticks make a group.
groups :
    (finalize 5 (invoke_all 0 1 5 started log)).out
    ≡ ((2, 2) ∷ (3, 1) ∷ []) ∷ ((2, 2) ∷ (3, 0) ∷ []) ∷ []
unfolding finalize invoke
groups = refl

printed-finalize_example :
    (h : AggregateHandler) × (new_handler filter 2 7 ≡ ok h)
    × (printed 2 (finalize 5 (invoke_all 0 1 5 h log)).out ≡ 4)
unfolding is_tick
printed-finalize_example =
    printed-finalize 0 1 5 2 (omega arith) refl filter 2 7 log (omega arith) refl (omega arith)
