-- ===== src/Aggregate.antt =====
-- Counts of log records: `AggregateHandler` of src/loginspect/agglog.h and agglog.cpp.
-- A record is its type. The number of types and those of the ticks are the storage manager's. A
-- line of the output is the list of its columns, each with the type that the header prints for it.
pub mod Counts
use zapps.Prelude.{
  ℕ, zero, suc, ◌+◌, ◌%◌, ◌^◌, Bool, ◌||◌, ◌&&◌, ◌==◌, ltb, if◌then◌else◌, List, [], ◌∷◌, ◌++◌,
  Result, ok, assert, ◌>>◌,
}

-- `counts` and `current_tick` are machine integers of 32 bits; `out` is what has been printed.
pub record AggregateHandler : Type 0 where
  pub counts : ℕ → ℕ
  pub filter : ℕ → Bool
  pub interval : ℕ
  pub current_tick : ℕ
  pub out : List (List (ℕ × ℕ))

-- The columns of `count` types from number `n` on.
unfoldable pub columns_from : (ℕ → Bool) → (ℕ → ℕ) → ℕ → ℕ → List (ℕ × ℕ)
columns_from filter counts zero n = []
columns_from filter counts (suc count) n =
    let rest = columns_from filter counts count (suc n) in
    if filter n then (n, counts n) ∷ rest else rest

-- `current` is what stands in `currentTick`, which is not initialised.
unfoldable pub new_handler : (ℕ → Bool) → (interval current : ℕ) → Result AggregateHandler
new_handler filter interval current = do
  assert (ltb 0 interval)
  ok record {
    counts = λ i. 0;
    filter = filter;
    interval = interval;
    current_tick = current;
    out = [];
  }

module _ (max_logrec : ℕ) where
  unfoldable pub dump_counts : AggregateHandler → AggregateHandler
  unfolding columns_from
  dump_counts h = record h {
    counts = λ i. if ltb i max_logrec && h.filter i then 0 else h.counts i;
    out = h.out ++ (columns_from h.filter h.counts max_logrec 0 ∷ []);
  }

  unfoldable pub count_tick : AggregateHandler → AggregateHandler
  unfolding dump_counts
  count_tick h =
      let tick : ℕ = (h.current_tick + 1) % 2 ^ 32 in
      if tick == h.interval
      then dump_counts (record h { current_tick = 0 })
      else record h { current_tick = tick }

  unfoldable pub finalize : AggregateHandler → AggregateHandler
  unfolding dump_counts
  finalize h = dump_counts h

unfoldable pub count_type : AggregateHandler → ℕ → AggregateHandler
count_type h type = record h {
  counts = λ i. if i == type then (h.counts type + 1) % 2 ^ 32 else h.counts i;
}

module _ (tick_sec tick_msec : ℕ) where
  unfoldable pub is_tick : ℕ → Bool
  is_tick type = type == tick_sec || type == tick_msec

  unfoldable pub invoke : ℕ → AggregateHandler → ℕ → AggregateHandler
  unfolding is_tick count_tick count_type
  invoke max_logrec h type =
      if is_tick type
      then count_tick max_logrec h
      else if h.filter type
      then count_type h type
      else h
