-- ===== src/Aggregate/Counts.antt =====
-- The numbers that the handler prints.
use zapps.Prelude.{
  subst, ℕ, zero, suc, ◌+◌, ◌≤◌, ◌<◌, ◌≡◌, ◌^◌, refl, ◌∙◌, ap, arith, inl, inr, Bool, true, false,
  ◌==◌, if◌then◌else◌, List, [], ◌∷◌, ◌++◌, ok, Bool-cases, lt→ltb,
}
use zapps.Aggregate.{
  AggregateHandler, columns_from, new_handler, dump_counts, is_tick, count_tick, invoke, finalize,
  count_type,
}

-- What the column of a type holds in a line, and in all lines together.
abbrev pub column : ℕ → List (ℕ × ℕ) → ℕ
column t [] = 0
column t ((n, c) ∷ line) = (if n == t then c else 0) + column t line

abbrev pub printed : ℕ → List (List (ℕ × ℕ)) → ℕ
printed t [] = 0
printed t (line ∷ lines) = column t line + printed t lines

-- How many records are of a type.
abbrev pub number : ℕ → List ℕ → ℕ
number t [] = 0
number t (r ∷ rs) = (if r == t then 1 else 0) + number t rs

printed-append :
    (t : ℕ) (xs : List (List (ℕ × ℕ))) (line : List (ℕ × ℕ))
    → printed t (xs ++ (line ∷ [])) ≡ printed t xs + column t line
printed-append t [] line = ground arith
printed-append t (x ∷ xs) line = let ih = printed-append t xs line in ground arith

columns_from-before :
    (f : ℕ → Bool) (c : ℕ → ℕ) (k n t : ℕ) → t < n → column t (columns_from f c k n) ≡ 0
unfolding columns_from
columns_from-before f c zero n t lt = refl
columns_from-before f c (suc k) n t lt =
    let ih = columns_from-before f c k (suc n) t (ground arith) in ground arith

columns_from-at :
    (f : ℕ → Bool) (c : ℕ → ℕ) (k n t : ℕ)
    → n ≤ t
    → t < n + k
    → f t ≡ true
    → column t (columns_from f c k n) ≡ c t
unfolding columns_from
columns_from-at f c zero n t le lt on = ground arith
columns_from-at f c (suc k) n t le lt on = elim (Bool-cases (n == t)) [
  | inl same ↦
      let rest = columns_from-before f c k (suc n) t (ground arith) in
      let e : n ≡ t = ground arith in ground arith
  | inr other ↦
      let ih = columns_from-at f c k (suc n) t (ground arith) (ground arith) on in ground arith
]

module _ (tick_sec tick_msec max_logrec : ℕ) where
  abbrev pub invoke_all : AggregateHandler → List ℕ → AggregateHandler
  invoke_all h [] = h
  invoke_all h (r ∷ rs) = invoke_all (invoke tick_sec tick_msec max_logrec h r) rs

  module _ (t : ℕ) (valid : t < max_logrec) (untick : is_tick tick_sec tick_msec t ≡ false) where
    -- The type is counted: what has been printed of it and what is still counted make `n`.
    abbrev Tracks : ℕ → AggregateHandler → Type 0
    Tracks n h = (printed t h.out + h.counts t ≡ n) × (h.filter t ≡ true)

    if-Tracks :
        (b : Bool) (n : ℕ) (x y : AggregateHandler)
        → Tracks n x
        → Tracks n y
        → Tracks n (if b then x else y)
    if-Tracks true n x y hx hy = hx
    if-Tracks false n x y hx hy = hy

    dump_counts-printed :
        (n : ℕ) (h : AggregateHandler) → Tracks n h → printed t (dump_counts max_logrec h).out ≡ n
    unfolding dump_counts
    dump_counts-printed n h (seen, on) =
        let here =
          columns_from-at h.filter h.counts max_logrec 0 t (ground arith) (ground arith) on in
        printed-append t h.out (columns_from h.filter h.counts max_logrec 0)
        ∙ ap (λ c. printed t h.out + c) here
        ∙ seen

    dump_counts-Tracks :
        (n : ℕ) (h : AggregateHandler) → Tracks n h → Tracks n (dump_counts max_logrec h)
    unfolding dump_counts
    dump_counts-Tracks n h (seen, on) =
        let all = dump_counts-printed n h (seen, on) in
        let none_left : (dump_counts max_logrec h).counts t ≡ 0 =
          rw (lt→ltb t max_logrec valid) (rw on refl) in
        (omega (arith, all, none_left), on)

    count_tick-Tracks :
        (n : ℕ) (h : AggregateHandler) → Tracks n h → Tracks n (count_tick max_logrec h)
    unfolding count_tick
    count_tick-Tracks n h tracks =
        if-Tracks _ n _ _ (dump_counts-Tracks n (record h { current_tick = 0 }) tracks) tracks

    count_type-Tracks :
        (n : ℕ) (h : AggregateHandler)
        → n + 1 < 2 ^ 32
        → Tracks n h
        → Tracks (n + 1) (count_type h t)
    unfolding count_type
    count_type-Tracks n h small (seen, on) = (ground arith, on)

    count_type-other :
        (n r : ℕ) (h : AggregateHandler) → (r == t) ≡ false → Tracks n h → Tracks n (count_type h r)
    unfolding count_type
    count_type-other n r h other (seen, on) = (ground arith, on)

    invoke-same :
        (n : ℕ) (h : AggregateHandler)
        → n + 1 < 2 ^ 32
        → Tracks n h
        → Tracks (n + 1) (invoke tick_sec tick_msec max_logrec h t)
    unfolding invoke
    invoke-same n h small (seen, on) = rw untick (rw on (count_type-Tracks n h small (seen, on)))

    invoke-other :
        (n r : ℕ) (h : AggregateHandler)
        → (r == t) ≡ false
        → Tracks n h
        → Tracks n (invoke tick_sec tick_msec max_logrec h r)
    unfolding invoke
    invoke-other n r h other tracks =
        if-Tracks (is_tick tick_sec tick_msec r) n (count_tick max_logrec h)
          (if h.filter r then count_type h r else h) (count_tick-Tracks n h tracks)
          (if-Tracks (h.filter r) n (count_type h r) h (count_type-other n r h other tracks) tracks)

    invoke_all-Tracks :
        (rs : List ℕ) (n : ℕ) (h : AggregateHandler)
        → n + number t rs < 2 ^ 32
        → Tracks n h
        → Tracks (n + number t rs) (invoke_all h rs)
    invoke_all-Tracks [] n h small tracks =
        let e : n ≡ n + 0 = omega arith in subst (λ m. Tracks m h) e tracks
    invoke_all-Tracks (r ∷ rs) n h small tracks = elim (Bool-cases (r == t)) [
      | inl same ↦
          let e : t ≡ r = ground arith in
          let all : n + 1 + number t rs ≡ n + number t (r ∷ rs) = ground arith in
          let step : AggregateHandler → ℕ → AggregateHandler =
            invoke tick_sec tick_msec max_logrec in
          subst (λ m. Tracks m (invoke_all (step h r) rs)) all
            (invoke_all-Tracks rs (n + 1) (step h r) (omega arith)
              (subst (λ u. Tracks (n + 1) (step h u)) e (invoke-same n h (omega arith) tracks)))
      | inr other ↦
          let all : n + number t rs ≡ n + number t (r ∷ rs) = ground arith in
          let h' = invoke tick_sec tick_msec max_logrec h r in
          subst (λ m. Tracks m (invoke_all h' rs)) all
            (invoke_all-Tracks rs n h' (omega arith) (invoke-other n r h other tracks))
    ]

    -- If fewer than 2 ^ 32 records of a type are counted, where it is one of the types to count and
    -- is not a tick: whatever stands in the uninitialised tick and wherever the ticks are, the
    -- numbers that are printed in its column up to the end of the log add up to the number of its
    -- records.
    pub printed-finalize :
        (filter : ℕ → Bool) (interval current : ℕ) (rs : List ℕ)
        → 0 < interval
        → filter t ≡ true
        → number t rs < 2 ^ 32
        → (h : AggregateHandler) × (new_handler filter interval current ≡ ok h)
          × (printed t (finalize max_logrec (invoke_all h rs)).out ≡ number t rs)
    unfolding new_handler finalize
    printed-finalize filter interval current rs some_ticks on small =
        let h : AggregateHandler = record {
          counts = λ i. 0;
          filter = filter;
          interval = interval;
          current_tick = current;
          out = [];
        } in
        let zero_add : 0 + number t rs ≡ number t rs = omega arith in
        (
          h,
          rw (lt→ltb 0 interval some_ticks) refl,
          dump_counts-printed (0 + number t rs) (invoke_all h rs)
                (invoke_all-Tracks rs 0 h (omega arith) (refl, on))
              ∙ zero_add,
        )
