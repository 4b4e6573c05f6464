-- ===== src/Tpcb/Batches.antt =====
-- How often each account is added, by each part of the loader.
use zapps.Prelude.{
  subst, sym, ℕ, zero, suc, ◌+◌, ◌-◌, ◌*◌, ◌<◌, ◌≡◌, refl, ◌∙◌, ap, arith, List, [], ◌∷◌, Option,
  none, if◌then◌else◌, ltb, leb, ◌==◌, ◌&&◌, ◌≤◌, lt→ltb, ◌/◌, ◌^◌,
}
use zapps.Prelude.Int.{to_int, to_int-pos, to_int-negsuc, pos, negsuc, sub_ℕ}
use zapps.Manager.Calls.{Error}
use zapps.Manager.Runs.{and_then}
use zapps.Tpcb.Loader.{
  Tables, each, populate_rows, xct_populate_db, creator_work, populate_account, builder_loop,
  load_data, load_with, builder_work,
}
use native.Mathlib.Nat.{mul_comm, suc-mul}

-- Tables that keep the list of the accounts added.
abbrev pub recorder : Tables (List ℕ)
recorder = record {
  add_branch = λ s b. (none, s);
  add_teller = λ s t b. (none, s);
  add_account = λ s a b. (none, a ∷ s);
  commit = λ s. (none, s);
}

abbrev pub count : ℕ → List ℕ → ℕ
count a [] = 0
count a (x ∷ xs) = (if a == x then 1 else 0) + count a xs

-- Whether `a` is one of the `n` numbers from `first` on.
abbrev pub hits : ℕ → ℕ → ℕ → ℕ
hits a first n = if leb first a && ltb a (first + n) then 1 else 0

-- The step succeeds, and adds account `a` as often as `k` says.
abbrev pub Adds : (List ℕ → Option Error × List ℕ) → (ℕ → ℕ) → Type 0
Adds f k =
    (s : List ℕ) → (s' : List ℕ) × (f s ≡ (none, s')) × ((a : ℕ) → count a s' ≡ k a + count a s)

and_then-Adds :
    (f g : List ℕ → Option Error × List ℕ) (k l : ℕ → ℕ)
    → Adds f k
    → Adds g l
    → Adds (λ s. and_then (f s) g) (λ a. k a + l a)
and_then-Adds f g k l first second s =
    let (s1, e1, c1) = first s in
    let (s2, e2, c2) = second s1 in
    (s2, ap (λ r. and_then r g) e1 ∙ e2, λ a. omega (arith, c1 a, c2 a))

none-Adds : Adds (λ s. (none, s)) (λ a. 0)
none-Adds s = (s, refl, λ a. omega arith)

-- The sum of `k i` over `n` numbers from `i` on.
abbrev pub sum : (ℕ → ℕ → ℕ) → ℕ → ℕ → ℕ → ℕ
sum k zero i a = 0
sum k (suc n) i a = k i a + sum k n (suc i) a

each-Adds :
    (f : ℕ → List ℕ → Option Error × List ℕ) (k : ℕ → ℕ → ℕ) (n i : ℕ)
    → ((j : ℕ) → j < i + n → Adds (f j) (k j))
    → Adds (each n i f) (sum k n i)
unfolding each
each-Adds f k zero i h = none-Adds
each-Adds f k (suc n) i h =
    and_then-Adds (f i) (each n (suc i) f) (k i) (sum k n (suc i)) (h i (omega arith))
      (each-Adds f k n (suc i) (λ j lt. h j (omega (arith, lt))))

-- A part lies in the whole.
pub part-le : (a j n : ℕ) → j < n → a * j + a ≤ a * n
part-le a j n lt = grind arith

module _ (sf tellers per_branch per : ℕ) where
  -- The account with index `j` of a transaction.
  abbrev nth_last : ℕ → ℕ → ℕ → ℕ
  nth_last first j b = if b == first + (per - j - 1) then 1 else 0

  -- The accounts of a transaction come from the last one down to the first one.
  sum-nth_last : (first n i a : ℕ) → i + n ≡ per → sum (nth_last first) n i a ≡ hits a first n
  sum-nth_last first zero i a e = ground arith
  sum-nth_last first (suc n) i a e =
      let rest = sum-nth_last first n (suc i) a (omega arith) in
      let here : first + (per - i - 1) ≡ first + n = omega arith in rw (here, rest) (ground arith)

  accounts-Adds :
      (first : ℕ)
      → Adds
          (xct_populate_db recorder tellers per_branch per sf (pos first))
          (λ a. hits a first per)
  unfolding xct_populate_db populate_rows populate_account
  accounts-Adds first s =
      let (s', e, c) =
        each-Adds (populate_account recorder tellers per_branch per first) (nth_last first) per 0
          (λ j lt t. (_, refl, λ a. refl)) s in
      (s', rw e refl, λ a. c a ∙ ap (λ n. n + count a s) (sum-nth_last first per 0 a (omega arith)))

  int-Adds :
      (first : ℕ)
      → first < 2 ^ 31
      → Adds
          (xct_populate_db recorder tellers per_branch per sf (to_int (pos first)))
          (λ a. hits a first per)
  int-Adds first small =
      subst
        (λ z. Adds (xct_populate_db recorder tellers per_branch per sf z) (λ a. hits a first per))
        (sym (to_int-pos first small)) (accounts-Adds first)

  none_added :
      (f : ℕ → List ℕ → Option Error × List ℕ) (n i : ℕ)
      → ((j : ℕ) (s : List ℕ) → f j s ≡ (none, s))
      → (s : List ℕ) → each n i f s ≡ (none, s)
  unfolding each
  none_added f zero i h s = refl
  none_added f (suc n) i h s =
      ap (λ r. and_then r (each n (suc i) f)) (h i s) ∙ none_added f n (suc i) h s

  tables-Adds :
      (n : ℕ) → Adds (xct_populate_db recorder tellers per_branch per sf (negsuc n)) (λ a. 0)
  unfolding xct_populate_db populate_rows
  tables-Adds n s = (
    s,
    rw (none_added _ sf 0 (λ j t. refl) s, none_added _ (sf * tellers) 0 (λ j t. refl) s) refl,
    λ a. omega arith,
  )

  creator-Adds :
      (psize pcount : ℕ)
      → 0 < psize
      → psize * pcount ≤ 2 ^ 31
      → psize < 2 ^ 31
      → Adds
          (creator_work recorder tellers per_branch per sf psize pcount)
          (λ a. 0 + sum (λ i b. hits b (i * psize) per) pcount 0 a)
  unfolding creator_work
  creator-Adds zero pcount h fits one_fits = absurd (omega arith)
  creator-Adds (suc p) pcount h fits one_fits =
      let minus : negsuc p ≡ sub_ℕ 0 (suc p) = ground arith in
      let first : negsuc p ≡ to_int (sub_ℕ 0 (suc p)) =
        sym (to_int-negsuc p (omega (arith, one_fits))) ∙ ap to_int minus in
      and_then-Adds (xct_populate_db recorder tellers per_branch per sf (to_int (sub_ℕ 0 (suc p))))
        _ (λ a. 0) (sum (λ i a. hits a (i * suc p) per) pcount 0)
        (subst (λ z. Adds (xct_populate_db recorder tellers per_branch per sf z) (λ a. 0)) first
          (tables-Adds p))
        (each-Adds _ (λ i a. hits a (i * suc p) per) pcount 0
          (λ i lt.
            let part = part-le (suc p) i pcount (omega (arith, lt)) in
            let turned : i * suc p ≡ suc p * i = mul_comm i (suc p) in
            int-Adds (i * suc p) (omega (arith, part, fits, turned))))

  hits-append : (a first m n : ℕ) → hits a first m + hits a (first + m) n ≡ hits a first (m + n)
  hits-append a first m n = ground arith

  -- `m` rounds are left, the last of which may run over the end.
  builder_loop-Adds :
      (start total fuel i m : ℕ)
      → m ≤ fuel
      → total ≤ i + m * per
      → i + m * per < total + per
      → start + total ≤ 2 ^ 31
      → Adds
          (builder_loop recorder tellers per_branch per sf start total fuel i)
          (λ a. hits a (start + i) (m * per))
  unfolding builder_loop
  builder_loop-Adds start total zero i zero le lo hi fits = λ s. (s, refl, λ a. ground arith)
  builder_loop-Adds start total zero i (suc m) le lo hi fits = absurd (omega arith)
  builder_loop-Adds start total (suc fuel) i zero le lo hi fits =
      λ s. (s, ground arith, λ a. ground arith)
  builder_loop-Adds start total (suc fuel) i (suc m) le lo hi fits =
      let size : suc m * per ≡ m * per + per = suc-mul m per in
      let next =
        builder_loop-Adds start total fuel (i + per) m (omega arith) (omega (arith, lo, size))
          (omega (arith, hi, size)) fits in
      let joined : (a : ℕ)
          → hits a (start + i) per + hits a (start + (i + per)) (m * per)
            ≡ hits a (start + i) (suc m * per) =
        λ a. ground (arith, size) in
      let both =
        and_then-Adds
          (xct_populate_db recorder tellers per_branch per sf (to_int (pos (start + i))))
          (builder_loop recorder tellers per_branch per sf start total fuel (i + per)) _ _
          (int-Adds (start + i) (omega (arith, hi, size, fits))) next in
      rw (lt→ltb i total (omega (arith, hi, size)))
        (λ s. let (s', e, c) = both s in (s', e, λ a. c a ∙ ap (λ n. n + count a s) (joined a)))

  le-mul : (n : ℕ) → 0 < per → n ≤ n * per
  le-mul zero h = omega arith
  le-mul (suc n) h = omega (arith, suc-mul n per, le-mul n h)

  rounds-le : (m total : ℕ) → 0 < per → m * per < total + per → m ≤ total
  rounds-le zero total h hi = omega arith
  rounds-le (suc m) total h hi = omega (arith, suc-mul m per, le-mul m h, hi)

  -- Each builder makes `m` rounds.
  data-Adds :
      (apw loaders m : ℕ)
      → 0 < per
      → apw - per ≤ m * per
      → m * per < apw - per + per
      → per ≤ apw
      → apw * loaders ≤ 2 ^ 31
      → Adds
          (load_data recorder tellers per_branch per sf loaders apw)
          (sum (λ i a. hits a (apw * i + per + 0) (m * per)) loaders 0)
  unfolding load_data builder_work
  data-Adds apw loaders m some_there lo hi large fits =
      each-Adds _ (λ i a. hits a (apw * i + per + 0) (m * per)) loaders 0
        (λ i lt.
          let part = part-le apw i loaders (omega (arith, lt)) in
          builder_loop-Adds (apw * i + per) (apw - per) (apw - per) 0 m
            (rounds-le m (apw - per) some_there hi) (omega (arith, lo)) (omega (arith, hi))
            (omega (arith, part, fits, large)))

  -- The creator's accounts, and the builders'.
  abbrev pub loaded : ℕ → ℕ → ℕ → ℕ → ℕ
  loaded apw loaders m a =
      sum (λ i b. hits b (i * apw) per) loaders 0 a
      + sum (λ i b. hits b (apw * i + per + 0) (m * per)) loaders 0 a

  pub load_with-Adds :
      (apw loaders m : ℕ)
      → sf * per_branch / loaders ≡ apw
      → 0 < apw
      → 0 < per
      → apw - per ≤ m * per
      → m * per < apw - per + per
      → per ≤ apw
      → apw * loaders ≤ 2 ^ 31
      → apw < 2 ^ 31
      → (s : List ℕ)
      → (s' : List ℕ) × (load_with recorder tellers per_branch per sf loaders s ≡ (none, s'))
        × ((a : ℕ) → count a s' ≡ loaded apw loaders m a + count a s)
  unfolding load_with
  load_with-Adds apw loaders m e some_apw some_per lo hi large fits one_fits s =
      let (s', returns, c) =
        and_then-Adds (creator_work recorder tellers per_branch per sf apw loaders)
          (load_data recorder tellers per_branch per sf loaders apw) _ _
          (creator-Adds apw loaders some_apw fits one_fits)
          (data-Adds apw loaders m some_per lo hi large fits) s in
      (s', rw e returns, λ a. omega (arith, c a))
