-- ===== src/Tpcb/Coverage.antt =====
-- Which accounts the loader adds, and how often.
use native.Mathlib.Nat.{suc-mul, mul_comm, mul-div_cancel_left, mul-mod_right}
use zapps.Prelude.{
  ℕ, zero, suc, ◌+◌, ◌-◌, ◌*◌, ◌/◌, ◌%◌, ◌≤◌, ◌<◌, ◌≡◌, ◌≢◌, refl, sym, ◌∙◌, ap, arith, List, [],
  none, ok, if◌then◌else◌, ltb, Bool-cases, inl, inr, ◌==◌, subst, ◌^◌,
}
use zapps.Tpcb.{accounts_per_branch, accounts_created_per_pop_xct, tellers_per_branch}
use zapps.Tpcb.Loader.{load, loaders_to_use, shrink}
use zapps.Tpcb.Batches.{part-le, recorder, count, hits, sum, load_with-Adds}

-- With batches that fill each worker's part, the parts fill the whole.
sum-whole :
    (per m apw n i a : ℕ)
    → apw ≡ per + m * per
    → sum (λ i b. hits b (i * apw) per) n i a
        + sum (λ i b. hits b (apw * i + per + 0) (m * per)) n i a
      ≡ hits a (i * apw) (n * apw)
sum-whole per m apw zero i a e = ground arith
sum-whole per m apw (suc n) i a e =
    let rest = sum-whole per m apw n (suc i) a e in
    let next : suc i * apw ≡ i * apw + apw = suc-mul i apw in
    let more : suc n * apw ≡ n * apw + apw = suc-mul n apw in
    let turned : apw * i ≡ i * apw = mul_comm apw i in
    let part : hits a (i * apw) per + hits a (apw * i + per + 0) (m * per) ≡ hits a (i * apw) apw =
      ground (arith, e, turned) in
    let parts : hits a (i * apw) apw + hits a (suc i * apw) (n * apw)
        ≡ hits a (i * apw) (suc n * apw) =
      ground (arith, next, more) in
    omega (arith, rest, part, parts)

-- One part of a sum.
sum-ge : (k : ℕ → ℕ → ℕ) (n i j a : ℕ) → i ≤ j → j < i + n → k j a ≤ sum k n i a
sum-ge k zero i j a le lt = absurd (omega arith)
sum-ge k (suc n) i j a le lt = elim (Bool-cases (i == j)) [
  | inl same ↦
      let e : j ≡ i = ground (arith, same) in
      subst (λ x. k x a ≤ sum k (suc n) i a) (sym e) (omega arith)
  | inr other ↦
      let rest = sum-ge k n (suc i) j a (ground (arith, le, other)) (omega arith) in
      omega (arith, rest)
]

-- The parts of all accounts, and one part, if the number of accounts is an `int`.
parts-fit :
    (sf l apw : ℕ)
    → sf ≤ 21474
    → 0 < l
    → sf * accounts_per_branch ≡ l * apw
    → (apw * l ≤ 2 ^ 31) × (apw < 2 ^ 31)
parts-fit sf l apw small some_loader whole =
    let turned : apw * l ≡ l * apw = mul_comm apw l in
    let one = part-le apw 0 l some_loader in
    (omega (arith, small, whole, turned), omega (arith, small, whole, turned, one))

-- For a scaling factor up to 21474, with which the account numbers are below 2 ^ 31, and a number
-- of loaders whose part of the accounts is a whole number of transactions: the load succeeds, and
-- adds each account of the scaling factor once, and no other account.
pub load-once :
    (sf loaders l k : ℕ)
    → sf ≤ 21474
    → loaders_to_use sf loaders ≡ ok l
    → 0 < l
    → 0 < k
    → sf * accounts_per_branch ≡ l * (k * accounts_created_per_pop_xct)
    → (s : List ℕ) × (load recorder sf loaders [] ≡ ok (none, s))
      × ((a : ℕ) → count a s ≡ (if ltb a (sf * accounts_per_branch) then 1 else 0))
unfolding load
load-once sf loaders l zero small used some_loader some_batch whole = absurd (omega arith)
load-once sf loaders l (suc m) small used some_loader some_batch whole =
    let apw : ℕ = suc m * accounts_created_per_pop_xct in
    let split : apw ≡ accounts_created_per_pop_xct + m * accounts_created_per_pop_xct =
      omega arith in
    let quotient : sf * accounts_per_branch / l ≡ apw =
      ap (λ n. n / l) whole ∙ mul-div_cancel_left apw some_loader in
    let (fit, one_fits) = parts-fit sf l apw small some_loader whole in
    let (s, returns, c) =
      load_with-Adds sf tellers_per_branch accounts_per_branch accounts_created_per_pop_xct apw l m
        quotient (omega arith) (omega arith) (omega arith) (omega arith) (omega arith) fit one_fits
        [] in
    (
      s,
      rw used (ap ok returns),
      λ a.
          let all = sum-whole accounts_created_per_pop_xct m apw l 0 a split in
          c a ∙ ground (arith, all, whole),
    )

-- For a scaling factor up to 21474, and at least two loaders that share the accounts evenly, each at least one transaction, but not
-- a whole number of them: the loader adds the first account of the second part at least twice.
pub load-twice :
    (sf loaders l w : ℕ)
    → sf ≤ 21474
    → loaders_to_use sf loaders ≡ ok l
    → 2 ≤ l
    → sf * accounts_per_branch ≡ l * w
    → accounts_created_per_pop_xct ≤ w
    → w % accounts_created_per_pop_xct ≢ 0
    → (s : List ℕ) × (load recorder sf loaders [] ≡ ok (none, s)) × (2 ≤ count w s)
unfolding load
load-twice sf loaders l w small used two whole large uneven =
    let m : ℕ = (w - accounts_created_per_pop_xct) / accounts_created_per_pop_xct + 1 in
    let over : w < accounts_created_per_pop_xct + m * accounts_created_per_pop_xct = omega arith in
    let quotient : sf * accounts_per_branch / l ≡ w =
      ap (λ n. n / l) whole ∙ mul-div_cancel_left w (omega arith) in
    let (fit, one_fits) = parts-fit sf l w small (omega arith) whole in
    let (s, returns, c) =
      load_with-Adds sf tellers_per_branch accounts_per_branch accounts_created_per_pop_xct w l m
        quotient (omega arith) (omega arith) (omega arith) (omega arith) large fit one_fits [] in
    let first =
      sum-ge (λ i b. hits b (i * w) accounts_created_per_pop_xct) l 0 1 w (omega arith)
        (omega arith) in
    let second =
      sum-ge
        (λ i b.
          hits b (w * i + accounts_created_per_pop_xct + 0) (m * accounts_created_per_pop_xct))
        l 0 0 w (omega arith) (omega arith) in
    let created : hits w (1 * w) accounts_created_per_pop_xct ≡ 1 = ground arith in
    let built : hits w (w * 0 + accounts_created_per_pop_xct + 0) (m * accounts_created_per_pop_xct)
        ≡ 1 =
      ground (arith, over, large) in
    (s, rw used (ap ok returns), omega (arith, c w, first, second, created, built))

-- The loop that looks for a divisor ends.
shrink-divisor :
    (total loaders : ℕ)
    → 0 < loaders
    → (l : ℕ) × (shrink total loaders ≡ ok l) × (0 < l) × (l ≤ loaders) × (total % l ≡ 0)
unfolding shrink
shrink-divisor total zero h = absurd (omega arith)
shrink-divisor total (suc zero) h =
    (1, rw (whole_by_one total) refl, omega arith, omega arith, omega arith)
  where
    whole_by_one : (n : ℕ) → n % 1 ≡ 0
    whole_by_one n = omega arith
shrink-divisor total (suc (suc n)) h = elim (Bool-cases (total % suc (suc n) == 0)) [
  | inl divides ↦ (suc (suc n), rw divides refl, omega arith, omega arith, ground (arith, divides))
  | inr remains ↦
      let (l, e, pos_l, le, divides) = shrink-divisor total (suc n) (omega arith) in
      (l, rw remains e, pos_l, omega (arith, le), divides)
]

-- For a scaling factor and a number of loaders of at least 1, the number of loaders that is used is
-- found: it is at least 1 and at most the number given, and it divides the number of accounts.
pub loaders_to_use-divides :
    (sf loaders : ℕ)
    → 0 < sf
    → 0 < loaders
    → (l : ℕ) × (loaders_to_use sf loaders ≡ ok l)
      × (0 < l)
      × (l ≤ loaders)
      × (sf * accounts_per_branch % l ≡ 0)
unfolding loaders_to_use
loaders_to_use-divides sf loaders some_sf some_loader = elim (Bool-cases (ltb sf loaders)) [
  | inl small ↦
      (sf, rw small refl, some_sf, ground (arith, small), mul-mod_right sf accounts_per_branch)
  | inr large ↦ rw large (shrink-divisor (sf * accounts_per_branch) loaders some_loader)
]
