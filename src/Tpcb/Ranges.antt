-- ===== src/Tpcb/Ranges.antt =====
-- The inputs that are drawn lie in the tables that the loader fills.
use zapps.Prelude.{
  ℕ, zero, suc, ◌+◌, ◌*◌, ◌<◌, ◌≡◌, refl, sym, ◌∙◌, ap, subst, arith, true, false, List, [], none,
  Result, ok, Bool-cases, inl, inr, lt→ltb, ◌^◌, ◌≤◌,
}
use zapps.Prelude.Int.{
  to_int, to_int-pos, ℤ, pos, negsuc, pos_part, neg_part, ◌≤ℤ◌, ◌+ℤ◌, ◌-ℤ◌, ◌*ℤ◌, ltb_ℤ, int_laws,
  ltb_ℤ→lt,
}
use zapps.Random.{Source, DrawsIn, uzrand, urand-DrawsIn, uzrand-DrawsIn}
use zapps.Tpcb.{tellers_per_branch, accounts_per_branch, accounts_created_per_pop_xct}
use zapps.Tpcb.Input.{
  in_branch, AcctUpdateInput, Skews, pick_branch, pick_account, uniform_input,
  create_acct_update_input, local_tpcb,
}
use zapps.Tpcb.Loader.{load, loaders_to_use}
use zapps.Tpcb.Batches.{recorder, count}
use zapps.Tpcb.Coverage.{load-once}

nonneg : (a : ℤ) → pos 0 ≤ℤ a → (n : ℕ) × (a ≡ pos n)
nonneg (pos n) h = (n, refl)
nonneg (negsuc n) h = absurd (omega arith)

place_in :
    (b size n : ℕ) → b * size + n < 2 ^ 31 → in_branch (pos b) size (pos n) ≡ pos (b * size + n)
unfolding in_branch ◌*ℤ◌ ◌+ℤ◌
place_in b size n small =
    let exact : pos b *ℤ pos size +ℤ pos n ≡ pos (b * size + n) = grind arith in
    ap to_int exact ∙ to_int-pos (b * size + n) small

before : (n : ℕ) → pos (suc n) -ℤ pos 1 ≡ pos n
unfolding ◌-ℤ◌
before n = ground arith

-- The input is that of teller `t` and account `a` of branch `b`.
pub record InBranch (sf : ℕ) (input : AcctUpdateInput) : Type 0 where
  pub branch : ℕ
  pub teller : ℕ
  pub account : ℕ
  pub b_id : input.b_id ≡ pos branch
  pub t_id : input.t_id ≡ pos (branch * tellers_per_branch + teller)
  pub a_id : input.a_id ≡ pos (branch * accounts_per_branch + account)
  pub branch_range : branch < sf
  pub teller_range : teller < tellers_per_branch
  pub account_range : account < accounts_per_branch
  pub delta_low : negsuc 999999 ≤ℤ input.delta
  pub delta_high : input.delta ≤ℤ pos 1000000

module _ {G : Type 0} (s : Source G) (uniform : s.zipf_enabled ≡ false) where
  -- A number below `n` is drawn.
  abbrev DrawsBelow : Result (ℤ × G) → ℕ → Type 0
  DrawsBelow r n = (x : ℕ) × (g : G) × (r ≡ ok (pos x, g)) × (x < n)

  below : (r : Result (ℤ × G)) (n : ℕ) → DrawsIn s r (pos 0) (pos n) → DrawsBelow r (suc n)
  below r n (x, g, e, low, high) =
      let (m, em) = nonneg x low in
      (m, g, e ∙ ap (λ z. ok (z, g)) em, omega (arith, subst (λ z. z ≤ℤ pos n) em high))

  uzrand-below : (n : ℕ) (g : G) → DrawsBelow (uzrand s (pos 0) (pos (suc n) -ℤ pos 1) g) (suc n)
  uzrand-below n g = below _ n (
      subst (λ z. DrawsIn s (uzrand s (pos 0) z g) (pos 0) (pos n)) (sym (before n))
        (uzrand-DrawsIn s (pos 0) (pos n) g uniform (omega arith)))

  pick_branch-below :
      (sf : ℕ) (specific : ℤ) (g : G)
      → specific ≤ℤ pos (suc sf)
      → DrawsBelow (pick_branch s (pos (suc sf)) specific g) (suc sf)
  unfolding pick_branch
  pick_branch-below sf specific g h = elim (Bool-cases (ltb_ℤ (pos 0) specific)) [
    | inl given ↦
        let (n, e) =
          nonneg (specific -ℤ pos 1) (omega (int_laws, ltb_ℤ→lt (pos 0) specific given)) in
        (
          n,
          g,
          rw given (ap (λ z. ok (z, g)) e),
          omega (
            int_laws,
            h,
            subst (λ z. pos_part z ≡ n) (sym e) refl,
            subst (λ z. neg_part z ≡ 0) (sym e) refl,
          ),
        )
    | inr any ↦ rw any (uzrand-below sf g)
  ]

  pick_account-below :
      (sf b : ℕ) (g : G)
      → b < 21474
      → (a : ℕ) × (g' : G) × (pick_account s
            (pos sf)
            (pos b)
            (uzrand s (pos 0) (pos accounts_per_branch -ℤ pos 1))
            g
          ≡ ok (pos (b * accounts_per_branch + a), g'))
        × (a < accounts_per_branch)
  unfolding pick_account
  pick_account-below sf b g few =
      let (r, g1, e1, _, high) = urand-DrawsIn s (pos 0) (pos 100) g (omega arith) in
      let (a, g2, e2, small) = uzrand-below 99999 g1 in
      let local_one : ltb_ℤ (pos local_tpcb) r ≡ false = ground (arith, high) in
      (
        a,
        g2,
        rw (e1, local_one, e2, place_in b accounts_per_branch a (omega (arith, few, small))) refl,
        small,
      )

  -- Without Zipf and without skew, for a scaling factor from 1 to 21474 and no given branch above it:
  -- the input of an account update is a branch of the benchmark with a teller and an account of
  -- this branch, and an amount between -1000000 and 1000000.
  pub create_acct_update_input-InBranch :
      (k : Skews) (sf : ℕ) (specific : ℤ) (g : G)
      → k.change_load ≡ false
      → 0 < sf
      → sf ≤ 21474
      → specific ≤ℤ pos sf
      → (input : AcctUpdateInput) × (g' : G) × (create_acct_update_input s k (pos sf) specific g
          ≡ ok (input, g'))
        × InBranch sf input
  unfolding create_acct_update_input uniform_input
  create_acct_update_input-InBranch k zero specific g steady some_sf few h = absurd (omega arith)
  create_acct_update_input-InBranch k (suc sf) specific g steady some_sf few h =
      let (b, g1, e1, branch) = pick_branch-below sf specific g h in
      let (t, g2, e2, teller) = uzrand-below 9 g1 in
      let (a, g3, e3, account) = pick_account-below (suc sf) b g2 (omega (arith, few, branch)) in
      let (d, g4, e4, low, high) = urand-DrawsIn s (pos 0) (pos 2000000) g3 (omega arith) in
      let some_scale : ltb_ℤ (pos 0) (pos (suc sf)) ≡ true = ground arith in
      (
        record {
          b_id = pos b;
          t_id = in_branch (pos b) tellers_per_branch (pos t);
          a_id = pos (b * accounts_per_branch + a);
          delta = d -ℤ pos 1000000;
        },
        g4,
        rw (some_scale, steady, e1, e2, e3, e4) refl,
        record {
          branch = b;
          teller = t;
          account = a;
          b_id = refl;
          t_id = place_in b tellers_per_branch t (omega (arith, few, branch, teller));
          a_id = refl;
          branch_range = branch;
          teller_range = teller;
          account_range = account;
          delta_low = omega (int_laws, low);
          delta_high = omega (int_laws, high);
        },
      )

  -- Without Zipf and without skew, for a scaling factor from 1 to 21474, with which the account
  -- numbers are below 2 ^ 31, no given branch above it, and a number of loaders whose part of the
  -- accounts is a whole number of transactions: the account that an account update is drawn for is
  -- an account that the loader adds, once.
  pub create_acct_update_input-loaded :
      (k : Skews) (sf : ℕ) (specific : ℤ) (g : G) (loaders l n : ℕ)
      → k.change_load ≡ false
      → 0 < sf
      → sf ≤ 21474
      → specific ≤ℤ pos sf
      → loaders_to_use sf loaders ≡ ok l
      → 0 < l
      → 0 < n
      → sf * accounts_per_branch ≡ l * (n * accounts_created_per_pop_xct)
      → (input : AcctUpdateInput) × (g' : G) × (a : ℕ) × (rows : List ℕ) × (create_acct_update_input
            s k
            (pos sf)
            specific
            g
          ≡ ok (input, g'))
        × (input.a_id ≡ pos a)
        × (load recorder sf loaders [] ≡ ok (none, rows))
        × (count a rows ≡ 1)
  create_acct_update_input-loaded k sf specific g loaders l n steady some_sf few h used some_loader
        some_batch whole =
      let (input, g1, drawn, place) =
        create_acct_update_input-InBranch k sf specific g steady some_sf few h in
      let (rows, loads, counts) = load-once sf loaders l n few used some_loader some_batch whole in
      let a : ℕ = place.branch * accounts_per_branch + place.account in
      (
        input,
        g1,
        a,
        rows,
        drawn,
        place.a_id,
        loads,
        counts a
            ∙ rw
                (lt→ltb a (sf * accounts_per_branch)
                  (omega (arith, place.branch_range, place.account_range)))
                refl,
      )
