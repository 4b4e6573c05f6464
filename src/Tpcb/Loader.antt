-- ===== src/Tpcb/Loader.antt =====
-- Loading the tables: `create_tables`, `load_data` and their threads in
-- src/kits/tpcb/tpcb_env.cpp, and `xct_populate_db` in src/kits/tpcb/tpcb_xct.cpp.
-- The managers of the tables are parameters, and so are the sizes, which `load` sets. The builders
-- run one after the other. W_COERCE ends the program, and so does an error that is not retried; the
-- builders' retries after a deadlock, and the creation of the tables on disk, are left out.
-- `populate_db_input_t` keeps the first account as an `int`, to which the `long` is converted. The
-- sums of `int` that no conversion follows, a_id and the builders' i, have no bound here; for a
-- scaling factor up to 21474 they are below 2 ^ 31.
use zapps.Prelude.{
  ℕ, zero, suc, ◌+◌, ◌-◌, ◌*◌, ◌/◌, ◌%◌, Option, none, Result, ok, err, division_by_zero,
  if◌then◌else◌, ltb, ◌==◌, ◌>>=◌,
}
use zapps.Prelude.Int.{to_int, ℤ, pos, negsuc, sub_ℕ}
use zapps.Manager.Calls.{Error}
use zapps.Manager.Runs.{and_then}
use zapps.Tpcb.{tellers_per_branch, accounts_per_branch, accounts_created_per_pop_xct}

-- The rows that are added, with a balance of 0.
pub record Tables (S : Type 0) : Type 0 where
  pub add_branch : S → ℕ → Option Error × S
  pub add_teller : S → ℕ → ℕ → Option Error × S
  pub add_account : S → ℕ → ℕ → Option Error × S
  pub commit : S → Option Error × S

-- for (i = first; i < first + count; i++), until the first error
unfoldable pub each : {S : Type 0} → ℕ → ℕ → (ℕ → S → Option Error × S) → S → Option Error × S
each zero i f s = (none, s)
each (suc count) i f s = and_then (f i s) (each count (suc i) f)

-- The greatest divisor that is not above the number of loaders.
unfoldable pub shrink : ℕ → ℕ → Result ℕ
shrink total zero = err division_by_zero
shrink total (suc l) = if total % suc l == 0 then ok (suc l) else shrink total l

module _ {S : Type 0} (t : Tables S) (tellers per_branch per_xct : ℕ) where
  unfoldable pub populate_account : ℕ → ℕ → S → Option Error × S
  populate_account first i s =
      let a_id : ℕ = first + (per_xct - i - 1) in t.add_account s a_id (a_id / per_branch)

  unfoldable pub populate_rows : ℕ → ℤ → S → Option Error × S
  unfolding each populate_account
  populate_rows sf (negsuc n) s =
      and_then (each sf 0 (λ i s. t.add_branch s i) s)
        (each (sf * tellers) 0 (λ i s. t.add_teller s i (i / tellers)))
  populate_rows sf (pos first) s = each per_xct 0 (populate_account first) s

  -- The branches and tellers if the first account is negative, else accounts.
  unfoldable pub xct_populate_db : ℕ → ℤ → S → Option Error × S
  unfolding populate_rows
  xct_populate_db sf first s = and_then (populate_rows sf first s) t.commit

  -- `table_creator_t::work`: the loop starts at -1.
  unfoldable pub creator_work : ℕ → ℕ → ℕ → S → Option Error × S
  unfolding xct_populate_db each
  creator_work sf psize pcount s =
      and_then (xct_populate_db sf (to_int (sub_ℕ 0 psize)) s)
        (each pcount 0 (λ i. xct_populate_db sf (to_int (pos (i * psize)))))

  unfoldable pub builder_loop : ℕ → ℕ → ℕ → ℕ → ℕ → S → Option Error × S
  unfolding xct_populate_db
  builder_loop sf start count zero i s = (none, s)
  builder_loop sf start count (suc fuel) i s =
      if ltb i count
      then and_then (xct_populate_db sf (to_int (pos (start + i))) s)
          (builder_loop sf start count fuel (i + per_xct))
      else (none, s)

  -- `table_builder_t::work`; the loop has at most `count` rounds.
  unfoldable pub builder_work : ℕ → ℕ → ℕ → S → Option Error × S
  unfolding builder_loop
  builder_work sf start count s = builder_loop sf start count count 0 s

  unfoldable pub load_data : ℕ → ℕ → ℕ → S → Option Error × S
  unfolding each builder_work
  load_data sf loaders accts_per_worker s =
      each loaders 0
        (λ i. builder_work sf (accts_per_worker * i + per_xct) (accts_per_worker - per_xct)) s

  -- `create_tables` and `load_data`, with the number of loaders that the first one leaves.
  unfoldable pub load_with : ℕ → ℕ → S → Option Error × S
  unfolding creator_work load_data
  load_with sf loaders s =
      let accts_per_worker : ℕ = sf * per_branch / loaders in
      and_then (creator_work sf accts_per_worker loaders s) (load_data sf loaders accts_per_worker)

-- The loaders that are used.
unfoldable pub loaders_to_use : ℕ → ℕ → Result ℕ
unfolding shrink
loaders_to_use sf loaders =
    if ltb sf loaders then ok sf else shrink (sf * accounts_per_branch) loaders

unfoldable pub load : {S : Type 0} → Tables S → ℕ → ℕ → S → Result (Option Error × S)
unfolding loaders_to_use load_with
load t sf loaders s = do
  l ← loaders_to_use sf loaders
  ok (load_with t tellers_per_branch accounts_per_branch accounts_created_per_pop_xct sf l s)
