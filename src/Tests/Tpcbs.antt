-- ===== src/Tests/Tpcbs.antt =====
-- The benchmark at small scaling factors.
use zapps.Prelude.{
  ℕ, ◌≡◌, ◌≤◌, ◌<◌, ◌*◌, ◌%◌, refl, arith, [], List, none, ok, if◌then◌else◌, ltb, false,
}
use zapps.Tpcb.{accounts_per_branch}
use zapps.Tpcb.Loader.{load, loaders_to_use, shrink}
use zapps.Tpcb.Batches.{recorder, count}
use zapps.Tpcb.Coverage.{load-once, load-twice, loaders_to_use-divides}
use zapps.Prelude.Int.{pos}
use zapps.Tests.Skewers.{counter, fresh}
use zapps.Tpcb.Input.{Skews, AcctUpdateInput, create_acct_update_input}
use zapps.Tpcb.Ranges.{create_acct_update_input-loaded}

two_loaders : loaders_to_use 2 2 ≡ ok 2
unfolding loaders_to_use shrink
two_loaders = refl

load-once_example :
    (s : List ℕ) × (load recorder 2 2 [] ≡ ok (none, s))
    × ((a : ℕ) → count a s ≡ (if ltb a (2 * accounts_per_branch) then 1 else 0))
load-once_example = load-once 2 2 2 10 (omega arith) two_loaders (omega arith) (omega arith) refl

forty_loaders : loaders_to_use 50 40 ≡ ok 40
unfolding loaders_to_use shrink
forty_loaders = refl

load-twice_example : (s : List ℕ) × (load recorder 50 40 [] ≡ ok (none, s)) × (2 ≤ count 125000 s)
load-twice_example =
    load-twice 50 40 40 125000 (omega arith) forty_loaders (omega arith) refl (omega arith)
      (λ e. omega arith)

loaders_to_use-divides_example :
    (l : ℕ) × (loaders_to_use 7 6 ≡ ok l) × (0 < l) × (l ≤ 6) × (7 * accounts_per_branch % l ≡ 0)
loaders_to_use-divides_example = loaders_to_use-divides 7 6 (omega arith) (omega arith)

abbrev steady : Skews
steady = record { b_skewer = fresh; t_skewer = fresh; a_skewer = fresh; change_load = false }

create_acct_update_input-loaded_example :
    (input : AcctUpdateInput) × (g' : ℕ) × (a : ℕ) × (rows : List ℕ) × (create_acct_update_input
        counter steady
        (pos 2)
        (pos 2)
        7
      ≡ ok (input, g'))
    × (input.a_id ≡ pos a)
    × (load recorder 2 2 [] ≡ ok (none, rows))
    × (count a rows ≡ 1)
create_acct_update_input-loaded_example =
    create_acct_update_input-loaded counter refl steady 2 (pos 2) 7 2 2 10 refl (omega arith)
      (omega arith) (omega arith) two_loaders (omega arith) (omega arith) refl
