-- ===== src/Tpcb/Input.antt =====
-- The inputs of the transactions: src/kits/tpcb/tpcb_input.h and src/kits/tpcb/tpcb_input.cpp.
-- Amounts are the integers that are drawn; the code stores them as doubles.
use zapps.Prelude.{ℕ, Bool, if◌then◌else◌, assert}
use zapps.Prelude.Int.{to_int, ℤ, pos, ◌+ℤ◌, ◌-ℤ◌, ◌*ℤ◌, ltb_ℤ}
use zapps.Random.{Source, Draw, urand, uzrand, pure, lift, ◌>>=◌, ◌>>◌}
use zapps.Skewer.{Skewer, get_input}
use zapps.Tpcb.{tellers_per_branch, accounts_per_branch}

pub record AcctUpdateInput : Type 0 where
  pub b_id : ℤ
  pub t_id : ℤ
  pub a_id : ℤ
  pub delta : ℤ

-- The inputs of the microbenchmarks.
pub record MbenchInput : Type 0 where
  pub b_id : ℤ
  pub a_id : ℤ
  pub balance : ℤ

pub record PopulateDbInput : Type 0 where
  pub sf : ℤ
  pub first_a_id : ℤ

-- The state that the inputs share: the skewers, and whether they are used.
pub record Skews : Type 0 where
  pub b_skewer : Skewer
  pub t_skewer : Skewer
  pub a_skewer : Skewer
  pub change_load : Bool

-- Of 100, the local transactions; the code is compiled with ONLY_LOCAL_TCPB.
abbrev pub local_tpcb : ℕ
local_tpcb = 100

-- A number of a branch is an `int`. The product and the sum wrap; by the standard an overflow is
-- undefined.
unfoldable pub in_branch : (b_id : ℤ) → (size : ℕ) → ℤ → ℤ
unfolding to_int
in_branch b_id size x = to_int (b_id *ℤ pos size +ℤ x)

module _ {G : Type 0} (s : Source G) where
  unfoldable pub pick_branch : ℤ → ℤ → Draw G ℤ
  pick_branch sf specific =
      if ltb_ℤ (pos 0) specific then pure (specific -ℤ pos 1) else uzrand s (pos 0) (sf -ℤ pos 1)

  -- The account in its branch, or in any other.
  unfoldable pub pick_account : ℤ → ℤ → Draw G ℤ → Draw G ℤ
  pick_account sf b_id account = do
    r ← urand s (pos 0) (pos 100)
    if ltb_ℤ (pos local_tpcb) r
        then (do
          remote ← urand s (pos 0) sf
          x ← account
          pure (in_branch remote accounts_per_branch x))
        else (do x ← account; pure (in_branch b_id accounts_per_branch x))

  unfoldable pub uniform_input : ℤ → ℤ → Draw G AcctUpdateInput
  unfolding pick_branch pick_account
  uniform_input sf specific = do
    b_id ← pick_branch sf specific
    t ← uzrand s (pos 0) (pos tellers_per_branch -ℤ pos 1)
    a_id ← pick_account sf b_id (uzrand s (pos 0) (pos accounts_per_branch -ℤ pos 1))
    delta ← urand s (pos 0) (pos 2000000)
    pure record {
      b_id = b_id;
      t_id = in_branch b_id tellers_per_branch t;
      a_id = a_id;
      delta = delta -ℤ pos 1000000;
    }

  -- The account is drawn before it is known whether it is a remote one.
  skewed_input : Skews → ℤ → Draw G AcctUpdateInput
  unfolding pick_account
  skewed_input k sf = do
    b_id ← get_input s k.b_skewer
    t ← get_input s k.t_skewer
    account ← get_input s k.a_skewer
    a_id ← pick_account sf b_id (pure account)
    delta ← urand s (pos 0) (pos 2000000)
    pure record {
      b_id = b_id;
      t_id = in_branch b_id tellers_per_branch t;
      a_id = a_id;
      delta = delta -ℤ pos 1000000;
    }

  unfoldable pub create_acct_update_input : Skews → ℤ → ℤ → Draw G AcctUpdateInput
  unfolding uniform_input skewed_input
  create_acct_update_input k sf specific = do
    lift (assert (ltb_ℤ (pos 0) sf))
    if k.change_load then skewed_input k sf else uniform_input sf specific

  unfoldable pub create_populate_db_input : ℤ → ℤ → Draw G PopulateDbInput
  create_populate_db_input sf specific = do
    lift (assert (ltb_ℤ (pos 0) sf))
    pure record { sf = sf; first_a_id = specific }

  -- A branch, an account in it, and a balance between `- half` and `half`.
  mbench_input : ℕ → ℕ → ℤ → ℤ → Draw G MbenchInput
  unfolding pick_branch
  mbench_input range half sf specific = do
    lift (assert (ltb_ℤ (pos 0) sf))
    b_id ← pick_branch sf specific
    x ← uzrand s (pos 0) (pos accounts_per_branch -ℤ pos 1)
    balance ← urand s (pos 0) (pos range)
    pure record {
      b_id = b_id;
      a_id = in_branch b_id accounts_per_branch x;
      balance = balance -ℤ pos half;
    }

  unfoldable pub create_mbench_insert_only_input : ℤ → ℤ → Draw G MbenchInput
  unfolding mbench_input
  create_mbench_insert_only_input sf specific = mbench_input 200000000 100000000 sf specific

  unfoldable pub create_mbench_delete_only_input : ℤ → ℤ → Draw G MbenchInput
  unfolding mbench_input
  create_mbench_delete_only_input sf specific = mbench_input 2000000 1000000 sf specific

  unfoldable pub create_mbench_probe_only_input : ℤ → ℤ → Draw G MbenchInput
  unfolding mbench_input
  create_mbench_probe_only_input sf specific = mbench_input 200000000 100000000 sf specific

  unfoldable pub create_mbench_insert_delete_input : ℤ → ℤ → Draw G MbenchInput
  unfolding create_mbench_insert_only_input
  create_mbench_insert_delete_input sf specific = do
    lift (assert (ltb_ℤ (pos 0) sf))
    create_mbench_insert_only_input sf specific

  unfoldable pub create_mbench_insert_probe_input : ℤ → ℤ → Draw G MbenchInput
  unfolding create_mbench_insert_only_input
  create_mbench_insert_probe_input sf specific = do
    lift (assert (ltb_ℤ (pos 0) sf))
    create_mbench_insert_only_input sf specific

  unfoldable pub create_mbench_delete_probe_input : ℤ → ℤ → Draw G MbenchInput
  unfolding create_mbench_delete_only_input
  create_mbench_delete_probe_input sf specific = do
    lift (assert (ltb_ℤ (pos 0) sf))
    create_mbench_delete_only_input sf specific

  unfoldable pub create_mbench_mix_input : ℤ → ℤ → Draw G MbenchInput
  unfolding create_mbench_insert_only_input
  create_mbench_mix_input sf specific = do
    lift (assert (ltb_ℤ (pos 0) sf))
    create_mbench_insert_only_input sf specific
