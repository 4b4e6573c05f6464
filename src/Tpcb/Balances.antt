-- ===== src/Tpcb/Balances.antt =====
-- What the account update of src/kits/tpcb/tpcb_xct.cpp leaves of the records.
use zapps.Prelude.{refl, ℕ, ◌≡◌, subst, sym, Option, Result, ok, err, assert_some, none}
use zapps.Prelude.Memory.{Bytes}
use zapps.Prelude.Int.{ℤ}
use zapps.Row.{Row, RepRow, set_rep}
use zapps.Row.Access.{row_get_double, row_set_double, row_set_int}
use zapps.Table.{maxsize}
use zapps.Manager.{find_ptr, add_tuple, update_tuple}
use zapps.Manager.Calls.{World, Action, Outcome, StorageManager}
use zapps.Manager.Calls as Calls
use zapps.Manager.Contents.{Place}
use zapps.Manager.Growth.{
  Additive, Grown, Kept, Stays, look-Stays, try-Stays, bind-Stays, index_probe-Stays,
  add_tuple-Stays, update_tuple-Stays,
}
use zapps.Tpcb.Input.{AcctUpdateInput}
use zapps.Tpcb.Update.{
  Bench, TableName, branch, teller, account, history, Ended, stopped, failed, done, Call, lift,
  continue, on, after, ended, world_of, set_row, get_double, index_probe_forupdate_by_name,
  id_probe_forupdate, add_balance, write_history, new_pads, xct_acct_update, name_of, int_bits,
  ◌>>=◌, set_history,
}

module _ {S : Type 0} (lookup : S → Place → Option Bytes) where
  -- However a transaction ends, if it does not stop: the records of the first database stand
  -- unchanged in the one that it leaves.
  abbrev pub Intact : {A : Type 0} → S → Ended S A → Type 0
  Intact s (stopped fault) = Unit {0}
  Intact s (failed e b) = Grown lookup s b.store
  Intact s (done a b) = Grown lookup s b.store

  abbrev Safe : {A : Type 0} → Call S A → Type 0
  Safe m = (b : Bench S) → Intact b.store (m b)

  Intact-from :
      {A : Type 0} (s s' : S) (o : Ended S A) → Grown lookup s s' → Intact s' o → Intact s o
  Intact-from s s' (stopped fault) first rest = tt
  Intact-from s s' (failed e b) first rest = λ p u h. rest p u (first p u h)
  Intact-from s s' (done a b) first rest = λ p u h. rest p u (first p u h)

  continue-Intact :
      {A B : Type 0} (s : S) (o : Ended S A) (rest : A → Call S B)
      → Intact s o
      → ((a : A) → Safe (rest a))
      → Intact s (continue o rest)
  continue-Intact s (stopped fault) rest first next = tt
  continue-Intact s (failed e b) rest first next = first
  continue-Intact s (done a b) rest first next = Intact-from s b.store (rest a b) first (next a b)

  bind-Safe :
      {A B : Type 0} (m : Call S A) (rest : A → Call S B)
      → Safe m
      → ((a : A) → Safe (rest a))
      → Safe (m >>= rest)
  bind-Safe m rest first next b = continue-Intact b.store (m b) rest (first b) next

  try-Safe :
      {A B : Type 0} (r : Result A) (rest : A → Call S B)
      → ((a : A) → Safe (rest a))
      → Safe (lift r >>= rest)
  try-Safe (ok a) rest next b = next a b
  try-Safe (err fault) rest next b = tt

  after-store : (k : TableName) (w : World S) (b : Bench S) → (after k w b).store ≡ w.store
  after-store branch w b = refl
  after-store teller w b = refl
  after-store account w b = refl
  after-store history w b = refl

  ended-Intact :
      {A : Type 0} (s : S) (k : TableName) (b : Bench S) (o : Outcome S A)
      → Kept lookup s o
      → Intact s (ended k b o)
  ended-Intact s k b (Calls.stopped fault) kept = tt
  ended-Intact s k b (Calls.failed e w) kept =
      subst (λ t. Grown lookup s t) (sym (after-store k w b)) kept
  ended-Intact s k b (Calls.done a w) kept =
      subst (λ t. Grown lookup s t) (sym (after-store k w b)) kept

  on-Safe : {A : Type 0} (k : TableName) (m : Action S A) → Stays lookup m → Safe (on k m)
  on-Safe k m stays b = ended-Intact b.store k b (m (world_of k b)) (stays (world_of k b))

  set_row-Stays : (change : Row → Result Row) → Stays lookup (set_row change)
  unfolding set_row
  set_row-Stays change =
      look-Stays lookup _ (λ w. try-Stays lookup (change w.row) _ (λ r w b u h. h))

  set_row-Safe : (k : TableName) (change : Row → Result Row) → Safe (on k (set_row change))
  set_row-Safe k change = on-Safe k (set_row change) (set_row-Stays change)

  get_double-Stays : (idx : ℕ) → Stays lookup (get_double idx)
  unfolding get_double
  get_double-Stays idx =
      look-Stays lookup _ (λ w. try-Stays lookup (row_get_double w.row idx) _ (λ o w b u h. h))

  module _ (sm : StorageManager S) (heap : ℕ → ℕ) (len : ℕ) (additive : Additive sm lookup) where
    id_probe_forupdate-Safe :
        (k : TableName) (id : ℕ) → Safe (on k (id_probe_forupdate sm heap len k id))
    unfolding id_probe_forupdate index_probe_forupdate_by_name
    id_probe_forupdate-Safe k id = on-Safe k (id_probe_forupdate sm heap len k id) (
        bind-Stays lookup (set_row (λ r. row_set_int r 0 id)) _ (set_row-Stays _) (λ z.
          look-Stays lookup _ (λ w. try-Stays lookup (find_ptr w.table (name_of k)) _ (λ o.
            try-Stays lookup (assert_some o) _ (λ p. index_probe-Stays lookup sm heap len p)))))

    module _ (add_double : ℕ → ℕ → ℕ) (to_double : ℤ → ℕ) (time : ℕ) where
      add_balance-Safe :
          (k : TableName) (id column delta : ℕ)
          → Safe (add_balance sm heap len add_double k id column delta)
      unfolding add_balance
      add_balance-Safe k id column delta =
          bind-Safe (on k (id_probe_forupdate sm heap len k id)) _ (id_probe_forupdate-Safe k id)
            (λ z.
              bind-Safe (on k (get_double column)) _
                (on-Safe k (get_double column) (get_double-Stays column))
                (λ t.
                  bind-Safe (on k (set_row (λ r. row_set_double r column (add_double t delta)))) _
                    (set_row-Safe k (λ r. row_set_double r column (add_double t delta)))
                    (λ z.
                      on-Safe k (update_tuple sm heap)
                        (update_tuple-Stays lookup sm heap additive))))

      write_history-Safe :
          (ppin : AcctUpdateInput) → Safe (write_history sm heap to_double time ppin)
      unfolding write_history
      write_history-Safe ppin =
          let change : Row → Result Row = set_history to_double time ppin in
          bind-Safe (on history (set_row change)) _ (set_row-Safe history change)
            (λ z. on-Safe history (add_tuple sm heap) (add_tuple-Stays lookup sm heap additive))

      new_pads-Safe : (nbytes : ℕ) → Safe (new_pads heap nbytes)
      unfolding new_pads
      new_pads-Safe nbytes b =
          let pad : RepRow = record { dest = none; bufsz = 0; nbytes = nbytes } in
          try-Safe (maxsize b.history.table) _
            (λ t. try-Safe (set_rep heap pad t.1) _ (λ rep.
              try-Safe (maxsize t.0) _
                (λ t1. try-Safe (set_rep heap pad t1.1) _ (λ rep_key b p u h. h))))
            b

      -- For a storage manager that removes and changes nothing when an entry is created or no byte
      -- is overwritten: an account update that commits or fails leaves every record that the
      -- database held as it was, so that no balance of an account, a teller or a branch changes.
      pub xct_acct_update-Intact :
          (nbytes : ℕ) (ppin : AcctUpdateInput) (b : Bench S)
          → Intact b.store (xct_acct_update sm heap len add_double to_double time nbytes ppin b)
      unfolding xct_acct_update
      xct_acct_update-Intact nbytes ppin b =
          let delta = to_double ppin.delta in
          bind-Safe (new_pads heap nbytes) _ (new_pads-Safe nbytes)
            (λ z.
              bind-Safe (add_balance sm heap len add_double account (int_bits ppin.a_id) 2 delta) _
                (add_balance-Safe account (int_bits ppin.a_id) 2 delta)
                (λ z.
                  bind-Safe (write_history sm heap to_double time ppin) _ (write_history-Safe ppin)
                    (λ z.
                      bind-Safe
                        (add_balance sm heap len add_double teller (int_bits ppin.t_id) 2 delta) _
                        (add_balance-Safe teller (int_bits ppin.t_id) 2 delta)
                        (λ z. add_balance-Safe branch (int_bits ppin.b_id) 1 delta))))
            b
