-- ===== src/Tpcb/Update.antt =====
-- The account update of TPC-B: `xct_acct_update` of src/kits/tpcb/tpcb_xct.cpp, the methods of the
-- tables that it calls in src/kits/tpcb/tpcb_schema_man.cpp, and the probes by name of
-- src/kits/table_man.h, over the table manager.
-- The rows are those that the caches give. Doubles are bit patterns: their addition, the amount
-- and the time as doubles are parameters. The build pads no row.
use zapps.Prelude.{
  ℕ, ◌-◌, ◌%◌, ◌^◌, Option, some, none, Result, ok, err, Fault, assert_some, ◌∷◌, [],
}
use zapps.Prelude as Base
use zapps.Prelude.Memory.{Bytes}
use zapps.Prelude.Int.{ℤ, pos, negsuc}
use zapps.Row.{Row, RepRow, set_rep}
use zapps.Row.Access.{row_set_int, row_set_double, row_get_double}
use zapps.Table.{TableDesc, maxsize}
use zapps.Manager.{find_ptr, index_probe, add_tuple, update_tuple, delete_tuple}
use zapps.Manager.Calls.{World, Action, Outcome, StorageManager, Error}
use zapps.Manager.Calls as Calls
use zapps.Tpcb.Input.{AcctUpdateInput}

-- The manager of a table, and the row taken from its cache.
pub record Side : Type 0 where
  pub table : TableDesc
  pub row : Row

-- The tables share the two scratchpads.
pub record Bench (S : Type 0) : Type 0 where
  pub store : S
  pub branch : Side
  pub teller : Side
  pub account : Side
  pub history : Side
  pub rep : RepRow
  pub rep_key : RepRow

pub data TableName : Type 0 where
  branch teller account history : TableName

pub data Ended (S : Type 0) (A : Type 0) : Type 0 where
  stopped : Fault → Ended S A
  failed : Error → Bench S → Ended S A
  done : A → Bench S → Ended S A

abbrev pub Call : Type 0 → Type 0 → Type 0
Call S A = Bench S → Ended S A

module _ {S : Type 0} where
  abbrev pub pure : {A : Type 0} → A → Call S A
  pure a b = done a b

  abbrev pub gets : {A : Type 0} → (Bench S → A) → Call S A
  gets f b = done (f b) b

  abbrev pub modify : (Bench S → Bench S) → Call S (Unit {0})
  modify f b = done tt (f b)

  abbrev pub lift : {A : Type 0} → Result A → Call S A
  lift (ok a) b = done a b
  lift (err fault) b = stopped fault

  abbrev pub continue : {A B : Type 0} → Ended S A → (A → Call S B) → Ended S B
  continue (stopped fault) rest = stopped fault
  continue (failed e b) rest = failed e b
  continue (done a b) rest = rest a b

  infixl 5 ◌>>=◌ ◌>>◌
  abbrev pub ◌>>=◌ : {A B : Type 0} → Call S A → (A → Call S B) → Call S B
  ◌>>=◌ m rest b = continue (m b) rest

  abbrev pub ◌>>◌ : {A B : Type 0} → Call S A → Call S B → Call S B
  m >> k = m >>= λ _. k

  abbrev pub side : TableName → Bench S → Side
  side branch b = b.branch
  side teller b = b.teller
  side account b = b.account
  side history b = b.history

  abbrev pub world_of : TableName → Bench S → World S
  world_of k b = record {
    store = b.store;
    table = (side k b).table;
    row = (side k b).row;
    rep = b.rep;
    rep_key = b.rep_key;
  }

  abbrev pub put_side : TableName → Side → Bench S → Bench S
  put_side branch s b = record b { branch = s }
  put_side teller s b = record b { teller = s }
  put_side account s b = record b { account = s }
  put_side history s b = record b { history = s }

  abbrev pub after : TableName → World S → Bench S → Bench S
  after k w b =
      put_side k (record { table = w.table; row = w.row })
        (record b { store = w.store; rep = w.rep; rep_key = w.rep_key })

  abbrev pub ended : {A : Type 0} → TableName → Bench S → Outcome S A → Ended S A
  ended k b (Calls.stopped fault) = stopped fault
  ended k b (Calls.failed e w) = failed e (after k w b)
  ended k b (Calls.done a w) = done a (after k w b)

  -- A call of the manager of one table.
  abbrev pub on : {A : Type 0} → TableName → Action S A → Call S A
  on k m b = ended k b (m (world_of k b))

  unfoldable pub set_row : (Row → Result Row) → Action S (Unit {0})
  set_row change =
      Calls.◌>>=◌ (Calls.gets (λ w. w)) (λ w.
        Calls.◌>>=◌ (Calls.lift (change w.row)) (λ r. Calls.modify (λ w. record w { row = r })))

  -- `get_value` into a variable, which gets zero if the value is null.
  unfoldable pub get_double : ℕ → Action S ℕ
  get_double idx = Calls.◌>>=◌ (Calls.gets (λ w. w)) (λ w.
      Calls.◌>>=◌ (Calls.lift (row_get_double w.row idx))
        (λ o. Calls.pure (elim o [ some d ↦ d | none ↦ 0 ])))

abbrev pub name_of : TableName → Bytes
name_of branch = b'B' ∷ b'R' ∷ b'A' ∷ b'N' ∷ b'C' ∷ b'H' ∷ []
name_of teller = b'T' ∷ b'E' ∷ b'L' ∷ b'L' ∷ b'E' ∷ b'R' ∷ []
name_of account = b'A' ∷ b'C' ∷ b'C' ∷ b'O' ∷ b'U' ∷ b'N' ∷ b'T' ∷ []
name_of history = b'H' ∷ b'I' ∷ b'S' ∷ b'T' ∷ b'O' ∷ b'R' ∷ b'Y' ∷ []

-- An `int`, as a number of 32 bits.
unfoldable pub int_bits : ℤ → ℕ
int_bits (pos n) = n % 2 ^ 32
int_bits (negsuc n) = 2 ^ 32 - 1 - n % 2 ^ 32

-- The double that `time` gives is that of `set_time_value`, which sets a `SQL_FLOAT`.
unfoldable pub set_history : (ℤ → ℕ) → ℕ → AcctUpdateInput → Row → Result Row
unfolding int_bits
set_history to_double time ppin r = Base.◌>>=◌ (row_set_int r 0 (int_bits ppin.b_id)) (λ r.
    Base.◌>>=◌ (row_set_int r 1 (int_bits ppin.t_id)) (λ r.
      Base.◌>>=◌ (row_set_int r 2 (int_bits ppin.a_id)) (λ r.
        Base.◌>>=◌ (row_set_double r 3 (to_double ppin.delta)) (λ r. row_set_double r 4 time))))

module _ {S : Type 0} (heap : ℕ → ℕ) where
  -- Scratchpads of the maximal size of a history record; `nbytes` is the size of the buffers of
  -- the pool of HISTORY.
  unfoldable pub new_pads : ℕ → Call S (Unit {0})
  new_pads nbytes = do
    b ← gets (λ b. b)
    let pad : RepRow = record { dest = none; bufsz = 0; nbytes = nbytes }
    (t, size) ← lift (maxsize b.history.table)
    rep ← lift (set_rep heap pad size)
    (t', size') ← lift (maxsize t)
    rep_key ← lift (set_rep heap pad size')
    modify
        (λ b. record b { history = record b.history { table = t' }; rep = rep; rep_key = rep_key })

module _ {S : Type 0} (sm : StorageManager S) (heap : ℕ → ℕ) (len : ℕ) where
  -- `index_probe_forupdate_by_name`; the locks are the storage manager's.
  unfoldable pub index_probe_forupdate_by_name : Bytes → Action S (Unit {0})
  unfolding find_ptr index_probe
  index_probe_forupdate_by_name name = Calls.◌>>=◌ (Calls.gets (λ w. w)) (λ w.
      Calls.◌>>=◌ (Calls.lift (find_ptr w.table name))
        (λ o. Calls.◌>>=◌ (Calls.lift (assert_some o)) (λ p. index_probe sm heap len p)))

  -- `a_index_probe_forupdate`, `t_index_probe_forupdate` and `b_index_probe_forupdate`
  unfoldable pub id_probe_forupdate : TableName → ℕ → Action S (Unit {0})
  unfolding index_probe_forupdate_by_name set_row
  id_probe_forupdate k id =
      Calls.◌>>◌ (set_row (λ r. row_set_int r 0 id)) (index_probe_forupdate_by_name (name_of k))

  -- `index_probe_by_name`; `index_probe` asserts that there is an index.
  unfoldable pub index_probe_by_name : Bytes → Action S (Unit {0})
  unfolding find_ptr index_probe
  index_probe_by_name name = Calls.◌>>=◌ (Calls.gets (λ w. w)) (λ w.
      Calls.◌>>=◌ (Calls.lift (find_ptr w.table name))
        (λ o. Calls.◌>>=◌ (Calls.lift (assert_some o)) (λ p. index_probe sm heap len p)))

  unfoldable pub b_index_probe : ℕ → Action S (Unit {0})
  unfolding index_probe_by_name set_row
  b_index_probe b_id =
      Calls.◌>>◌ (set_row (λ r. row_set_int r 0 b_id))
        (index_probe_by_name (b'B' ∷ b'_' ∷ b'I' ∷ b'N' ∷ b'D' ∷ b'E' ∷ b'X' ∷ []))

  unfoldable pub a_index_probe : ℕ → Action S (Unit {0})
  unfolding index_probe_by_name set_row
  a_index_probe a_id =
      Calls.◌>>◌ (set_row (λ r. row_set_int r 0 a_id)) (index_probe_by_name (name_of account))

  unfoldable pub a_delete_by_index : ℕ → Action S (Unit {0})
  unfolding id_probe_forupdate delete_tuple
  a_delete_by_index a_id = Calls.◌>>◌ (id_probe_forupdate account a_id) (delete_tuple sm heap)

  -- Probe the record, add to its balance, and update it.
  unfoldable pub add_balance : (ℕ → ℕ → ℕ) → TableName → (id column delta : ℕ) → Call S (Unit {0})
  unfolding id_probe_forupdate get_double set_row update_tuple
  add_balance add_double k id column delta = do
    on k (id_probe_forupdate k id)
    total ← on k (get_double column)
    on k (set_row (λ r. row_set_double r column (add_double total delta)))
    on k (update_tuple sm heap)

module _ {S : Type 0} (sm : StorageManager S) (heap : ℕ → ℕ) where
  module _ (to_double : ℤ → ℕ) (time : ℕ) where
    unfoldable pub write_history : AcctUpdateInput → Call S (Unit {0})
    unfolding set_history set_row add_tuple
    write_history ppin = do
      on history (set_row (set_history to_double time ppin))
      on history (add_tuple sm heap)

  module _ (len : ℕ) (add_double : ℕ → ℕ → ℕ) (to_double : ℤ → ℕ) (time : ℕ) where
    unfoldable pub xct_acct_update : ℕ → AcctUpdateInput → Call S (Unit {0})
    unfolding new_pads add_balance write_history int_bits
    xct_acct_update nbytes ppin = do
      let delta : ℕ = to_double ppin.delta
      new_pads heap nbytes
      add_balance sm heap len add_double account (int_bits ppin.a_id) 2 delta
      write_history to_double time ppin
      add_balance sm heap len add_double teller (int_bits ppin.t_id) 2 delta
      add_balance sm heap len add_double branch (int_bits ppin.b_id) 1 delta
