-- ===== src/Tests/Updates.antt =====
-- An account update over the storage manager in main memory.
use zapps.Field.Reads.{get_float_value}
use zapps.Format.{format, load}
use zapps.Key.{format_key}
use zapps.Field.Access.{set_int_value, copy_value, set_float_value, set_value, is_null}
use zapps.Prelude.{Fault, ℕ, ◌≡◌, ◌+◌, refl, ok, [], ◌>>=◌, ◌∷◌, none, some, List, Result, err}
use zapps.Prelude.Memory.{write, read, Bytes}
use zapps.Prelude.Int.{ℤ, pos, negsuc}
use zapps.Field.{setup, new_value, DescPtr, FieldDesc}
use zapps.Row.{
  set_rep, setup_values, nullable_fields, fixed_space, Row, RepRow, empty_row, setup_row,
}
use zapps.Row.Access.{row_get_double, row_set_int, row_set_double}
use zapps.Table.{
  check_key, new_index, new_table, create_primary_idx_desc, maxsize, matches_name, index_maxkeysize,
  Stid, TableDesc,
}
use zapps.Manager.{add_tuple, find_ptr, primary}
use zapps.Manager.Calls.{StorageManager, found_value, World, Outcome}
use zapps.Manager.Calls as Calls
use zapps.Manager.Memory.{Contents, memory, lookup, memory-Additive}
use zapps.Tpcb.Input.{AcctUpdateInput}
use zapps.Tpcb.Schema.{define_table, make_table}
use zapps.Tpcb.Update.{
  name_of, b_index_probe, TableName, branch, teller, account, history, Side, Bench, Ended, stopped,
  failed, done, xct_acct_update,
}
use zapps.Tpcb.Names.{b_index_probe-stopped}
use zapps.Tpcb.Balances.{Intact, xct_acct_update-Intact}

abbrev heap : ℕ → ℕ
heap n = n + 7

abbrev blank : TableDesc
blank = record { name = []; desc = []; pd = 0; primary_idx = none; indexes = []; known_maxsize = 0 }

abbrev stid_of : TableName → ℕ
stid_of branch = 1
stid_of teller = 2
stid_of account = 3
stid_of history = 4

abbrev created : TableName → Result TableDesc → TableDesc
created k (ok t) = record t {
  primary_idx = elim t.primary_idx [
    | some i ↦ some (record i { stid = some (stid_of k) })
    | none ↦ none
  ];
}
created k (err fault) = blank

abbrev table_of : TableName → TableDesc
unfolding make_table
table_of k = created k (make_table k 0)

abbrev pointers : ℕ → List FieldDesc → List DescPtr
pointers a [] = []
pointers a (d ∷ ds) = record { address = a; desc = d } ∷ pointers (a + 100) ds

abbrev made : Result (Row × ℕ) → Row
made (ok r) = r.0
made (err fault) = empty_row

abbrev row_for : TableName → Row
unfolding setup_row table_of
row_for k = made (
    setup_row heap empty_row
      (record { address = stid_of k; descs = pointers 100 (table_of k).desc }))

abbrev pad : RepRow
pad = record { dest = none; bufsz = 0; nbytes = 64 }

abbrev side_of : TableName → Side
side_of k = record { table = table_of k; row = row_for k }

abbrev bench : {S : Type 0} → S → Bench S
bench s = record {
  store = s;
  branch = side_of branch;
  teller = side_of teller;
  account = side_of account;
  history = side_of history;
  rep = pad;
  rep_key = pad;
}

abbrev input : AcctUpdateInput
input = record { b_id = pos 1; t_id = pos 3; a_id = pos 5; delta = pos 7 }

abbrev real : ℤ → ℕ
real (pos n) = n
real (negsuc n) = 0

-- A record of one table, as `add_tuple` stores it.
abbrev fill : Outcome Contents (Unit {0}) → Contents
fill (Calls.stopped fault) = []
fill (Calls.failed e w) = []
fill (Calls.done u w) = w.store

abbrev with_fields : Result Row → Row
with_fields (ok r) = r
with_fields (err fault) = empty_row

abbrev add : TableName → Row → Contents → Contents
add k r s = fill (
    add_tuple memory heap
      (record { store = s; table = table_of k; row = r; rep = pad; rep_key = pad }))

abbrev three_records : Contents
three_records =
    add account
      (with_fields (
        row_set_int (row_for account) 0 5 >>= λ r.
        row_set_int r 1 1 >>= λ r. row_set_double r 2 100))
      (add teller
        (with_fields (
          row_set_int (row_for teller) 0 3 >>= λ r.
          row_set_int r 1 1 >>= λ r. row_set_double r 2 200))
        (add branch (with_fields (row_set_int (row_for branch) 0 1 >>= λ r. row_set_double r 1 300))
          []))

run : Ended Contents (Unit {0})
run = xct_acct_update memory heap 4 (λ a b. a + b) real 77 64 input (bench three_records)

-- A storage manager that records the calls which write.
abbrev stored : Bytes
stored = 1 ∷ 0 ∷ 0 ∷ 0 ∷ 1 ∷ 0 ∷ 0 ∷ 0 ∷ 100 ∷ 0 ∷ 0 ∷ 0 ∷ 0 ∷ 0 ∷ 0 ∷ 0 ∷ []

abbrev recorder : StorageManager (List (Stid × Bytes × Bytes))
recorder = record {
  create_assoc = λ s i k v. (none, (i, k, v) ∷ s);
  destroy_assoc = λ s i k. (none, s);
  overwrite_assoc = λ s i k v offset. (none, (i, k, v) ∷ s);
  find_assoc = λ s i k len. found_value stored;
}

abbrev calls : Ended (List (Stid × Bytes × Bytes)) (Unit {0}) → List (Stid × Bytes × Bytes)
calls (stopped fault) = []
calls (failed e b) = []
calls (done u b) = b.store

-- The update commits; what it writes over the records of an account, a teller and a branch is empty.
written :
    calls (xct_acct_update recorder heap 4 (λ a b. a + b) real 77 64 input (bench []))
    ≡ (some 1, 1 ∷ 0 ∷ 0 ∷ 0 ∷ [], [])
      ∷ (some 2, 3 ∷ 0 ∷ 0 ∷ 0 ∷ [], [])
      ∷ (
        some 4,
        1 ∷ 0 ∷ 0 ∷ 0 ∷ 3 ∷ 0 ∷ 0 ∷ 0 ∷ 5 ∷ 0 ∷ 0 ∷ 0 ∷ 7 ∷ 0 ∷ 0 ∷ 0 ∷ 0 ∷ 0 ∷ 0 ∷ 0 ∷ 77 ∷ 0 ∷ 0
            ∷ 0 ∷ 0 ∷ 0 ∷ 0 ∷ 0 ∷ [],
        1 ∷ 0 ∷ 0 ∷ 0 ∷ 3 ∷ 0 ∷ 0 ∷ 0 ∷ 5 ∷ 0 ∷ 0 ∷ 0 ∷ 7 ∷ 0 ∷ 0 ∷ 0 ∷ 0 ∷ 0 ∷ 0 ∷ 0 ∷ 77 ∷ 0 ∷ 0
            ∷ 0 ∷ 0 ∷ 0 ∷ 0 ∷ 0 ∷ [],
      )
      ∷ (some 3, 5 ∷ 0 ∷ 0 ∷ 0 ∷ [], [])
      ∷ []
unfolding xct_acct_update maxsize table_of set_rep write row_set_int row_for empty_row setup_values
    setup new_value set_int_value matches_name format_key index_maxkeysize copy_value read format
    row_set_double set_float_value nullable_fields fixed_space load set_value row_get_double is_null
    get_float_value
written = refl

xct_acct_update-Intact_example : Intact lookup three_records run
unfolding run xct_acct_update
xct_acct_update-Intact_example =
    xct_acct_update-Intact lookup memory heap 4 memory-Additive (λ a b. a + b) real 77 64 input
      (bench three_records)

abbrev made_branch : TableDesc
unfolding make_table
made_branch = elim (make_table branch 0) [ ok t ↦ t | err fault ↦ blank ]

abbrev branch_world : World Contents
branch_world = record {
  store = three_records;
  table = table_of branch;
  row = row_for branch;
  rep = pad;
  rep_key = pad;
}

b_index_probe-stopped_example :
    (find_ptr (table_of branch) (name_of branch) ≡ ok (some primary))
    × ((fault : Fault) × (b_index_probe memory heap 4 1 branch_world ≡ Calls.stopped fault))
unfolding make_table define_table new_table create_primary_idx_desc check_key new_index table_of
    made_branch
b_index_probe-stopped_example =
    b_index_probe-stopped memory heap 4 0 1 made_branch branch_world refl refl
