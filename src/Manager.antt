-- ===== src/Manager.antt =====
-- The access methods of the table manager: src/kits/table_man.cpp, from `index_probe` to
-- `fetch_table`.
-- The storage manager is a parameter. A call returns, fails with an error code, or stops at an
-- assertion or a bad access; what it wrote before a failure stays written.
pub mod Calls
pub mod Keys
pub mod Runs
pub mod Entries
pub mod Contents
pub mod Keeping
pub mod Probes
pub mod Growth
pub mod Memory
use zapps.Prelude.{
  ℕ, zero, suc, ◌+◌, Bool, List, Option, none, some, if◌then◌else◌, length, get_elem?, set, deref,
  assert_some, ◌∷◌, [],
}
use zapps.Prelude as Base
use zapps.Prelude.Memory.{Bytes, read, write}
use zapps.Row.{Row, RepRow, set_rep}
use zapps.Table.{TableDesc, IndexDesc, Stid, matches_name, maxsize}
use zapps.Format.{format, load}
use zapps.Key.{format_key, key_size}
use zapps.Manager.Calls.{
  World, Action, StorageManager, Error, tuple_not_found, not_implemented, stored, pure, lift, raise,
  gets, modify, ◌>>=◌, ◌>>◌, found,
}

-- A pointer to an index that stands in the table.
pub data IndexPtr : Type 0 where
  primary : IndexPtr
  secondary : ℕ → IndexPtr

unfoldable pub get_index : TableDesc → IndexPtr → Base.Result IndexDesc
get_index t primary = deref t.primary_idx
get_index t (secondary n) = deref (get_elem? t.indexes n)

unfoldable pub set_index : TableDesc → IndexPtr → IndexDesc → TableDesc
set_index t primary i = record t { primary_idx = some i }
set_index t (secondary n) i = record t { indexes = set t.indexes n i }

find_ptr_in : List IndexDesc → Bytes → ℕ → Option IndexPtr
find_ptr_in [] name n = none
find_ptr_in (i ∷ is) name n =
    if matches_name i name then some (secondary n) else find_ptr_in is name (suc n)

-- `find_index`, which returns a pointer.
unfoldable pub find_ptr : TableDesc → Bytes → Base.Result (Option IndexPtr)
unfolding find_ptr_in
find_ptr t name =
    Base.◌>>=◌ (deref t.primary_idx)
      (λ i. Base.ok (if matches_name i name then some primary else find_ptr_in t.indexes name 0))

-- The two scratchpads of a row: `_rep` and `_rep_key`.
pub data Pad : Type 0 where
  rep rep_key : Pad

module _ {S : Type 0} where
  unfoldable pub pad_of : Pad → World S → RepRow
  pad_of rep w = w.rep
  pad_of rep_key w = w.rep_key

  unfoldable pub with_pad : Pad → RepRow → World S → World S
  with_pad rep r w = record w { rep = r }
  with_pad rep_key r w = record w { rep_key = r }

module _ {S : Type 0} (sm : StorageManager S) (heap : ℕ → ℕ) where
  -- format_key, the assertion on its result, and construct_regularkey
  unfoldable pub construct_key : IndexPtr → Pad → Action S Bytes
  unfolding get_index set_index pad_of with_pad
  construct_key p pad = do
    w ← gets (λ w. w)
    i ← lift (get_index w.table p)
    (i', r, size) ← lift (format_key heap w.table i w.row (pad_of pad w))
    modify (λ w. with_pad pad r (record w { table = set_index w.table p i' }))
    buf ← lift (assert_some r.dest)
    lift (read buf 0 size)

  -- find_assoc into the buffer of a scratchpad; its result is the length of what was found.
  unfoldable pub find_into : Stid → Bytes → Pad → ℕ → Action S ℕ
  unfolding pad_of with_pad
  find_into stid key pad len = do
    w ← gets (λ w. w)
    bs ← found (sm.find_assoc w.store stid key len)
    buf ← lift (deref (pad_of pad w).dest)
    buf' ← lift (write buf 0 bs)
    modify (with_pad pad (record (pad_of pad w) { dest = some buf' }))
    pure (length bs)

  unfoldable pub probe_primary : IndexDesc → Bytes → ℕ → Action S (Unit {0})
  unfolding find_into
  probe_primary i key len = do
    w ← gets (λ w. w)
    (t, size) ← lift (maxsize w.table)
    r ← lift (set_rep heap w.rep size)
    modify (λ w. record w { table = t; rep = r })
    n ← find_into i.stid key rep len
    w1 ← gets (λ w. w)
    buf ← lift (deref w1.rep.dest)
    row ← lift (load w1.row buf (some i.key))
    modify (λ w. record w { row = row })

  unfoldable pub probe_secondary : IndexDesc → Bytes → ℕ → Action S (Unit {0})
  unfolding find_into
  probe_secondary i key len = do
    w ← gets (λ w. w)
    p ← lift (deref w.table.primary_idx)
    (p', size) ← lift (key_size w.table p)
    r ← lift (set_rep heap w.rep_key size)
    modify (λ w. record w { table = record w.table { primary_idx = some p' }; rep_key = r })
    n ← find_into i.stid key rep_key len
    w1 ← gets (λ w. w)
    buf ← lift (deref w1.rep_key.dest)
    reference ← lift (read buf 0 n)
    m ← find_into p'.stid reference rep n
    pure tt

  -- The length passed to the first find_assoc is not initialised: `len` is what it holds.
  unfoldable pub index_probe : ℕ → IndexPtr → Action S (Unit {0})
  unfolding construct_key probe_primary probe_secondary get_index
  index_probe len p = do
    key ← construct_key p rep_key
    w ← gets (λ w. w)
    i ← lift (get_index w.table p)
    elim p [ primary ↦ probe_primary i key len | secondary n ↦ probe_secondary i key len ]

  -- One round of the loop of `add_tuple`.
  unfoldable pub add_entry : Bytes → IndexPtr → Action S (Unit {0})
  unfolding construct_key get_index
  add_entry key p = do
    sec_key ← construct_key p rep
    w ← gets (λ w. w)
    i ← lift (get_index w.table p)
    stored (λ s. sm.create_assoc s i.stid sec_key key)

  -- The indexes from number `n` on; `count` of them are left.
  unfoldable pub add_entries : Bytes → ℕ → ℕ → Action S (Unit {0})
  unfolding add_entry
  add_entries key zero n = pure tt
  add_entries key (suc count) n = do add_entry key (secondary n); add_entries key count (suc n)

  -- The record, without the size of the fields of the primary index.
  unfoldable pub format_record : Action S Bytes
  format_record = do
    w ← gets (λ w. w)
    i ← lift (deref w.table.primary_idx)
    (r, size) ← lift (format heap w.rep w.row (some i.key))
    modify (λ w. record w { rep = r })
    buf ← lift (assert_some r.dest)
    lift (read buf 0 size)

  unfoldable pub store_record : Bytes → Bytes → Action S (Unit {0})
  unfolding get_index
  store_record bs key = do
    w ← gets (λ w. w)
    i ← lift (get_index w.table primary)
    stored (λ s. sm.create_assoc s i.stid key bs)

  unfoldable pub add_all_entries : Bytes → Action S (Unit {0})
  unfolding add_entries
  add_all_entries key = do w ← gets (λ w. w); add_entries key (length w.table.indexes) 0

  -- The rest of `add_tuple`, with the record and the primary key.
  unfoldable pub add_with_key : Bytes → Bytes → Action S (Unit {0})
  unfolding store_record add_all_entries
  add_with_key bs key = do store_record bs key; add_all_entries key

  unfoldable pub add_tuple : Action S (Unit {0})
  unfolding format_record construct_key add_with_key
  add_tuple = do bs ← format_record; key ← construct_key primary rep_key; add_with_key bs key

  unfoldable pub add_index_entry : Bytes → Action S (Unit {0})
  unfolding find_ptr add_entry construct_key
  add_index_entry name = do
    w ← gets (λ w. w)
    o ← lift (find_ptr w.table name)
    p ← lift (assert_some o)
    key ← construct_key primary rep_key
    add_entry key p

  -- The entry of the row in an index, of which the key is built in the given scratchpad.
  unfoldable pub delete_entry : Pad → IndexPtr → Action S (Unit {0})
  unfolding construct_key get_index
  delete_entry pad p = do
    key ← construct_key p pad
    w ← gets (λ w. w)
    i ← lift (get_index w.table p)
    stored (λ s. sm.destroy_assoc s i.stid key)

  unfoldable pub delete_entries : ℕ → ℕ → Action S (Unit {0})
  unfolding delete_entry
  delete_entries zero n = pure tt
  delete_entries (suc count) n = do delete_entry rep (secondary n); delete_entries count (suc n)

  unfoldable pub delete_tuple : Action S (Unit {0})
  unfolding delete_entries delete_entry
  delete_tuple = do
    w ← gets (λ w. w)
    delete_entries (length w.table.indexes) 0
    delete_entry rep_key primary

  unfoldable pub delete_index_entry : Bytes → Action S (Unit {0})
  unfolding find_ptr delete_entry
  delete_index_entry name = do
    w ← gets (λ w. w)
    o ← lift (find_ptr w.table name)
    p ← lift (assert_some o)
    delete_entry rep p

  -- overwrite_assoc with offset 0 and length 0
  unfoldable pub update_tuple : Action S (Unit {0})
  unfolding construct_key get_index
  update_tuple = do
    key ← construct_key primary rep_key
    w ← gets (λ w. w)
    i ← lift (get_index w.table primary)
    stored (λ s. sm.overwrite_assoc s i.stid key [] 0)

abbrev pub read_tuple : {S : Type 0} → Action S (Unit {0})
read_tuple = raise not_implemented

abbrev pub fetch_table : {S : Type 0} → Action S (Unit {0})
fetch_table = raise not_implemented
