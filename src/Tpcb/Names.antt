-- ===== src/Tpcb/Names.antt =====
-- The names by which src/kits/tpcb/tpcb_schema_man.cpp finds the indexes that
-- src/kits/tpcb/tpcb_schema.cpp makes.
use zapps.Prelude.{
  ℕ, ◌≡◌, refl, sym, ◌∙◌, ap, [], List, ◌∷◌, Result, Option, some, none, map, ok, ok-inj, err,
  Fault, if◌then◌else◌, assert_some, assertion, false,
}
use zapps.Prelude.Memory.{Bytes}
use zapps.Row.{Row}
use zapps.Row.Access.{row_set_int}
use zapps.Table.{
  TableDesc, matches_name, same_name, new_table, create_primary_idx_desc, check_key, new_index,
  IndexDesc,
}
use zapps.Manager.{find_ptr, primary, index_probe}
use zapps.Manager.Calls.{World, StorageManager, stopped, Action, lift, modify, ◌>>=◌, ◌>>◌}
use zapps.Tpcb.Update.{
  TableName, branch, teller, account, history, name_of, set_row, b_index_probe, index_probe_by_name,
}
use zapps.Tpcb.Schema.{make_table, define_table}

-- The names of the primary index and of the others.
abbrev pub index_names : TableDesc → Option Bytes × List Bytes
index_names t =
    (elim t.primary_idx [ some i ↦ some i.name | none ↦ none ], map (λ i. i.name) t.indexes)

make_table-index_names :
    (k : TableName) (pd : ℕ) {t : TableDesc}
    → make_table k pd ≡ ok t
    → index_names t ≡ (some (name_of k), [])
unfolding make_table define_table new_table create_primary_idx_desc check_key new_index
make_table-index_names branch pd e = ap index_names (sym (ok-inj e))
make_table-index_names teller pd e = ap index_names (sym (ok-inj e))
make_table-index_names account pd e = ap index_names (sym (ok-inj e))
make_table-index_names history pd e = ap index_names (sym (ok-inj e))

find_ptr-one_of :
    (t : TableDesc) (p : Option IndexDesc) (is : List IndexDesc) (name probe : Bytes)
    → index_names (record t { primary_idx = p; indexes = is }) ≡ (some name, [])
    → find_ptr (record t { primary_idx = p; indexes = is }) probe
      ≡ ok (if same_name probe name then some primary else none)
unfolding find_ptr matches_name
find_ptr-one_of t none is name probe e = cc
find_ptr-one_of t (some i) [] name probe e =
    ap
      (λ n.
        ok (elim n.0 [ some m ↦ if same_name probe m then some primary else none | none ↦ none ]))
      e
find_ptr-one_of t (some i) (j ∷ is) name probe e = cc

-- The primary index is found under its name, and no index under another.
find_ptr-one :
    (t : TableDesc) (name probe : Bytes)
    → index_names t ≡ (some name, [])
    → find_ptr t probe ≡ ok (if same_name probe name then some primary else none)
find_ptr-one t name probe e = find_ptr-one_of t t.primary_idx t.indexes name probe e

module _ {S : Type 0} (sm : StorageManager S) (heap : ℕ → ℕ) (len : ℕ) where
  abbrev b_index : Bytes
  b_index = b'B' ∷ b'_' ∷ b'I' ∷ b'N' ∷ b'D' ∷ b'E' ∷ b'X' ∷ []

  find_nothing :
      (w : World S) (name probe : Bytes)
      → index_names w.table ≡ (some name, [])
      → same_name probe name ≡ false
      → index_probe_by_name sm heap len probe w ≡ stopped assertion
  unfolding index_probe_by_name
  find_nothing w name probe e other =
      ap (λ r. (lift r >>= λ o. (lift (assert_some o) >>= λ p. index_probe sm heap len p)) w)
        (find_ptr-one w.table name probe e ∙ ap (λ b. ok (if b then some primary else none)) other)

  set_row-stopped :
      (r : Result Row) (m : Action S (Unit {0})) (fault : Fault) (w : World S)
      → ((row : Row) → m (record w { row = row }) ≡ stopped fault)
      → (f : Fault) × (((lift r >>= λ row. modify (λ w. record w { row = row })) >> m) w
          ≡ stopped f)
  set_row-stopped (ok row) m fault w then_stopped = (fault, then_stopped row)
  set_row-stopped (err f) m fault w then_stopped = (f, refl)

  -- In every table that the schema makes for BRANCH, however its indexes change but for their
  -- names, the name by which a record is probed for update finds the primary index, and the plain
  -- probe always stops, since no index is named B_INDEX.
  pub b_index_probe-stopped :
      (pd b_id : ℕ) (made : TableDesc) (w : World S)
      → make_table branch pd ≡ ok made
      → index_names w.table ≡ index_names made
      → (find_ptr w.table (name_of branch) ≡ ok (some primary))
        × ((fault : Fault) × (b_index_probe sm heap len b_id w ≡ stopped fault))
  unfolding b_index_probe set_row same_name
  b_index_probe-stopped pd b_id made w e same =
      let named = same ∙ make_table-index_names branch pd e in
      (
        find_ptr-one w.table (name_of branch) (name_of branch) named,
        set_row-stopped (row_set_int w.row 0 b_id) (index_probe_by_name sm heap len b_index)
            assertion w
            (λ row. find_nothing (record w { row = row }) (name_of branch) b_index named refl),
      )
