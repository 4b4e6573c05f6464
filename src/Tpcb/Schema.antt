-- ===== src/Tpcb/Schema.antt =====
-- The tables of TPC-B: src/kits/tpcb/tpcb_schema.cpp, with the names of
-- src/kits/tpcb/tpcb_schema_man.cpp. The build pads no row and does not define PLP_MBENCH.
use zapps.Prelude.{ℕ, [], List, ◌∷◌, Result, false, length, ◌>>=◌}
use zapps.Prelude.Memory.{Bytes}
use zapps.Field.{SqlType, int, float, FieldDesc, setup_desc}
use zapps.Table.{TableDesc, new_table, create_primary_idx_desc}
use zapps.Tpcb.Update.{TableName, branch, teller, account, history, name_of}

-- `setup` of each placeholder in turn, with the default arguments.
setup_all : List FieldDesc → List (SqlType × Bytes) → List FieldDesc
unfolding setup_desc
setup_all [] cs = []
setup_all (d ∷ ds) [] = d ∷ ds
setup_all (d ∷ ds) (c ∷ cs) = setup_desc d c.0 c.1 0 false ∷ setup_all ds cs

-- A constructor of a table: its fields, and its primary index on the given ones.
unfoldable pub define_table : Bytes → List (SqlType × Bytes) → List ℕ → ℕ → Result TableDesc
unfolding new_table create_primary_idx_desc setup_all
define_table name columns key pd = do
  t ← new_table name (length columns) pd
  create_primary_idx_desc (record t { desc = setup_all t.desc columns }) key pd

abbrev pub columns : TableName → List (SqlType × Bytes)
columns branch =
    (int, b'B' ∷ b'_' ∷ b'I' ∷ b'D' ∷ [])
    ∷ (float, b'B' ∷ b'_' ∷ b'B' ∷ b'A' ∷ b'L' ∷ b'A' ∷ b'N' ∷ b'C' ∷ b'E' ∷ [])
    ∷ []
columns teller =
    (int, b'T' ∷ b'_' ∷ b'I' ∷ b'D' ∷ [])
    ∷ (int, b'T' ∷ b'_' ∷ b'B' ∷ b'_' ∷ b'I' ∷ b'D' ∷ [])
    ∷ (float, b'T' ∷ b'_' ∷ b'B' ∷ b'A' ∷ b'L' ∷ b'A' ∷ b'N' ∷ b'C' ∷ b'E' ∷ [])
    ∷ []
columns account =
    (int, b'A' ∷ b'_' ∷ b'I' ∷ b'D' ∷ [])
    ∷ (int, b'A' ∷ b'_' ∷ b'B' ∷ b'_' ∷ b'I' ∷ b'D' ∷ [])
    ∷ (float, b'A' ∷ b'_' ∷ b'B' ∷ b'A' ∷ b'L' ∷ b'A' ∷ b'N' ∷ b'C' ∷ b'E' ∷ [])
    ∷ []
columns history =
    (int, b'H' ∷ b'_' ∷ b'B' ∷ b'_' ∷ b'I' ∷ b'D' ∷ [])
    ∷ (int, b'H' ∷ b'_' ∷ b'T' ∷ b'_' ∷ b'I' ∷ b'D' ∷ [])
    ∷ (int, b'H' ∷ b'_' ∷ b'A' ∷ b'_' ∷ b'I' ∷ b'D' ∷ [])
    ∷ (float, b'H' ∷ b'_' ∷ b'D' ∷ b'E' ∷ b'L' ∷ b'T' ∷ b'A' ∷ [])
    ∷ (float, b'H' ∷ b'_' ∷ b'T' ∷ b'I' ∷ b'M' ∷ b'E' ∷ [])
    ∷ []

abbrev pub key_of : TableName → List ℕ
key_of branch = 0 ∷ []
key_of teller = 0 ∷ []
key_of account = 0 ∷ []
key_of history = 0 ∷ 1 ∷ 2 ∷ 3 ∷ 4 ∷ []

-- `branch_t`, `teller_t`, `account_t` and `history_t`
unfoldable pub make_table : TableName → ℕ → Result TableDesc
unfolding define_table
make_table k pd = define_table (name_of k) (columns k) (key_of k) pd
