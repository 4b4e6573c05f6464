-- ===== src/Key.antt =====
-- Keys of an index: src/kits/table_man.cpp, `format_key`, `load_key`, `min_key`, `max_key` and
-- `key_size`.
-- The manager's table and the index are arguments; the index comes back with the size of its key.
pub mod Places
pub mod RoundTrip
use zapps.Prelude.{
  ℕ, ◌+◌, List, [], ◌∷◌, Option, some, ltb, get_elem?, set, drop, Result, ok, ◌>>=◌, ◌>>◌, assert,
  deref,
}
use zapps.Prelude.Memory.{Bytes, write}
use zapps.Field.{FieldValue}
use zapps.Field.Access.{set_value, copy_value}
use zapps.Field.Limits.{set_min_value, set_max_value}
use zapps.Row.{Row, RepRow, set_rep}
use zapps.Table.{TableDesc, IndexDesc, index_maxkeysize}

unfoldable pub key_size : TableDesc → IndexDesc → Result (IndexDesc × ℕ)
key_size t i = index_maxkeysize t i

-- The loop of `format_key`: each field of the key takes its maximal size.
unfoldable pub format_key_fields : List FieldValue → List ℕ → ℕ → Bytes → Result Bytes
format_key_fields vs [] offset buf = ok buf
format_key_fields vs (k ∷ ks) offset buf = do
  v ← deref (get_elem? vs k)
  bs ← copy_value v
  buf' ← write buf offset bs
  format_key_fields vs ks (offset + v.max_size) buf'

unfoldable pub format_key :
    (ℕ → ℕ) → TableDesc → IndexDesc → Row → RepRow → Result (IndexDesc × RepRow × ℕ)
unfolding key_size format_key_fields
format_key heap t i r rep = do
  (i', isz) ← key_size t i
  assert (ltb 0 isz)
  rep' ← set_rep heap rep isz
  vs ← deref r.values
  buf ← deref rep'.dest
  buf' ← format_key_fields vs i'.key 0 buf
  ok (i', record rep' { dest = some buf' }, isz)

unfoldable pub load_key_fields : Bytes → List ℕ → ℕ → List FieldValue → Result (List FieldValue)
load_key_fields string [] offset vs = ok vs
load_key_fields string (k ∷ ks) offset vs = do
  v ← deref (get_elem? vs k)
  w ← set_value v (drop offset string) v.max_size
  load_key_fields string ks (offset + v.max_size) (set vs k w)

unfoldable pub load_key : Bytes → IndexDesc → Row → Result Row
unfolding load_key_fields
load_key string i r = do
  vs ← deref r.values
  ws ← load_key_fields string i.key 0 vs
  ok (record r { values = some ws })

-- The loops of `min_key` and `max_key`.
unfoldable pub set_each :
    (FieldValue → Result FieldValue) → List ℕ → List FieldValue → Result (List FieldValue)
set_each limit [] vs = ok vs
set_each limit (k ∷ ks) vs = do
  v ← deref (get_elem? vs k)
  w ← limit v
  set_each limit ks (set vs k w)

unfoldable pub limit_key :
    (FieldValue → Result FieldValue)
    → (ℕ → ℕ)
    → TableDesc
    → IndexDesc
    → Row
    → RepRow
    → Result (Row × IndexDesc × RepRow × ℕ)
unfolding set_each format_key
limit_key limit heap t i r rep = do
  vs ← deref r.values
  ws ← set_each limit i.key vs
  let r' : Row = record r { values = some ws }
  (i', rep', isz) ← format_key heap t i r' rep
  ok (r', i', rep', isz)

unfoldable pub min_key :
    (ℕ → ℕ) → TableDesc → IndexDesc → Row → RepRow → Result (Row × IndexDesc × RepRow × ℕ)
unfolding limit_key
min_key heap t i r rep = limit_key set_min_value heap t i r rep

unfoldable pub max_key :
    (ℕ → ℕ) → TableDesc → IndexDesc → Row → RepRow → Result (Row × IndexDesc × RepRow × ℕ)
unfolding limit_key
max_key heap t i r rep = limit_key set_max_value heap t i r rep
