-- ===== src/Table.antt =====
-- src/kits/table_desc.h, src/kits/table_desc.cpp, src/kits/index_desc.h and
-- src/kits/index_desc.cpp: the description of a table and of its indexes.
-- A call on an index that stands in a table returns the index as the call leaves it. Sizes are
-- numbers without a bound. The physical creation of tables and indexes calls the storage manager
-- only.
pub mod Indexes
pub mod Sizes
use zapps.Prelude.{
  ℕ, zero, suc, ◌+◌, ◌*◌, ◌/◌, Bool, true, false, List, [], ◌∷◌, ◌++◌, Option, none, some, ltb,
  ◌==◌, if◌then◌else◌, length, get_elem?, set, replicate, ◌&&◌, ◌||◌, not, bit_and, Result, ok, err,
  bad_access, ◌>>=◌, ◌>>◌, assert, assert_some, deref,
}
use zapps.Prelude.Memory.{Bytes}
use zapps.Field.{FieldDesc, empty_desc, set_keydesc, is_variable_length}
use zapps.Row.{sizeof_offset}

-- strcmp(a, b) == 0
unfoldable pub same_name : Bytes → Bytes → Bool
same_name [] [] = true
same_name [] (y ∷ ys) = false
same_name (x ∷ xs) [] = false
same_name (x ∷ xs) (y ∷ ys) = x == y && same_name xs ys

-- The storage manager's name for an index; `stid_t::null` is `none`.
abbrev pub Stid : Type 0
Stid = Option ℕ

pub record IndexDesc : Type 0 where
  pub stid : Stid
  pub name : Bytes
  pub key : List ℕ
  pub unique : Bool
  pub primary : Bool
  pub nolock : Bool
  pub latchless : Bool
  pub rmapholder : Bool
  pub maxkeysize : ℕ
  pub keydesc : Bytes

abbrev pub pd_nolock : ℕ
pd_nolock = 0x4

abbrev pub pd_nolatch : ℕ
pd_nolatch = 0x8

abbrev pub max_keydesc_len : ℕ
max_keydesc_len = 40

unfoldable pub new_index : Bytes → List ℕ → Bool → Bool → ℕ → Bool → IndexDesc
new_index name fields unique primary pd rmapholder = record {
  stid = none;
  name = name;
  key = fields;
  unique = unique;
  primary = primary;
  nolock = not (bit_and pd pd_nolock == 0);
  latchless = not (bit_and pd pd_nolatch == 0);
  rmapholder = rmapholder;
  maxkeysize = 0;
  keydesc = [];
}

unfoldable pub matches_name : IndexDesc → Bytes → Bool
unfolding same_name
matches_name i name = same_name name i.name

unfoldable pub key_index : IndexDesc → ℕ → Result ℕ
key_index i n = assert_some (get_elem? i.key n)

pub record TableDesc : Type 0 where
  pub name : Bytes
  pub desc : List FieldDesc
  pub pd : ℕ
  pub primary_idx : Option IndexDesc
  pub indexes : List IndexDesc
  pub known_maxsize : ℕ

unfoldable pub new_table : Bytes → ℕ → ℕ → Result TableDesc
unfolding empty_desc
new_table name fieldcnt pd = do
  assert (ltb 0 fieldcnt)
  ok record {
    name = name;
    desc = replicate fieldcnt empty_desc;
    pd = pd;
    primary_idx = none;
    indexes = [];
    known_maxsize = 0;
  }

unfoldable pub find_in : List IndexDesc → Bytes → Option IndexDesc
unfolding matches_name
find_in [] name = none
find_in (i ∷ is) name = if matches_name i name then some i else find_in is name

-- The primary index comes first; it is followed with no check.
unfoldable pub find_index : TableDesc → Bytes → Result (Option IndexDesc)
unfolding find_in
find_index t name = do
  i ← deref t.primary_idx
  ok (if matches_name i name then some i else find_in t.indexes name)

find_field_from : List FieldDesc → Bytes → ℕ → Option ℕ
find_field_from [] name i = none
find_field_from (d ∷ ds) name i =
    if same_name name d.name then some i else find_field_from ds name (i + 1)

-- The source's -1 is `none`.
unfoldable pub find_field_by_name : TableDesc → Bytes → Option ℕ
unfolding find_field_from
find_field_by_name t name = find_field_from t.desc name 0

-- The checks on the fields of an index: each is a field of the table, and only the last one is of
-- variable length.
unfoldable pub check_key : List FieldDesc → List ℕ → Result (Unit {0})
check_key ds [] = ok tt
check_key ds (f ∷ fs) = do
  assert (ltb f (length ds))
  d ← deref (get_elem? ds f)
  assert (not (is_variable_length d.type && not (length fs == 0)))
  check_key ds fs

unfoldable pub add_index : TableDesc → IndexDesc → TableDesc
add_index t i =
    if i.unique && i.primary
    then record t { primary_idx = some i }
    else record t { indexes = t.indexes ++ (i ∷ []) }

unfoldable pub create_index_desc : TableDesc → Bytes → List ℕ → Bool → Bool → ℕ → Result TableDesc
unfolding check_key add_index new_index
create_index_desc t name fields unique primary pd = do
  check_key t.desc fields
  ok (add_index t (new_index name fields unique primary pd false))

unfoldable pub create_primary_idx_desc : TableDesc → List ℕ → ℕ → Result TableDesc
unfolding check_key new_index
create_primary_idx_desc t fields pd = do
  check_key t.desc fields
  ok (record t { primary_idx = some (new_index t.name fields true true pd false) })

unfoldable pub set_primary : TableDesc → IndexDesc → Result TableDesc
set_primary t i = do assert (i.primary && i.unique); ok (record t { primary_idx = some i })

-- strcat into a buffer of MAX_KEYDESC_LEN characters
unfoldable pub concat : Bytes → Bytes → Result Bytes
concat dest src =
    if ltb (length dest + length src) max_keydesc_len then ok (dest ++ src) else err bad_access

-- Each description of a key field is set where it was not, in the table.
unfoldable pub concat_keydescs : List FieldDesc → List ℕ → Bytes → Result (List FieldDesc × Bytes)
unfolding set_keydesc concat
concat_keydescs ds [] acc = ok (ds, acc)
concat_keydescs ds (k ∷ ks) acc = do
  d ← deref (get_elem? ds k)
  let d' = set_keydesc d
  acc' ← concat acc d'.keydesc
  concat_keydescs (set ds k d') ks acc'

unfoldable pub index_keydesc : TableDesc → IndexDesc → Result (TableDesc × IndexDesc)
unfolding concat_keydescs
index_keydesc t i = if ltb 1 (length i.keydesc) then ok (t, i) else (do
  (ds, keydesc) ← concat_keydescs t.desc i.key i.keydesc
  ok (record t { desc = ds }, record i { keydesc = keydesc }))

unfoldable pub sum_sizes : List FieldDesc → List ℕ → Result ℕ
sum_sizes ds [] = ok 0
sum_sizes ds (k ∷ ks) = do d ← deref (get_elem? ds k); rest ← sum_sizes ds ks; ok (d.size + rest)

-- The size is computed once, and kept in the index.
unfoldable pub index_maxkeysize : TableDesc → IndexDesc → Result (IndexDesc × ℕ)
unfolding sum_sizes
index_maxkeysize t i =
    if ltb 0 i.maxkeysize
    then ok (i, i.maxkeysize)
    else (do size ← sum_sizes t.desc i.key; ok (record i { maxkeysize = size }, size))

unfoldable pub all_sizes : List FieldDesc → ℕ
all_sizes [] = 0
all_sizes (d ∷ ds) = d.size + all_sizes ds

unfoldable pub count_nulls : List FieldDesc → ℕ
count_nulls [] = 0
count_nulls (d ∷ ds) = (if d.allow_null then 1 else 0) + count_nulls ds

unfoldable pub count_vars : List FieldDesc → ℕ
count_vars [] = 0
count_vars (d ∷ ds) = (if is_variable_length d.type then 1 else 0) + count_vars ds

unfoldable pub maxsize : TableDesc → Result (TableDesc × ℕ)
unfolding all_sizes count_nulls count_vars
maxsize t =
    let size : ℕ =
      all_sizes t.desc + (count_vars t.desc * sizeof_offset + count_nulls t.desc / 8 + 1) in
    if not (t.known_maxsize == 0) then ok (t, t.known_maxsize) else (do
      assert (t.known_maxsize == 0 || t.known_maxsize == size)
      ok (record t { known_maxsize = size }, size))
