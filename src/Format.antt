-- ===== src/Format.antt =====
-- The conversion between a record in main memory and its disk format:
-- src/kits/table_man.cpp, `format` and `load`.
-- The manager's table is the one that the row is set up for. An index is given by the positions of
-- its key fields.
pub mod Copies
pub mod Steps
pub mod Loads
pub mod Region
pub mod RoundTrip
pub mod Nulls
pub mod Sizes
pub mod Indexed
pub mod Inverse
use zapps.Prelude.{
  ℕ, zero, suc, ◌+◌, ◌*◌, ◌/◌, ◌-◌, ◌^◌, Bool, true, false, List, [], ◌∷◌, Option, none, some, ltb,
  leb, ◌==◌, if◌then◌else◌, length, drop, ◌&&◌, ◌||◌, not, bit_and, Result, ok, err, bad_access,
  ◌>>=◌, ◌>>◌, assert, assert_some, deref,
}
use zapps.Prelude.Memory.{Bytes, read, write}
use zapps.Field.{DescPtr, FieldValue, is_variable_length}
use zapps.Field.Access.{set_value, copy_value, set_null, to_bytes}
use zapps.Field.Reads.{of_bytes}
use zapps.Row.{Row, RepRow, set_rep, sizeof_offset}

unfoldable pub is_key : ℕ → List ℕ → Bool
is_key i [] = false
is_key i (k ∷ ks) = i == k || is_key i ks

-- Whether field `i` is part of the given index, if there is one.
unfoldable pub skips : Option (List ℕ) → ℕ → Bool
unfolding is_key
skips none i = false
skips (some key) i = is_key i key

-- The space of the fields of variable length, from field `i` on.
unfoldable pub var_space : Option (List ℕ) → ℕ → List FieldValue → Result ℕ
unfolding skips
var_space index i [] = ok 0
var_space index i (v ∷ vs) = do
  p ← assert_some v.field_desc
  rest ← var_space index (i + 1) vs
  ok (
      if skips index i || not (is_variable_length p.type) || v.null_flag
      then rest
      else v.real_size + sizeof_offset + rest)

-- Where the next field goes: the null flags seen, and the offsets of the fixed values, of the slots
-- and of the variable values.
pub record Cursor : Type 0 where
  pub nulls : ℕ
  pub fixed : ℕ
  pub slot : ℕ
  pub var : ℕ

unfoldable pub start : Row → Cursor
start r = record { nulls = 0; fixed = r.fixed_offset; slot = r.var_slot_offset; var = r.var_offset }

-- SET_NULL_FLAG: `*(start + (k >> 3)) &= 1 << (k >> 3)`
unfoldable pub set_null_flag : Bytes → ℕ → Result Bytes
set_null_flag buf k = do
  b ← read buf (k / 8) 1
  write buf (k / 8) (bit_and (of_bytes b) (2 ^ (k / 8)) ∷ [])

-- A `char` as an `int`, in 32 bits.
abbrev promoted : ℕ → ℕ
promoted c = if ltb c 128 then c else c + 0xffff_ff00

-- IS_NULL_FLAG: `*(start + (k >> 3)) & (1 << (k >> 3))`
unfoldable pub is_null_flag : Bytes → ℕ → Result Bool
is_null_flag buf k = do
  b ← read buf (k / 8) 1
  ok (not (bit_and (promoted (of_bytes b)) (2 ^ (k / 8)) == 0))

-- The null flag of a nullable field.
format_null : DescPtr → FieldValue → Cursor → Bytes → Result Bytes
unfolding set_null_flag
format_null p v c buf = if p.allow_null && v.null_flag then set_null_flag buf c.nulls else ok buf

unfoldable pub count_null : DescPtr → Cursor → Cursor
count_null p c = if p.allow_null then record c { nulls = c.nulls + 1 } else c

-- A field of variable length: its value, and its length in the next slot.
format_var : FieldValue → Cursor → Bytes → Result (Cursor × Bytes)
unfolding to_bytes
format_var v c buf = do
  bs ← copy_value v
  buf1 ← write buf c.var bs
  buf2 ← write buf1 c.slot (to_bytes sizeof_offset v.real_size)
  ok (record c { var = c.var + v.real_size; slot = c.slot + sizeof_offset }, buf2)

format_fixed : FieldValue → Cursor → Bytes → Result (Cursor × Bytes)
format_fixed v c buf = do
  bs ← copy_value v
  buf1 ← write buf c.fixed bs
  ok (record c { fixed = c.fixed + v.max_size }, buf1)

-- A field with its description.
unfoldable pub format_known : DescPtr → FieldValue → Cursor → Bytes → Result (Cursor × Bytes)
unfolding format_null count_null format_var format_fixed
format_known p v c buf = do
  buf' ← format_null p v c buf
  if is_variable_length p.type
      then format_var v (count_null p c) buf'
      else format_fixed v (count_null p c) buf'

-- One round of the loop of `format`. The index plays no part in it.
unfoldable pub format_field : FieldValue → Cursor → Bytes → Result (Cursor × Bytes)
unfolding format_known
format_field v c buf = do p ← assert_some v.field_desc; format_known p v c buf

unfoldable pub format_fields : List FieldValue → Cursor → Bytes → Result Bytes
unfolding format_field
format_fields [] c buf = ok buf
format_fields (v ∷ vs) c buf = do (c', buf') ← format_field v c buf; format_fields vs c' buf'

-- The space that `format` asks for.
unfoldable pub tuple_size : Row → List FieldValue → Option (List ℕ) → Result ℕ
unfolding var_space
tuple_size r vs index = do
  space ← var_space index 0 vs
  let fixed_size = r.var_slot_offset - r.fixed_offset
  ok (space + fixed_size + (if r.null_count == 0 then 0 else r.null_count / 8 + 1))

-- Returns the scratchpad with the record, and the size of the record.
unfoldable pub format : (ℕ → ℕ) → RepRow → Row → Option (List ℕ) → Result (RepRow × ℕ)
unfolding tuple_size start format_fields
format heap rep r index = do
  vs ← deref r.values
  tupsize ← tuple_size r vs index
  assert (ltb 0 tupsize)
  rep' ← set_rep heap rep tupsize
  buf ← deref rep'.dest
  buf' ← format_fields vs (start r) buf
  ok (record rep' { dest = some buf' }, tupsize)

load_var : Bytes → Cursor → FieldValue → Result (Cursor × FieldValue)
load_var data' c v = do
  slot ← read data' c.slot sizeof_offset
  let var_len = of_bytes slot
  w ← set_value v (drop c.var data') var_len
  ok (record c { var = c.var + var_len; slot = c.slot + sizeof_offset }, w)

load_fixed : Bytes → Cursor → FieldValue → Result (Cursor × FieldValue)
load_fixed data' c v = do
  w ← set_value v (drop c.fixed data') v.max_size
  ok (record c { fixed = c.fixed + v.max_size }, w)

load_null : DescPtr → Bytes → Cursor → Result Bool
unfolding is_null_flag
load_null p data' c = if p.allow_null then is_null_flag data' c.nulls else ok false

load_shown : DescPtr → Bytes → Cursor → FieldValue → Result (Cursor × FieldValue)
unfolding load_var load_fixed
load_shown p data' c v =
    if is_variable_length p.type then load_var data' c v else load_fixed data' c v

unfoldable pub load_known : DescPtr → Bytes → Cursor → FieldValue → Result (Cursor × FieldValue)
unfolding load_null load_shown count_null
load_known p data' c v = do
  null ← load_null p data' c
  if null
      then (do w ← set_null v; ok (count_null p c, w))
      else load_shown p data' (count_null p c) v

-- One round of the loop of `load`, for a field that is not skipped.
unfoldable pub load_field : Bytes → Cursor → FieldValue → Result (Cursor × FieldValue)
unfolding load_known
load_field data' c v = do p ← assert_some v.field_desc; load_known p data' c v

-- The fields from field `i` on. A field of the index is left as it is, and takes no space.
unfoldable pub load_fields :
    Option (List ℕ) → ℕ → Bytes → Cursor → List FieldValue → Result (List FieldValue)
unfolding load_field skips
load_fields index i data' c [] = ok []
load_fields index i data' c (v ∷ vs) = do
  (c', w) ← if skips index i then ok (c, v) else load_field data' c v
  ws ← load_fields index (i + 1) data' c' vs
  ok (w ∷ ws)

unfoldable pub load : Row → Bytes → Option (List ℕ) → Result Row
unfolding start load_fields
load r data' index = do
  vs ← deref r.values
  ws ← load_fields index 0 data' (start r) vs
  ok (record r { values = some ws })
