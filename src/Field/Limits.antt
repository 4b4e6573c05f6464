-- ===== src/Field/Limits.antt =====
-- `reset`, and the least and greatest value of a type, with which the ends of an index range are
-- built.
use zapps.Prelude.{
  ℕ, zero, suc, true, false, Option, none, some, [], ◌∷◌, replicate, Result, ok, err, bad_access,
  ◌>>=◌, assert_some,
}
use zapps.Prelude.Memory.{Bytes, write}
use zapps.Field.{
  SqlType, bit, smallint, int, float, long, char, fixchar, varchar, time, numeric, snumeric,
  FieldValue, zeros,
}
use zapps.Field.Access.{to_bytes}

-- memset(_data, c, n); no bytes of a NULL buffer are set.
fill : Option Bytes → ℕ → ℕ → Result (Option Bytes)
fill none c zero = ok none
fill none c (suc n) = err bad_access
fill (some buf) c n = do buf' ← write buf 0 (replicate n c); ok (some buf')

-- An assignment to a scalar member of the union, with no check of the type.
unfoldable pub assign : FieldValue → Bytes → Result FieldValue
assign v bytes = do value ← write v.value 0 bytes; ok (record v { value = value })

assign_data : FieldValue → ℕ → ℕ → Result FieldValue
unfolding fill
assign_data v c n = do buf ← fill v.buffer c n; ok (record v { buffer = buf })

-- `if (_data && _data_size) memset(_data, 0, _data_size)`
clear_data : Option Bytes → FieldValue → Result FieldValue
unfolding assign_data
clear_data none v = ok v
clear_data (some buf) v = assign_data v 0 v.data_size

reset_as : SqlType → FieldValue → Result FieldValue
unfolding assign clear_data to_bytes
reset_as bit v = assign v (zeros 1)
reset_as smallint v = assign v (zeros 2)
reset_as char v = assign v (zeros 1)
reset_as int v = assign v (zeros 4)
reset_as float v = assign v (zeros 8)
reset_as long v = assign v (zeros 8)
reset_as time v = clear_data v.buffer v
reset_as varchar v = clear_data v.buffer v
reset_as fixchar v = clear_data v.buffer v
reset_as numeric v = clear_data v.buffer v
reset_as snumeric v = clear_data v.buffer v

-- The assert on the description is commented out; a missing one is followed as a pointer.
unfoldable pub reset : FieldValue → Result FieldValue
unfolding reset_as
reset v = elim v.field_desc [
  | none ↦ err bad_access
  | some p ↦ reset_as p.type (record v { null_flag = true })
]

-- The macros MIN_SMALLINT, MIN_INT, MIN_FLOAT are 0; MAX_SMALLINT is 1<<15, MAX_INT 1<<31 and
-- MAX_FLOAT 1<<10, each kept by the bits that its member has.
abbrev max_smallint : ℕ
max_smallint = 0x8000

abbrev pub max_int : ℕ
max_int = 0x8000_0000

abbrev max_float : ℕ
max_float = 0x400

-- The pattern of the double 1024.0.
abbrev max_float_bits : ℕ
max_float_bits = 0x4090_0000_0000_0000

unfoldable pub set_min_as : SqlType → FieldValue → Result FieldValue
unfolding assign assign_data
set_min_as bit v = assign v (zeros 1)
set_min_as smallint v = assign v (zeros 2)
set_min_as char v = assign v (zeros 1)
set_min_as int v = assign v (zeros 4)
set_min_as float v = assign v (zeros 8)
set_min_as long v = assign v (zeros 8)
set_min_as varchar v = assign_data v 0 1
set_min_as fixchar v = assign_data v 0 1
set_min_as numeric v = assign_data v 0 1
set_min_as snumeric v = assign_data v 0 1
set_min_as time v = ok v

unfoldable pub set_min_value : FieldValue → Result FieldValue
unfolding set_min_as
set_min_value v = do
  p ← assert_some v.field_desc
  set_min_as p.type (record v { null_flag = false })

unfoldable pub set_max_as : SqlType → FieldValue → Result FieldValue
unfolding assign assign_data to_bytes
set_max_as bit v = assign v (1 ∷ [])
set_max_as smallint v = assign v (to_bytes 2 max_smallint)
set_max_as char v = assign v (b'z' ∷ [])
set_max_as int v = assign v (to_bytes 4 max_int)
set_max_as float v = assign v (to_bytes 8 max_float_bits)
set_max_as long v = assign v (to_bytes 8 max_float)
set_max_as varchar v = assign_data v b'z' v.data_size
set_max_as fixchar v = assign_data v b'z' v.data_size
set_max_as numeric v = assign_data v b'9' v.data_size
set_max_as snumeric v = assign_data v b'9' v.data_size
set_max_as time v = ok v

unfoldable pub set_max_value : FieldValue → Result FieldValue
unfolding set_max_as
set_max_value v = do
  p ← assert_some v.field_desc
  set_max_as p.type (record v { null_flag = false })
