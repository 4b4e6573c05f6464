-- ===== src/Field/Access.antt =====
-- The functions of `field_value_t` that set and read a value.
use zapps.Prelude.{
  ℕ, zero, suc, ◌/◌, ◌%◌, Bool, true, false, Option, none, some, [], ◌∷◌, leb, ◌||◌, not,
  if◌then◌else◌, min, Result, ok, err, bad_access, ◌>>=◌, ◌>>◌, assert, assert_some,
}
use zapps.Prelude.Memory.{Bytes, write, read}
use zapps.Field.{
  SqlType, bit, smallint, int, float, long, char, fixchar, varchar, time, numeric, snumeric,
  has_type, DescPtr, FieldValue, zeros,
}

-- The `k` bytes of a number in memory, the low byte first; higher bits are lost.
unfoldable pub to_bytes : ℕ → ℕ → Bytes
to_bytes zero n = []
to_bytes (suc k) n = n % 256 ∷ to_bytes k (n / 256)

-- memcpy(_data, src, length src)
unfoldable pub store : Option Bytes → Bytes → Result (Option Bytes)
store none [] = ok none
store none (b ∷ bs) = err bad_access
store (some buf) bs = do buf' ← write buf 0 bs; ok (some buf')

-- memcpy(_, _data, n)
unfoldable pub fetch : Option Bytes → ℕ → Result Bytes
fetch none zero = ok []
fetch none (suc n) = err bad_access
fetch (some buf) n = read buf 0 n

-- The asserts on the description: there is one, of a type that passes the test.
unfoldable pub typed : FieldValue → (SqlType → Bool) → Result DescPtr
typed v test = do p ← assert_some v.field_desc; assert (test p.type); ok p

unfoldable pub is_fixed_string : SqlType → Bool
is_fixed_string t = has_type t fixchar || has_type t numeric || has_type t snumeric

abbrev pub is_string : SqlType → Bool
is_string t = has_type t fixchar || has_type t varchar || has_type t numeric || has_type t snumeric

unfoldable pub set_null : FieldValue → Result FieldValue
set_null v = do
  p ← assert_some v.field_desc
  assert p.allow_null
  ok (record v { null_flag = true })

unfoldable pub is_null : FieldValue → Result Bool
is_null v = do _ ← assert_some v.field_desc; ok v.null_flag

-- An assignment to a scalar member of the union.
unfoldable pub set_scalar : SqlType → FieldValue → Bytes → Result FieldValue
unfolding typed
set_scalar t v bytes = do
  _ ← typed v (λ s. has_type s t)
  value ← write v.value 0 bytes
  ok (record v { null_flag = false; value = value })

unfoldable pub set_int_value : FieldValue → ℕ → Result FieldValue
unfolding set_scalar to_bytes
set_int_value v n = set_scalar int v (to_bytes 4 n)

unfoldable pub set_bit_value : FieldValue → Bool → Result FieldValue
unfolding set_scalar
set_bit_value v b = set_scalar bit v ((if b then 1 else 0) ∷ [])

unfoldable pub set_smallint_value : FieldValue → ℕ → Result FieldValue
unfolding set_scalar to_bytes
set_smallint_value v n = set_scalar smallint v (to_bytes 2 n)

unfoldable pub set_char_value : FieldValue → ℕ → Result FieldValue
unfolding set_scalar to_bytes
set_char_value v c = set_scalar char v (to_bytes 1 c)

unfoldable pub set_float_value : FieldValue → ℕ → Result FieldValue
unfolding set_scalar to_bytes
set_float_value v d = set_scalar float v (to_bytes 8 d)

unfoldable pub set_long_value : FieldValue → ℕ → Result FieldValue
unfolding set_scalar to_bytes
set_long_value v n = set_scalar long v (to_bytes 8 n)

unfoldable pub set_tstamp_value : FieldValue → Bytes → Result FieldValue
unfolding typed store
set_tstamp_value v src = do
  _ ← typed v (λ s. has_type s time)
  bs ← read src 0 v.real_size
  buf ← store v.buffer bs
  ok (record v { null_flag = false; buffer = buf })

-- `len` bytes at `string` are the caller's; at most `max_size` of them are copied.
unfoldable pub set_fixed_string_value : FieldValue → Bytes → ℕ → Result FieldValue
unfolding typed store is_fixed_string
set_fixed_string_value v string len = do
  _ ← typed v is_fixed_string
  let real_size = min len v.max_size
  assert (leb real_size v.data_size)
  bs ← read string 0 real_size
  buf ← store v.buffer bs
  ok (record v { real_size = real_size; null_flag = false; buffer = buf })

-- Grows the buffer to `len` bytes; the old contents are dropped.
unfoldable pub alloc_space : FieldValue → ℕ → Result FieldValue
unfolding typed
alloc_space v len = do
  _ ← typed v (λ s. has_type s varchar)
  assert (leb len v.real_size)
  ok (if leb len v.data_size then v else record v { buffer = some (zeros len); data_size = len })

unfoldable pub set_var_string_value : FieldValue → Bytes → ℕ → Result FieldValue
unfolding typed store alloc_space
set_var_string_value v string len = do
  _ ← typed v (λ s. has_type s varchar)
  let real_size = min len v.max_size
  grown ← alloc_space (record v { real_size = real_size }) real_size
  assert (leb real_size grown.data_size)
  bs ← read string 0 real_size
  buf ← store grown.buffer bs
  ok (record grown { null_flag = false; buffer = buf })

unfoldable pub set_raw_scalar : FieldValue → Bytes → Result FieldValue
set_raw_scalar v src = do
  bs ← read src 0 v.max_size
  value ← write v.value 0 bs
  ok (record v { null_flag = false; value = value })

unfoldable pub set_raw_string : FieldValue → Bytes → ℕ → Result FieldValue
unfolding store
set_raw_string v src len = do
  let real_size = min len v.max_size
  assert (leb real_size v.data_size)
  bs ← read src 0 real_size
  buf ← store v.buffer bs
  ok (record v { real_size = real_size; null_flag = false; buffer = buf })

unfoldable pub set_value_as : SqlType → FieldValue → Bytes → ℕ → Result FieldValue
unfolding set_raw_scalar set_raw_string set_var_string_value store
set_value_as bit v src len = set_raw_scalar v src
set_value_as smallint v src len = set_raw_scalar v src
set_value_as char v src len = set_raw_scalar v src
set_value_as int v src len = set_raw_scalar v src
set_value_as float v src len = set_raw_scalar v src
set_value_as long v src len = set_raw_scalar v src
set_value_as time v src len = do
  bs ← read src 0 (min len v.real_size)
  buf ← store v.buffer bs
  ok (record v { null_flag = false; buffer = buf })
set_value_as varchar v src len = set_var_string_value v src len
set_value_as fixchar v src len = set_raw_string v src len
set_value_as numeric v src len = set_raw_string v src len
set_value_as snumeric v src len = set_raw_string v src len

-- `set_value(data, length)`: from raw bytes at `src`.
unfoldable pub set_value : FieldValue → Bytes → ℕ → Result FieldValue
unfolding set_value_as
set_value v src len = do p ← assert_some v.field_desc; set_value_as p.type v src len

unfoldable pub copy_value_as : SqlType → FieldValue → Result Bytes
unfolding fetch
copy_value_as bit v = read v.value 0 v.max_size
copy_value_as smallint v = read v.value 0 v.max_size
copy_value_as char v = read v.value 0 v.max_size
copy_value_as int v = read v.value 0 v.max_size
copy_value_as float v = read v.value 0 v.max_size
copy_value_as long v = read v.value 0 v.max_size
copy_value_as time v = fetch v.buffer v.real_size
copy_value_as varchar v = fetch v.buffer v.real_size
copy_value_as fixchar v = fetch v.buffer v.real_size
copy_value_as numeric v = fetch v.buffer v.real_size
copy_value_as snumeric v = fetch v.buffer v.real_size

-- The bytes that `copy_value(data)` copies to `data`.
unfoldable pub copy_value : FieldValue → Result Bytes
unfolding copy_value_as
copy_value v = do p ← assert_some v.field_desc; assert (not v.null_flag); copy_value_as p.type v
