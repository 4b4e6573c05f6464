-- ===== src/Row/Access.antt =====
-- `set_null`, and the functions `set_value` and `get_value` of a row, by the type of the value.
-- The ones for `decimal` and `time_t` are left out with the types.
use zapps.Prelude.{
  ℕ, ◌-◌, ◌^◌, Bool, true, false, [], ◌∷◌, Option, some, none, ltb, ◌==◌, min, length, get_elem?,
  set, if◌then◌else◌, ◌||◌, Result, ok, ◌>>=◌, ◌>>◌, assert, assert_some, deref,
}
use zapps.Prelude.Memory.{Bytes, write}
use zapps.Field.{FieldValue, fixchar, varchar, has_type, is_some}
use zapps.Field.Access.{
  set_null, is_null, set_int_value, set_bit_value, set_smallint_value, set_char_value,
  set_float_value, set_long_value, set_var_string_value, set_fixed_string_value, set_value,
}
use zapps.Field.Reads.{
  get_int_value, get_bit_value, get_smallint_value, get_char_value, get_float_value, get_long_value,
  get_string_value, get_tstamp_value,
}
use zapps.Row.{Row}

-- The asserts, and a call on one value.
unfoldable pub set_at : Row → ℕ → (FieldValue → Result FieldValue) → Result Row
set_at r idx change = do
  assert r.is_setup
  assert (ltb idx r.field_cnt)
  vs ← deref r.values
  v ← deref (get_elem? vs idx)
  assert (is_some v.field_desc)
  w ← change v
  ok (record r { values = some (set vs idx w) })

unfoldable pub row_set_null : Row → ℕ → Result Row
unfolding set_at
row_set_null r idx = set_at r idx set_null

unfoldable pub row_set_int : Row → ℕ → ℕ → Result Row
unfolding set_at
row_set_int r idx v = set_at r idx (λ f. set_int_value f v)

unfoldable pub row_set_bool : Row → ℕ → Bool → Result Row
unfolding set_at
row_set_bool r idx v = set_at r idx (λ f. set_bit_value f v)

unfoldable pub row_set_short : Row → ℕ → ℕ → Result Row
unfolding set_at
row_set_short r idx v = set_at r idx (λ f. set_smallint_value f v)

unfoldable pub row_set_double : Row → ℕ → ℕ → Result Row
unfolding set_at
row_set_double r idx v = set_at r idx (λ f. set_float_value f v)

unfoldable pub row_set_long : Row → ℕ → ℕ → Result Row
unfolding set_at
row_set_long r idx v = set_at r idx (λ f. set_long_value f v)

unfoldable pub row_set_char : Row → ℕ → ℕ → Result Row
unfolding set_at
row_set_char r idx v = set_at r idx (λ f. set_char_value f v)

unfoldable pub set_string : Bytes → FieldValue → Result FieldValue
set_string string f = do
  p ← assert_some f.field_desc
  assert (has_type p.type varchar || has_type p.type fixchar)
  if has_type p.type varchar
      then set_var_string_value f string (length string)
      else set_fixed_string_value f string (length string)

-- The characters of a string, without the NUL at its end.
unfoldable pub row_set_string : Row → ℕ → Bytes → Result Row
unfolding set_at set_string
row_set_string r idx string = set_at r idx (set_string string)

-- `_pvalues[idx].set_value(&time, 0)`
unfoldable pub row_set_timestamp : Row → ℕ → Bytes → Result Row
unfolding set_at
row_set_timestamp r idx time = set_at r idx (λ f. set_value f time 0)

-- The asserts, the test for null, and a call on one value. `none` stands for `false`.
unfoldable pub get_at {ℓ} : {A : Type ℓ} → Row → ℕ → (FieldValue → Result A) → Result (Option A)
get_at r idx get = do
  assert r.is_setup
  assert (ltb idx r.field_cnt)
  vs ← deref r.values
  v ← deref (get_elem? vs idx)
  null ← is_null v
  if null then ok none else (do a ← get v; ok (some a))

unfoldable pub row_get_int : Row → ℕ → Result (Option ℕ)
unfolding get_at
row_get_int r idx = get_at r idx get_int_value

unfoldable pub row_get_bool : Row → ℕ → Result (Option Bool)
unfolding get_at
row_get_bool r idx = get_at r idx get_bit_value

unfoldable pub row_get_short : Row → ℕ → Result (Option ℕ)
unfolding get_at
row_get_short r idx = get_at r idx get_smallint_value

unfoldable pub row_get_char : Row → ℕ → Result (Option ℕ)
unfolding get_at
row_get_char r idx = get_at r idx get_char_value

unfoldable pub row_get_double : Row → ℕ → Result (Option ℕ)
unfolding get_at
row_get_double r idx = get_at r idx get_float_value

unfoldable pub row_get_long : Row → ℕ → Result (Option ℕ)
unfolding get_at
row_get_long r idx = get_at r idx get_long_value

unfoldable pub row_get_timestamp : Row → ℕ → Result (Option Bytes)
unfolding get_at
row_get_timestamp r idx = get_at r idx get_tstamp_value

-- The string and a NUL behind it. The difference is of type `unsigned`, so a size of 0 bounds
-- nothing.
unfoldable pub get_string : Bytes → ℕ → FieldValue → Result Bytes
get_string destbuf bufsize v = do
  let sz : ℕ = min (if bufsize == 0 then 2 ^ 32 - 1 else bufsize - 1) v.max_size
  filled ← get_string_value v destbuf sz
  write filled sz (0 ∷ [])

-- A null value leaves the empty string; the caller's buffer comes back.
unfoldable pub row_get_string : Row → ℕ → Bytes → ℕ → Result (Bool × Bytes)
unfolding get_at get_string
row_get_string r idx destbuf bufsize = do
  o ← get_at r idx (get_string destbuf bufsize)
  elim o [ none ↦ (do buf ← write destbuf 0 (0 ∷ []); ok (false, buf)) | some buf ↦ ok (true, buf) ]
