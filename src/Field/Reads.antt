-- ===== src/Field/Reads.antt =====
-- The functions of `field_value_t` that return a value, by type.
use zapps.Prelude.{ℕ, ◌+◌, ◌*◌, Bool, [], ◌∷◌, ◌==◌, not, min, Result, ok, ◌>>=◌}
use zapps.Prelude.Memory.{Bytes, write, read}
use zapps.Field.{SqlType, bit, smallint, int, float, long, char, time, has_type, FieldValue, zeros}
use zapps.Field.Access.{typed, fetch, is_string}

-- The number that bytes in memory stand for, the low byte first.
unfoldable pub of_bytes : Bytes → ℕ
of_bytes [] = 0
of_bytes (b ∷ bs) = b + 256 * of_bytes bs

-- A scalar member of the union, of `k` bytes.
unfoldable pub get_scalar : SqlType → ℕ → FieldValue → Result ℕ
unfolding typed of_bytes
get_scalar t k v = do _ ← typed v (λ s. has_type s t); bs ← read v.value 0 k; ok (of_bytes bs)

unfoldable pub get_int_value : FieldValue → Result ℕ
unfolding get_scalar
get_int_value v = get_scalar int 4 v

unfoldable pub get_bit_value : FieldValue → Result Bool
unfolding get_scalar
get_bit_value v = do n ← get_scalar bit 1 v; ok (not (n == 0))

unfoldable pub get_smallint_value : FieldValue → Result ℕ
unfolding get_scalar
get_smallint_value v = get_scalar smallint 2 v

unfoldable pub get_char_value : FieldValue → Result ℕ
unfolding get_scalar
get_char_value v = get_scalar char 1 v

unfoldable pub get_float_value : FieldValue → Result ℕ
unfolding get_scalar
get_float_value v = get_scalar float 8 v

unfoldable pub get_long_value : FieldValue → Result ℕ
unfolding get_scalar
get_long_value v = get_scalar long 8 v

-- `get_string_value(buffer, bufsize)`: the caller's buffer, cleared and filled.
unfoldable pub get_string_value : FieldValue → Bytes → ℕ → Result Bytes
unfolding typed fetch
get_string_value v dest bufsize = do
  _ ← typed v (λ s. is_string s)
  cleared ← write dest 0 (zeros bufsize)
  bs ← fetch v.buffer (min bufsize v.real_size)
  write cleared 0 bs

unfoldable pub get_tstamp_value : FieldValue → Result Bytes
unfolding typed fetch
get_tstamp_value v = do _ ← typed v (λ s. has_type s time); fetch v.buffer 8
