-- ===== src/Format/Steps.antt =====
-- One round of the loop of `format`, and the round of `load` that reads it back.
use Prim.Native.Nat.{bit_and-bitwise}
use zapps.Prelude.{
  assert_some-bind, ℕ, ◌+◌, ◌/◌, ◌^◌, ◌≤◌, ◌≡◌, ◌∙◌, arith, true, false, bit_and, length,
  if◌then◌else◌, Bool-cases, inl, inr, ok,
}
use zapps.Prelude.Memory.{Bytes, put, slice, read-ok, write-ok, length-put}
use zapps.Field.{DescPtr, FieldValue, is_variable_length, zeros}
use zapps.Field.Access.{copy_value, to_bytes}
use zapps.Field.Reads.{of_bytes}
use zapps.Field.Numbers.{length-to_bytes}
use zapps.Field.Valid.{IsValid}
use zapps.Format.{
  format_known, Cursor, count_null, format_null, format_var, format_fixed, format_field,
  is_null_flag,
}

-- Where the field after `v` goes.
unfoldable pub advance : DescPtr → FieldValue → Cursor → Cursor
unfolding count_null
advance p v c =
    if is_variable_length p.type
    then record (count_null p c) { var = c.var + v.real_size; slot = c.slot + 8 }
    else record (count_null p c) { fixed = c.fixed + v.max_size }

-- The buffer with the field in it.
unfoldable pub placed : DescPtr → FieldValue → Bytes → Cursor → Bytes → Bytes
placed p v bs c buf =
    if is_variable_length p.type
    then put (put buf c.var bs) c.slot (to_bytes 8 v.real_size)
    else put buf c.fixed bs

pub record Room (p : DescPtr) (v : FieldValue) (c : Cursor) (n : ℕ) : Type 0 where
  pub fixed_room : is_variable_length p.type ≡ false → c.fixed + v.max_size ≤ n
  pub slot_room : is_variable_length p.type ≡ true → c.slot + 8 ≤ n
  pub var_room : is_variable_length p.type ≡ true → c.var + v.real_size ≤ n

module _ (p : DescPtr) (v : FieldValue) (bs : Bytes) (c : Cursor) (buf : Bytes)
    (valid : IsValid p v) (shown : v.null_flag ≡ false) (copied : copy_value v ≡ ok bs)
    (size : length bs ≤ v.max_size)
    (var_size : is_variable_length p.type ≡ true → length bs ≡ v.real_size)
    (room : Room p v c (length buf)) where
  format_null-eq : format_null p v c buf ≡ ok buf
  unfolding format_null
  format_null-eq = ground arith

  format_known-placed : format_known p v c buf ≡ ok (advance p v c, placed p v bs c buf)
  unfolding format_known format_var format_fixed advance placed count_null
  format_known-placed = elim (Bool-cases (is_variable_length p.type)) [
    | inl var ↦ ground (
      arith,
      format_null-eq,
      copied,
      var,
      var_size var,
      room.slot_room var,
      room.var_room var,
      write-ok buf c.var bs,
      length-put buf c.var bs,
      length-to_bytes 8 v.real_size,
      write-ok (put buf c.var bs) c.slot (to_bytes 8 v.real_size),
    )
    | inr fixed ↦
        ground
          (arith, format_null-eq, copied, fixed, room.fixed_room fixed, write-ok buf c.fixed bs)
  ]

  pub format_field-placed : format_field v c buf ≡ ok (advance p v c, placed p v bs c buf)
  unfolding format_field
  format_field-placed =
      assert_some-bind (λ q. format_known q v c buf) valid.described ∙ format_known-placed

-- A zero byte among the flags means that the value is there.
pub is_null_flag-zero :
    (buf : Bytes) (k : ℕ)
    → k / 8 + 1 ≤ length buf
    → slice buf (k / 8) 1 ≡ zeros 1
    → is_null_flag buf k ≡ ok false
unfolding is_null_flag of_bytes
is_null_flag-zero buf k h z = rw (read-ok buf (k / 8) 1 h, z, zero-bit_and (2 ^ (k / 8)))
  where
    zero-bit_and : (b : ℕ) → bit_and 0 b ≡ 0
    zero-bit_and b = bit_and-bitwise 0 b
