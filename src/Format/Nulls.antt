-- ===== src/Format/Nulls.antt =====
-- Null values: what `format` does with them, and what their flags come to.
use Prim.Native.Nat.{bit_and-bitwise}
use zapps.Prelude.{
  deref-bind, deref, assert, ltb, assert_some, if◌then◌else◌, ℕ, ◌+◌, ◌/◌, ◌^◌, ◌≤◌, ◌≡◌, sym, ◌∙◌,
  arith, Bool, true, false, List, [], ◌∷◌, length, some, Option, ok, >>=-eq-ok,
}
use zapps.Prelude.Memory.{Bytes, slice, put, read-ok, write-ok, length-put, slice-put_same}
use zapps.Field.{DescPtr, FieldValue, zeros, is_variable_length}
use zapps.Field.Access.{copy_value}
use zapps.Field.Reads.{of_bytes}
use zapps.Row.{Row, RepRow, set_rep}
use zapps.Format.{
  Cursor, format, format_fields, format_field, format_known, tuple_size, format_null, format_var,
  format_fixed, count_null, set_null_flag, is_null_flag, start,
}
use zapps.Format.Steps.{is_null_flag-zero}

abbrev pub NoneNull : List FieldValue → Type 0
NoneNull [] = Unit {0}
NoneNull (v ∷ vs) = (v.null_flag ≡ false) × NoneNull vs

copy_value-ok : (v : FieldValue) {bs : Bytes} → copy_value v ≡ ok bs → v.null_flag ≡ false
unfolding copy_value
copy_value-ok v e = ground arith

format_var-ok :
    (v : FieldValue) (c : Cursor) (buf : Bytes) {x : Cursor × Bytes}
    → format_var v c buf ≡ ok x
    → v.null_flag ≡ false
unfolding format_var
format_var-ok v c buf e =
    let (bs, copied, _) = >>=-eq-ok (copy_value v) _ e in copy_value-ok v copied

format_fixed-ok :
    (v : FieldValue) (c : Cursor) (buf : Bytes) {x : Cursor × Bytes}
    → format_fixed v c buf ≡ ok x
    → v.null_flag ≡ false
unfolding format_fixed
format_fixed-ok v c buf e =
    let (bs, copied, _) = >>=-eq-ok (copy_value v) _ e in copy_value-ok v copied

branch-ok :
    (b : Bool) (v : FieldValue) (c : Cursor) (buf : Bytes) {x : Cursor × Bytes}
    → (if b then format_var v c buf else format_fixed v c buf) ≡ ok x
    → v.null_flag ≡ false
branch-ok true v c buf e = format_var-ok v c buf e
branch-ok false v c buf e = format_fixed-ok v c buf e

format_known-ok :
    (p : DescPtr) (v : FieldValue) (c : Cursor) (buf : Bytes) {x : Cursor × Bytes}
    → format_known p v c buf ≡ ok x
    → v.null_flag ≡ false
unfolding format_known
format_known-ok p v c buf e =
    let (buf', _, placed) = >>=-eq-ok (format_null p v c buf) _ e in
    branch-ok (is_variable_length p.type) v (count_null p c) buf' placed

format_field-ok :
    (v : FieldValue) (c : Cursor) (buf : Bytes) {x : Cursor × Bytes}
    → format_field v c buf ≡ ok x
    → v.null_flag ≡ false
unfolding format_field
format_field-ok v c buf e =
    let (p, _, known) = >>=-eq-ok (assert_some v.field_desc) _ e in format_known-ok p v c buf known

format_fields-ok :
    (vs : List FieldValue) (c : Cursor) (buf : Bytes) {out : Bytes}
    → format_fields vs c buf ≡ ok out
    → NoneNull vs
unfolding format_fields
format_fields-ok [] c buf e = tt
format_fields-ok (v ∷ vs) c buf e =
    let (x, first, rest) = >>=-eq-ok (format_field v c buf) _ e in
    (format_field-ok v c buf first, format_fields-ok vs x.0 x.1 rest)

-- If `format` succeeds on a row, with an index or without, then none of the values of the row is
-- null.
pub format-NoneNull :
    (heap : ℕ → ℕ) (rep : RepRow) (r : Row) (index : Option (List ℕ)) (vs : List FieldValue)
    (result : RepRow × ℕ)
    → r.values ≡ some vs
    → format heap rep r index ≡ ok result
    → NoneNull vs
unfolding format
format-NoneNull heap rep r index vs result e done =
    let (n, _, sized) = >>=-eq-ok (tuple_size r vs index) _ (sym (deref-bind _ e) ∙ done) in
    let (_, _, asserted) = >>=-eq-ok (assert (ltb 0 n)) _ sized in
    let (rep', _, set) = >>=-eq-ok (set_rep heap rep n) _ asserted in
    let (buf, _, cleared) = >>=-eq-ok (deref rep'.dest) _ set in
    let (out, formatted, _) = >>=-eq-ok (format_fields vs (start r) buf) _ cleared in
    format_fields-ok vs (start r) buf formatted

-- Where the byte of a null flag lies in the buffer and is 0, setting the flag succeeds, and the
-- flag is then read as not set.
pub is_null_flag-set_null_flag :
    (buf : Bytes) (k : ℕ)
    → k / 8 + 1 ≤ length buf
    → slice buf (k / 8) 1 ≡ zeros 1
    → (buf' : Bytes) × (set_null_flag buf k ≡ ok buf') × (is_null_flag buf' k ≡ ok false)
unfolding set_null_flag of_bytes
is_null_flag-set_null_flag buf k h z = (
  put buf (k / 8) (0 ∷ []),
  rw (read-ok buf (k / 8) 1 h, z, bit_and-bitwise 0 (2 ^ (k / 8)))
      (write-ok buf (k / 8) (0 ∷ []) h),
  is_null_flag-zero (put buf (k / 8) (0 ∷ [])) k (omega (arith, length-put buf (k / 8) (0 ∷ [])))
      (slice-put_same buf (k / 8) (0 ∷ []) h),
)
