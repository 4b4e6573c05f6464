-- ===== src/Field/Numbers.antt =====
-- Numbers in a value: what the typed functions set, they return again; and the ends of a range.
use native.Mathlib.Nat.{pow-suc}
use zapps.Prelude.{
  ℕ, zero, suc, ◌/◌, ◌^◌, ◌≤◌, ◌<◌, ◌≡◌, refl, ◌∙◌, ap, arith, false, true, length, ok, some,
  assert_some-bind,
}
use zapps.Prelude.Memory.{Bytes, put, write-ok, read-ok, length-put, slice-put_same, read}
use zapps.Field.{
  SqlType, bit, smallint, int, float, long, char, fixchar, varchar, time, numeric, snumeric,
  DescPtr, FieldValue, has_type, zeros,
}
use zapps.Field.Access.{to_bytes, set_scalar, typed}
use zapps.Field.Reads.{of_bytes, get_scalar, get_int_value}
use zapps.Field.Limits.{set_min_value, set_max_value, set_min_as, set_max_as, assign, max_int}
use zapps.Field.Valid.{IsValid, Filled}

pub length-to_bytes : (k n : ℕ) → length (to_bytes k n) ≡ k
unfolding to_bytes
length-to_bytes zero n = refl
length-to_bytes (suc k) n = ap suc (length-to_bytes k (n / 256))

pub of_bytes-to_bytes : (k n : ℕ) → n < 256 ^ k → of_bytes (to_bytes k n) ≡ n
unfolding to_bytes of_bytes
of_bytes-to_bytes zero n h = omega arith
of_bytes-to_bytes (suc k) n h =
    omega (arith, of_bytes-to_bytes k (n / 256) (omega (arith, pow-suc 256 k, h)))

read-put :
    (value bs : Bytes) (k : ℕ)
    → length bs ≡ k
    → k ≤ length value
    → read (put value 0 bs) 0 k ≡ ok bs
read-put value bs k e h = rw (← e) (
    read-ok (put value 0 bs) 0 (length bs) (omega (arith, length-put value 0 bs))
    ∙ ap ok (slice-put_same value 0 bs (omega arith)))

has_type_refl : (t : SqlType) → has_type t t ≡ true
has_type_refl bit = refl
has_type_refl smallint = refl
has_type_refl int = refl
has_type_refl float = refl
has_type_refl long = refl
has_type_refl char = refl
has_type_refl fixchar = refl
has_type_refl varchar = refl
has_type_refl time = refl
has_type_refl numeric = refl
has_type_refl snumeric = refl

-- The sizes tell how much of the buffer is in use, not the union.
abbrev with_value : FieldValue → Bytes → FieldValue
with_value v bs = record v { null_flag = false; value = bs }

with_value-Filled :
    (t : SqlType) (v : FieldValue) (bs : Bytes) → Filled t v → Filled t (with_value v bs)
with_value-Filled bit v bs h = h
with_value-Filled smallint v bs h = h
with_value-Filled int v bs h = h
with_value-Filled float v bs h = h
with_value-Filled long v bs h = h
with_value-Filled char v bs h = h
with_value-Filled fixchar v bs h = h
with_value-Filled varchar v bs h = h
with_value-Filled time v bs h = h
with_value-Filled numeric v bs h = h
with_value-Filled snumeric v bs h = h

typed-ok :
    (p : DescPtr) (v : FieldValue) → v.field_desc ≡ some p → typed v (λ s. has_type s p.type) ≡ ok p
unfolding typed
typed-ok p v e = assert_some-bind _ e ∙ rw (has_type_refl p.type) refl

-- On a value that is set up, a typed assignment of a number of at most eight bytes succeeds, the
-- value stays valid and is no longer null, and the function that returns the value gives the number.
pub get_scalar-set_scalar :
    (p : DescPtr) (v : FieldValue) (k n : ℕ)
    → IsValid p v
    → k ≤ 8
    → n < 256 ^ k
    → (w : FieldValue) × (set_scalar p.type v (to_bytes k n) ≡ ok w)
      × IsValid p w
      × (w.null_flag ≡ false)
      × (get_scalar p.type k w ≡ ok n)
unfolding set_scalar get_scalar
get_scalar-set_scalar p v k n valid small fits =
    let bs = to_bytes k n in
    let size = length-to_bytes k n in
    let h = valid.holds in
    let w = with_value v (put v.value 0 bs) in
    (
      w,
      rw (typed-ok p v valid.described) (rw (write-ok v.value 0 bs (omega arith)) refl),
      record {
        described = valid.described;
        holds = record {
          union = length-put v.value 0 bs ∙ h.union;
          held = h.held;
          sized = h.sized;
          filled = with_value-Filled p.type v (put v.value 0 bs) h.filled;
        };
      },
      refl,
      rw (typed-ok p w valid.described)
          (rw (read-put v.value bs k size (omega arith)) (ap ok (of_bytes-to_bytes k n fits))),
    )

-- On a value of type int that is set up, `set_min_value` gives 0, and `set_max_value` gives the
-- bits of 2 ^ 31, which an int of 32 bits reads as its least number: the greatest key of a range
-- lies below the least.
pub max-below-min_int :
    (p : DescPtr) (v : FieldValue)
    → IsValid p v
    → p.type ≡ int
    → (a b : FieldValue) × (set_min_value v ≡ ok a)
      × (set_max_value v ≡ ok b)
      × (get_int_value a ≡ ok 0)
      × (get_int_value b ≡ ok (2 ^ 31))
unfolding set_min_value set_max_value get_int_value get_scalar set_min_as set_max_as assign typed
max-below-min_int p v valid is_int =
    let h = valid.holds in
    (
      with_value v (put v.value 0 (zeros 4)),
      with_value v (put v.value 0 (to_bytes 4 max_int)),
      assert_some-bind _ valid.described
          ∙ rw is_int (rw (write-ok v.value 0 (zeros 4) (omega arith)) refl),
      assert_some-bind _ valid.described
          ∙ rw is_int (
              rw
                (write-ok v.value 0 (to_bytes 4 max_int) (omega (arith, length-to_bytes 4 max_int)))
                refl),
      rw valid.described (rw is_int (rw (read-put v.value (zeros 4) 4 refl (omega arith)) refl)),
      rw valid.described (
          rw is_int (
            rw (read-put v.value (to_bytes 4 max_int) 4 (length-to_bytes 4 max_int) (omega arith))
              refl)),
    )
