-- ===== src/Row/Updates.antt =====
-- A value that is set in a row is the value that is got, and the other fields keep theirs.
use zapps.Prelude.{
  subst, assert, assert_some-bind, ℕ, ◌^◌, ◌<◌, ◌≡◌, ◌≢◌, refl, sym, ◌∙◌, ap, arith, true, false,
  List, some, none, length, get_elem?, set, Result, ok, deref-bind, lt→ltb, get_elem?-set_self,
  get_elem?-set_ne, length-set,
}
use zapps.Field.{
  SqlType, bit, smallint, int, float, long, char, fixchar, varchar, time, numeric, snumeric,
  DescPtr, FieldValue, is_some,
}
use zapps.Field.Access.{set_null, is_null, to_bytes, set_scalar, set_int_value}
use zapps.Field.Reads.{get_scalar, get_int_value}
use zapps.Field.Valid.{IsValid, Filled}
use zapps.Field.Numbers.{get_scalar-set_scalar}
use zapps.Row.{Row}
use zapps.Row.Values.{AllValid, get_elem?-AllValid, set-AllValid}
use zapps.Row.Access.{set_at, get_at, row_set_int, row_get_int, row_set_null}

-- A row that is set up for the descriptions.
pub record IsSetup (ps : List DescPtr) (r : Row) (vs : List FieldValue) : Type 0 where
  pub flag : r.is_setup ≡ true
  pub count : r.field_cnt ≡ length vs
  pub values : r.values ≡ some vs
  pub valid : AllValid ps vs

-- What the asserts and the test for null say of a value that is set up.
assert-is_some :
    (v : FieldValue) {p : DescPtr} → v.field_desc ≡ some p → assert (is_some v.field_desc) ≡ ok tt
assert-is_some v e = ap (λ o. assert (is_some o)) e

is_null_lem : (v : FieldValue) {p : DescPtr} → v.field_desc ≡ some p → is_null v ≡ ok v.null_flag
unfolding is_null
is_null_lem v e = assert_some-bind _ e

set_null_lem :
    (p : DescPtr) (v : FieldValue)
    → v.field_desc ≡ some p
    → p.allow_null ≡ true
    → set_null v ≡ ok (record v { null_flag = true })
unfolding set_null
set_null_lem p v e nullable = assert_some-bind _ e ∙ rw nullable refl

set_null-Filled :
    (t : SqlType) (v : FieldValue) → Filled t v → Filled t (record v { null_flag = true })
set_null-Filled bit v h = h
set_null-Filled smallint v h = h
set_null-Filled int v h = h
set_null-Filled float v h = h
set_null-Filled long v h = h
set_null-Filled char v h = h
set_null-Filled fixchar v h = h
set_null-Filled varchar v h = h
set_null-Filled time v h = h
set_null-Filled numeric v h = h
set_null-Filled snumeric v h = h

set_null-IsValid :
    (p : DescPtr) (v : FieldValue) → IsValid p v → IsValid p (record v { null_flag = true })
set_null-IsValid p v h = record {
  described = h.described;
  holds = record {
    union = h.holds.union;
    held = h.holds.held;
    sized = h.holds.sized;
    filled = set_null-Filled p.type v h.holds.filled;
  };
}

set_int_value_lem : (v : FieldValue) (n : ℕ) → set_int_value v n ≡ set_scalar int v (to_bytes 4 n)
unfolding set_int_value
set_int_value_lem v n = refl

get_int_value_lem : (v : FieldValue) → get_int_value v ≡ get_scalar int 4 v
unfolding get_int_value
get_int_value_lem v = refl

module _ (ps : List DescPtr) (r : Row) (vs : List FieldValue) (idx : ℕ) (p : DescPtr)
    (ready : IsSetup ps r vs) (v : FieldValue) (own : get_elem? vs idx ≡ some v)
    (valid : IsValid p v) (in_range : idx < length vs) where
  pub set_at-change :
      (change : FieldValue → Result FieldValue) (u : FieldValue)
      → change v ≡ ok u
      → set_at r idx change ≡ ok (record r { values = some (set vs idx u) })
  unfolding set_at
  set_at-change change u e =
      rw (ready.flag, ready.count, lt→ltb idx (length vs) in_range)
        (deref-bind _ ready.values
          ∙ deref-bind _ own
          ∙ rw (assert-is_some v valid.described) (rw e refl))

  pub get_at-shown :
      {A : Type 0} (get : FieldValue → Result A) (a : A)
      → v.null_flag ≡ false
      → get v ≡ ok a
      → get_at r idx get ≡ ok (some a)
  unfolding get_at
  get_at-shown get a shown e =
      rw (ready.flag, ready.count, lt→ltb idx (length vs) in_range)
        (deref-bind _ ready.values
          ∙ deref-bind _ own
          ∙ rw (is_null_lem v valid.described ∙ ap ok shown, e) refl)

  pub get_at-null :
      {A : Type 0} (get : FieldValue → Result A) → v.null_flag ≡ true → get_at r idx get ≡ ok none
  unfolding get_at
  get_at-null get null =
      rw (ready.flag, ready.count, lt→ltb idx (length vs) in_range)
        (deref-bind _ ready.values
          ∙ deref-bind _ own
          ∙ rw (is_null_lem v valid.described ∙ ap ok null) refl)

module _ (ps : List DescPtr) (r : Row) (vs : List FieldValue) (idx : ℕ) (p : DescPtr)
    (ready : IsSetup ps r vs) (there : get_elem? ps idx ≡ some p) where
  set_at-IsSetup :
      (u : FieldValue)
      → IsValid p u
      → IsSetup ps (record r { values = some (set vs idx u) }) (set vs idx u)
  set_at-IsSetup u valid = record {
    flag = ready.flag;
    count = ready.count ∙ sym (length-set vs idx u);
    values = refl;
    valid = set-AllValid ps vs idx u ready.valid there valid;
  }

  -- On a row that is set up, setting a field of type int to a number of 32 bits succeeds, the row
  -- stays set up, getting the field gives the number, and the other fields stand as they were.
  pub row_get_int-row_set_int :
      (n : ℕ)
      → p.type ≡ int
      → n < 2 ^ 32
      → (r' : Row) × (vs' : List FieldValue) × (row_set_int r idx n ≡ ok r')
        × IsSetup ps r' vs'
        × (row_get_int r' idx ≡ ok (some n))
        × ((j : ℕ) → idx ≢ j → get_elem? vs' j ≡ get_elem? vs j)
  unfolding row_set_int row_get_int
  row_get_int-row_set_int n is_int small =
      let (v, own, valid, in_range) = get_elem?-AllValid ps vs idx ready.valid there in
      let (u, e, valid', shown, reads) =
        get_scalar-set_scalar p v 4 n valid (omega arith) (omega (arith, small)) in
      let gets = get_int_value_lem u ∙ subst (λ t. get_scalar t 4 u ≡ ok n) is_int reads in
      let sets =
        set_int_value_lem v n ∙ subst (λ t. set_scalar t v (to_bytes 4 n) ≡ ok u) is_int e in
      let ready' = set_at-IsSetup u valid' in
      (
        record r { values = some (set vs idx u) },
        set vs idx u,
        set_at-change ps r vs idx p ready v own valid in_range (λ f. set_int_value f n) u sets,
        ready',
        get_at-shown ps (record r { values = some (set vs idx u) }) (set vs idx u) idx p ready' u
            (get_elem?-set_self vs idx u in_range) valid'
            (omega (arith, in_range, length-set vs idx u)) get_int_value n shown gets,
        (λ j h. get_elem?-set_ne vs u h),
      )

  -- On a row that is set up, setting a nullable field to null succeeds, the row stays set up, and
  -- getting the field as an int says that there is no value.
  pub row_get_int-row_set_null :
      p.allow_null ≡ true
      → (r' : Row) × (vs' : List FieldValue) × (row_set_null r idx ≡ ok r')
        × IsSetup ps r' vs'
        × (row_get_int r' idx ≡ ok none)
  unfolding row_set_null row_get_int
  row_get_int-row_set_null nullable =
      let (v, own, valid, in_range) = get_elem?-AllValid ps vs idx ready.valid there in
      let u : FieldValue = record v { null_flag = true } in
      let valid' = set_null-IsValid p v valid in
      let ready' = set_at-IsSetup u valid' in
      (
        record r { values = some (set vs idx u) },
        set vs idx u,
        set_at-change ps r vs idx p ready v own valid in_range set_null u
            (set_null_lem p v valid.described nullable),
        ready',
        get_at-null ps (record r { values = some (set vs idx u) }) (set vs idx u) idx p ready' u
            (get_elem?-set_self vs idx u in_range) valid'
            (omega (arith, in_range, length-set vs idx u)) get_int_value refl,
      )
