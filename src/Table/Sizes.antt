-- ===== src/Table/Sizes.antt =====
-- The size that a record can have at most, and the sizes of keys.
use zapps.Prelude.{
  none, ℕ, ◌+◌, ◌*◌, ◌/◌, ◌≤◌, ◌≡◌, refl, arith, Bool, true, List, [], ◌∷◌, map, ok, take,
}
use zapps.Prelude.Memory.{Bytes}
use zapps.Field.{
  FieldDesc, DescPtr, FieldValue, type_size, is_variable_length, setup_desc, set_keydesc, SqlType,
  bit, smallint, int, float, long, char, fixchar, varchar, time, numeric, snumeric,
  max_fieldname_len,
}
use zapps.Field.Valid.{Filled}
use zapps.Row.{Row, var_fields, nullable_fields, sizeof_offset}
use zapps.Row.Values.{AllValid, AllShown}
use zapps.Row.Layout.{desc_space}
use zapps.Format.Region.{var_total}
use zapps.Format.Inverse.{record_size, tuple_size-record_size}
use zapps.Format.{tuple_size}
use zapps.Row.Layout.{IsLaidOut}
use zapps.Table.{TableDesc, all_sizes, count_nulls, count_vars, maxsize}

-- Each description has the size of its type, as `setup` leaves it.
abbrev pub AllSized : List DescPtr → Type 0
AllSized [] = Unit {0}
AllSized (p ∷ ps) = (type_size p.type p.size ≡ p.size) × AllSized ps

type_size-type_size : (t : SqlType) (n : ℕ) → type_size t (type_size t n) ≡ type_size t n
unfolding type_size
type_size-type_size bit n = refl
type_size-type_size smallint n = refl
type_size-type_size int n = refl
type_size-type_size float n = refl
type_size-type_size long n = refl
type_size-type_size char n = refl
type_size-type_size fixchar n = refl
type_size-type_size varchar n = refl
type_size-type_size time n = refl
type_size-type_size numeric n = refl
type_size-type_size snumeric n = refl

set_keydesc_lem :
    (d : FieldDesc) → ((set_keydesc d).type ≡ d.type) × ((set_keydesc d).size ≡ d.size)
unfolding set_keydesc
set_keydesc_lem d = ground arith

-- `setup` gives a description the size of its type.
pub setup_desc-type_size :
    (d : FieldDesc) (t : SqlType) (name : Bytes) (size : ℕ) (allow_null : Bool)
    → let e = setup_desc d t name size allow_null in type_size e.type e.size ≡ e.size
unfolding setup_desc
setup_desc-type_size d t name size allow_null =
    let sized : FieldDesc = record d {
      name = take max_fieldname_len name;
      type = t;
      size = type_size t size;
    } in
    let (same_type, same_size) = set_keydesc_lem sized in
    rw (same_type, same_size) (type_size-type_size t size)

Filled-real_size :
    (t : SqlType) (v : FieldValue)
    → is_variable_length t ≡ true
    → Filled t v
    → v.real_size ≤ v.max_size
Filled-real_size varchar v var f = f.1
Filled-real_size bit v var f = cc
Filled-real_size smallint v var f = cc
Filled-real_size int v var f = cc
Filled-real_size float v var f = cc
Filled-real_size long v var f = cc
Filled-real_size char v var f = cc
Filled-real_size fixchar v var f = cc
Filled-real_size time v var f = cc
Filled-real_size numeric v var f = cc
Filled-real_size snumeric v var f = cc

sizes-maxsize :
    (ps : List DescPtr) (vs : List FieldValue)
    → AllValid ps vs
    → AllSized ps
    → var_total ps vs + desc_space ps ≤ all_sizes (map (λ p. p.desc) ps)
unfolding var_total desc_space all_sizes
sizes-maxsize [] vs valid sized = omega arith
sizes-maxsize (p ∷ ps) [] valid sized = absurd valid
sizes-maxsize (p ∷ ps) (v ∷ vs) valid sized = ground (
  arith,
  sizes-maxsize ps vs valid.1 sized.1,
  Filled-real_size p.type v,
  valid.0.holds.filled,
  valid.0.holds.sized,
  sized.0,
)

count_vars-var_fields : (ps : List DescPtr) → count_vars (map (λ p. p.desc) ps) ≡ var_fields ps
unfolding count_vars var_fields
count_vars-var_fields [] = refl
count_vars-var_fields (p ∷ ps) = ground (arith, count_vars-var_fields ps)

count_nulls-nullable_fields :
    (ps : List DescPtr) → count_nulls (map (λ p. p.desc) ps) ≡ nullable_fields ps
unfolding count_nulls nullable_fields
count_nulls-nullable_fields [] = refl
count_nulls-nullable_fields (p ∷ ps) = ground (arith, count_nulls-nullable_fields ps)

-- For a table whose `maxsize` is not computed yet and whose descriptions have the sizes of their
-- types: `maxsize` is computed without a failed assert, the next call returns it again, and the
-- space that `format` asks for, for any row without null values that is laid out and set up for the
-- table, with lengths below 2 ^ 64, is at most that.
pub tuple_size-le-maxsize :
    (t : TableDesc) (ps : List DescPtr) (r : Row) (vs : List FieldValue)
    → t.known_maxsize ≡ 0
    → t.desc ≡ map (λ p. p.desc) ps
    → AllSized ps
    → IsLaidOut ps r
    → AllValid ps vs
    → AllShown vs
    → (t' : TableDesc) × (n k : ℕ) × (maxsize t ≡ ok (t', n))
      × (maxsize t' ≡ ok (t', n))
      × (tuple_size r vs none ≡ ok k)
      × (k ≤ n)
unfolding maxsize record_size
tuple_size-le-maxsize t ps r vs fresh e sized laid valid shown =
    let n : ℕ =
      all_sizes t.desc + (count_vars t.desc * sizeof_offset + count_nulls t.desc / 8 + 1) in
    let sizes = sizes-maxsize ps vs valid sized in
    let vars = count_vars-var_fields ps in
    let nulls = count_nulls-nullable_fields ps in
    (
      record t { known_maxsize = n },
      n,
      record_size ps vs,
      ground (arith, fresh),
      ground arith,
      tuple_size-record_size ps vs r laid valid shown,
      rw e (ground (arith, sizes, vars, nulls)),
    )
