-- ===== src/Field/Assign.antt =====
-- `set_value` type by type, and together.
use zapps.Prelude.{
  ℕ, ◌≤◌, ◌≡◌, refl, arith, Bool, true, false, some, length, min, ok, ◌∙◌, ap, assert_some, ◌>>=◌,
  assert, ◌>>◌,
}
use zapps.Prelude.Memory.{Bytes, slice, read, read-ok, length-slice}
use zapps.Field.{
  SqlType, bit, smallint, int, float, long, char, fixchar, varchar, time, numeric, snumeric,
  type_size, DescPtr, FieldValue, not,
}
use zapps.Field.Access.{
  set_value, set_value_as, set_raw_scalar, set_raw_string, fetch, copy_value, copy_value_as,
}
use zapps.Field.Valid.{buffer_length, Filled, Holds, IsValid}
use zapps.Field.Stores.{
  Stored, Enough, with_scalar, set_raw_scalar-with_scalar, read-with_scalar, length-with_scalar,
  store-with_data, length-with_data, fetch-with_data, with_string, set_raw_string-with_string,
  grown, grown_lem, var_string, set_var_string-var_string,
}

abbrev Outcome : SqlType → ℕ → FieldValue → Bytes → ℕ → Type 0
Outcome t size v src len =
    (w : FieldValue) × (set_value_as t v src len ≡ ok w)
    × Stored t size v (slice src 0 (min len v.max_size)) w

-- The scalar types have copies of one proof: the union is overwritten at its start.
module _ (v : FieldValue) (src : Bytes) (len : ℕ) (given : len ≤ length src)
    (enough : v.max_size ≤ len) (small : v.max_size ≤ 8) (union : length v.value ≡ 8) where
  scalar_facts :
      (set_raw_scalar v src ≡ ok (with_scalar v src))
      × (length (with_scalar v src).value ≡ 8)
      × (read (with_scalar v src).value 0 v.max_size ≡ ok (slice src 0 (min len v.max_size)))
  scalar_facts = (
    set_raw_scalar-with_scalar v src (omega arith) (omega arith),
    omega (arith, length-with_scalar v src (omega arith) (omega arith)),
    read-with_scalar v src (omega arith) (omega arith) ∙ ap (λ n. ok (slice src 0 n)) (omega arith),
  )

abbrev is_scalar : SqlType → Bool
is_scalar fixchar = false
is_scalar varchar = false
is_scalar numeric = false
is_scalar snumeric = false
is_scalar time = false
is_scalar _ = true

abbrev is_fixchar : SqlType → Bool
is_fixchar fixchar = true
is_fixchar numeric = true
is_fixchar snumeric = true
is_fixchar _ = false

abbrev ByScalar : SqlType → ℕ → FieldValue → Bytes → ℕ → Type 0
ByScalar t size v src len =
    (set_value_as t v src len ≡ set_raw_scalar v src)
    × (copy_value_as t (with_scalar v src) ≡ read (with_scalar v src).value 0 v.max_size)
    × (type_size t size ≤ 8)
    × (Enough t v len → v.max_size ≤ len)
    × Filled t (with_scalar v src)

by_scalar :
    (t : SqlType) (size : ℕ) (v : FieldValue) (src : Bytes) (len : ℕ)
    → is_scalar t ≡ true
    → ByScalar t size v src len
unfolding set_value_as copy_value_as type_size with_scalar
by_scalar bit size v src len h = (refl, refl, omega arith, λ e. e, tt)
by_scalar smallint size v src len h = (refl, refl, omega arith, λ e. e, tt)
by_scalar int size v src len h = (refl, refl, omega arith, λ e. e, tt)
by_scalar float size v src len h = (refl, refl, omega arith, λ e. e, tt)
by_scalar long size v src len h = (refl, refl, omega arith, λ e. e, tt)
by_scalar char size v src len h = (refl, refl, omega arith, λ e. e, tt)
by_scalar fixchar size v src len h = cc
by_scalar varchar size v src len h = cc
by_scalar numeric size v src len h = cc
by_scalar snumeric size v src len h = cc
by_scalar time size v src len h = cc

abbrev ByString : SqlType → ℕ → FieldValue → Bytes → ℕ → Type 0
ByString t size v src len =
    (set_value_as t v src len ≡ set_raw_string v src len)
    × ((w : FieldValue) → copy_value_as t w ≡ fetch w.buffer w.real_size)
    × (Filled t v → (v.max_size ≤ v.data_size) × (v.real_size ≤ v.max_size))
    × ((w : FieldValue) → (w.max_size ≤ w.data_size) × (w.real_size ≤ w.max_size) → Filled t w)

by_string :
    (t : SqlType) (size : ℕ) (v : FieldValue) (src : Bytes) (len : ℕ)
    → is_fixchar t ≡ true
    → ByString t size v src len
unfolding set_value_as copy_value_as
by_string fixchar size v src len h = (refl, λ w. refl, λ f. f, λ w f. f)
by_string numeric size v src len h = (refl, λ w. refl, λ f. f, λ w f. f)
by_string snumeric size v src len h = (refl, λ w. refl, λ f. f, λ w f. f)
by_string bit size v src len h = cc
by_string smallint size v src len h = cc
by_string int size v src len h = cc
by_string float size v src len h = cc
by_string long size v src len h = cc
by_string char size v src len h = cc
by_string varchar size v src len h = cc
by_string time size v src len h = cc

module _ (size : ℕ) (v : FieldValue) (src : Bytes) (len : ℕ) (given : len ≤ length src) where
  scalar-Outcome :
      (t : SqlType)
      → is_scalar t ≡ true
      → Holds t size v
      → Enough t v len
      → Outcome t size v src len
  unfolding with_scalar
  scalar-Outcome t k h e =
      let b : ByScalar t size v src len = by_scalar t size v src len k in
      let f = scalar_facts v src len given (b.3 e) (omega (arith, b.2, h.sized)) h.union in
      (
        with_scalar v src,
        b.0 ∙ f.0,
        record {
          holds = record { union = f.1; held = h.held; sized = h.sized; filled = b.4 };
          shown = refl;
          copied = b.1 ∙ f.2;
          described = refl;
          same_max = refl;
        },
      )

  -- A copy of `n` bytes into a buffer that has room for them, and what is fetched from it.
  string_facts :
      (u : FieldValue) (n : ℕ)
      → n ≤ length src
      → buffer_length u.buffer ≡ u.data_size
      → n ≤ u.data_size
      → (buffer_length (with_string u src n).buffer ≡ u.data_size)
        × (fetch (with_string u src n).buffer n ≡ ok (slice src 0 n))
  unfolding with_string
  string_facts u n g held room = (
    omega (arith, length-with_data u.buffer (slice src 0 n)),
    fetch-with_data u.buffer (slice src 0 n) n (length-slice src 0 n (omega arith)) (omega arith),
  )

  fixchar-Outcome : (t : SqlType) → is_fixchar t ≡ true → Holds t size v → Outcome t size v src len
  unfolding with_string
  fixchar-Outcome t k h =
      let n : ℕ = min len v.max_size in
      let b : ByString t size v src len = by_string t size v src len k in
      let r = b.2 h.filled in
      let f = string_facts v n (omega arith) h.held (omega (arith, r)) in
      (
        with_string v src n,
        b.0 ∙ set_raw_string-with_string v src len given h.held r.0,
        record {
          holds = record {
            union = h.union;
            held = f.0;
            sized = h.sized;
            filled = b.3 (with_string v src n) (r.0, omega arith);
          };
          shown = refl;
          copied = b.1 (with_string v src n) ∙ f.1;
          described = refl;
          same_max = refl;
        },
      )

  time-Outcome : Holds time size v → v.max_size ≤ len → Outcome time size v src len
  unfolding set_value_as copy_value_as with_string type_size
  time-Outcome h e =
      let f = string_facts v 8 (omega (arith, h.sized)) h.held (omega (arith, h.filled)) in
      (
        with_string v src 8,
        ground (
          arith,
          h.sized,
          h.filled,
          h.held,
          read-ok src 0 8,
          length-slice src 0 8,
          store-with_data v.buffer (slice src 0 8),
        ),
        record {
          holds = record {
            union = h.union;
            held = f.0;
            sized = h.sized;
            filled = (refl, h.filled.1);
          };
          shown = refl;
          copied = f.1 ∙ ap (λ n. ok (slice src 0 n)) (omega (arith, h.sized));
          described = refl;
          same_max = refl;
        },
      )

  varchar-Outcome :
      (p : DescPtr)
      → v.field_desc ≡ some p
      → p.type ≡ varchar
      → Holds varchar size v
      → Outcome varchar size v src len
  unfolding set_value_as copy_value_as var_string with_string
  varchar-Outcome p described kind h =
      let n : ℕ = min len v.max_size in
      let g = grown_lem v n h.held in
      let f = string_facts (grown v n) n (omega arith) g.0 g.1 in
      (
        var_string v src len p given h.held described kind,
        set_var_string-var_string v src len p given h.held described kind,
        record {
          holds = record {
            union = ap length g.2 ∙ h.union;
            held = f.0;
            sized = g.4 ∙ h.sized;
            filled = (g.1, omega (arith, g.4));
          };
          shown = refl;
          copied = f.1;
          described = g.3;
          same_max = g.4;
        },
      )

  set_value_as-Outcome :
      (p : DescPtr) (t : SqlType)
      → v.field_desc ≡ some p
      → p.type ≡ t
      → Holds t size v
      → Enough t v len
      → Outcome t size v src len
  set_value_as-Outcome p varchar d k h e = varchar-Outcome p d k h
  set_value_as-Outcome p time d k h e = time-Outcome h e
  set_value_as-Outcome p fixchar d k h e = fixchar-Outcome fixchar refl h
  set_value_as-Outcome p numeric d k h e = fixchar-Outcome numeric refl h
  set_value_as-Outcome p snumeric d k h e = fixchar-Outcome snumeric refl h
  set_value_as-Outcome p bit d k h e = scalar-Outcome bit refl h e
  set_value_as-Outcome p smallint d k h e = scalar-Outcome smallint refl h e
  set_value_as-Outcome p int d k h e = scalar-Outcome int refl h e
  set_value_as-Outcome p float d k h e = scalar-Outcome float refl h e
  set_value_as-Outcome p long d k h e = scalar-Outcome long refl h e
  set_value_as-Outcome p char d k h e = scalar-Outcome char refl h e

set_value-eq :
    (p : DescPtr) (v : FieldValue) (src : Bytes) (len : ℕ)
    → v.field_desc ≡ some p
    → set_value v src len ≡ set_value_as p.type v src len
unfolding set_value
set_value-eq p v src len e = ap (λ o. assert_some o >>= λ q. set_value_as q.type v src len) e

pub copy_value-eq :
    (p : DescPtr) (v : FieldValue)
    → v.field_desc ≡ some p
    → v.null_flag ≡ false
    → copy_value v ≡ copy_value_as p.type v
unfolding copy_value
copy_value-eq p v e n =
    ap (λ o. assert_some o >>= λ q. assert (not v.null_flag) >> copy_value_as q.type v) e
    ∙ ap (λ b. assert (not b) >> copy_value_as p.type v) n

-- On a value that is set up, `set_value` with `len` bytes that are there, all the bytes for a
-- scalar or a time, succeeds: the value stays valid with the same maximal size, is no longer null,
-- and `copy_value` gives the first min(len, maximal size) bytes of the source.
pub set_value_lem :
    (p : DescPtr) (v : FieldValue) (src : Bytes) (len : ℕ)
    → IsValid p v
    → len ≤ length src
    → Enough p.type v len
    → (w : FieldValue) × (set_value v src len ≡ ok w)
      × IsValid p w
      × (w.null_flag ≡ false)
      × (w.max_size ≡ v.max_size)
      × (copy_value w ≡ ok (slice src 0 (min len v.max_size)))
set_value_lem p v src len valid given enough =
    let (w, e, s) =
      set_value_as-Outcome p.size v src len given p p.type valid.described refl valid.holds
        enough in
    let described : w.field_desc ≡ some p = s.described ∙ valid.described in
    (
      w,
      set_value-eq p v src len valid.described ∙ e,
      record { described = described; holds = s.holds },
      s.shown,
      s.same_max,
      copy_value-eq p w described s.shown ∙ s.copied,
    )
