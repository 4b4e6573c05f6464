-- ===== src/Format/Loads.antt =====
-- The round of `load` that reads back what the round of `format` placed.
use zapps.Prelude.{
  ℕ, ◌+◌, ◌≤◌, ◌≡◌, ◌∙◌, arith, true, false, length, drop, length-drop, ap, Bool-cases, ok, ◌^◌,
  ◌<◌, assert_some-bind, inl, inr,
}
use zapps.Prelude.Memory.{Bytes, slice, read-ok}
use zapps.Field.{
  SqlType, bit, smallint, int, float, long, char, fixchar, varchar, time, numeric, snumeric,
  DescPtr, FieldValue, is_variable_length,
}
use zapps.Field.Access.{set_value, copy_value, to_bytes}
use zapps.Field.Valid.{IsValid}
use zapps.Field.Stores.{Enough}
use zapps.Field.Assign.{set_value_lem}
use zapps.Format.{
  Cursor, count_null, load_null, load_var, load_fixed, load_shown, load_known, load_field,
  is_null_flag,
}
use zapps.Format.Steps.{advance}
use zapps.Field.Numbers.{of_bytes-to_bytes}

Enough-var : (t : SqlType) (v : FieldValue) (len : ℕ) → is_variable_length t ≡ true → Enough t v len
Enough-var varchar v len h = tt
Enough-var bit v len h = cc
Enough-var smallint v len h = cc
Enough-var int v len h = cc
Enough-var float v len h = cc
Enough-var long v len h = cc
Enough-var char v len h = cc
Enough-var time v len h = cc
Enough-var fixchar v len h = cc
Enough-var numeric v len h = cc
Enough-var snumeric v len h = cc

pub Enough-max : (t : SqlType) (v : FieldValue) → Enough t v v.max_size
Enough-max varchar v = tt
Enough-max fixchar v = tt
Enough-max numeric v = tt
Enough-max snumeric v = tt
Enough-max time v = omega arith
Enough-max bit v = omega arith
Enough-max smallint v = omega arith
Enough-max int v = omega arith
Enough-max float v = omega arith
Enough-max long v = omega arith
Enough-max char v = omega arith

-- The value that `set_value` gives, from `n` bytes of the record at `off`.
module _ (p : DescPtr) (w : FieldValue) (buf : Bytes) (off n : ℕ) (valid : IsValid p w)
    (there : off + n ≤ length buf) (small : n ≤ w.max_size) where
  pub set_value-drop :
      Enough p.type w n
      → (u : FieldValue) × (set_value w (drop off buf) n ≡ ok u)
        × IsValid p u
        × (u.null_flag ≡ false)
        × (copy_value u ≡ ok (slice buf off n))
  unfolding slice
  set_value-drop enough =
      let (u, e, valid', shown, _, copied) =
        set_value_lem p w (drop off buf) n valid (omega (arith, length-drop off buf)) enough in
      (u, e, valid', shown, copied ∙ ap (λ k. ok (slice buf off k)) (omega arith))

-- `v` was formatted at `c`, and gave `bytes`.
abbrev pub Loaded : DescPtr → FieldValue → FieldValue → Cursor → Bytes → Bytes → Type 0
Loaded p v w c buf bytes =
    (u : FieldValue) × (load_field buf c w ≡ ok (advance p v c, u))
    × IsValid p u
    × (u.null_flag ≡ false)
    × (copy_value u ≡ ok bytes)

module _ (p : DescPtr) (v w : FieldValue) (c : Cursor) (buf : Bytes) (valid : IsValid p w)
    (same_max : v.max_size ≡ w.max_size)
    (flag : p.allow_null ≡ true → is_null_flag buf c.nulls ≡ ok false) where
  load_null-false : load_null p buf c ≡ ok false
  unfolding load_null
  load_null-false = elim (Bool-cases p.allow_null) [
    | inl nullable ↦ rw nullable (flag nullable)
    | inr always ↦ rw always
  ]

  pub load_field-var :
      is_variable_length p.type ≡ true
      → c.slot + 8 ≤ length buf
      → c.var + v.real_size ≤ length buf
      → v.real_size ≤ v.max_size
      → v.real_size < 256 ^ 8
      → slice buf c.slot 8 ≡ to_bytes 8 v.real_size
      → Loaded p v w c buf (slice buf c.var v.real_size)
  unfolding load_field load_known load_shown load_var advance count_null
  load_field-var var sl vr m small held =
      let (u, e, valid', shown, copied) =
        set_value-drop p w buf c.var v.real_size valid vr (omega arith)
          (Enough-var p.type w v.real_size var) in
      (
        u,
        assert_some-bind (λ q. load_known q buf c w) valid.described
            ∙ ground (
              arith,
              load_null-false,
              var,
              e,
              read-ok buf c.slot 8,
              held,
              of_bytes-to_bytes 8 v.real_size,
            ),
        valid',
        shown,
        copied,
      )

  pub load_field-fixed :
      is_variable_length p.type ≡ false
      → c.fixed + v.max_size ≤ length buf
      → Loaded p v w c buf (slice buf c.fixed v.max_size)
  unfolding load_field load_known load_shown load_fixed advance count_null
  load_field-fixed fixed r =
      let (u, e, valid', shown, copied) =
        set_value-drop p w buf c.fixed w.max_size valid (omega arith) (omega arith)
          (Enough-max p.type w) in
      (
        u,
        assert_some-bind (λ q. load_known q buf c w) valid.described
            ∙ ground (arith, load_null-false, fixed, e, same_max),
        valid',
        shown,
        copied ∙ ap (λ k. ok (slice buf c.fixed k)) (omega arith),
      )
