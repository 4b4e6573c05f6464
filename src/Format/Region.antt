-- ===== src/Format/Region.antt =====
-- The regions of a record: null flags, fixed values, slots, variable values. A field is placed
-- within its regions, and leaves the rest of the buffer as it is.
use zapps.Prelude.{
  if◌then◌else◌, ℕ, ◌+◌, ◌*◌, ◌-◌, ◌≤◌, ◌≡◌, ◌∙◌, arith, true, false, List, [], ◌∷◌, ◌++◌, length,
  ap, ◌⊎◌, inl, inr, Bool-cases,
}
use zapps.Prelude.Memory.{
  Bytes, put, slice, slice-put_before, slice-put_behind, slice-put_same, slice-put_extend,
  length-put,
}
use zapps.Field.{DescPtr, FieldValue, is_variable_length, zeros}
use zapps.Field.Access.{to_bytes}
use zapps.Row.{var_fields, nullable_fields, fixed_space}
use zapps.Format.{Cursor, count_null}
use zapps.Field.Numbers.{length-to_bytes}
use zapps.Format.Steps.{advance, placed, Room}

unfoldable pub var_total : List DescPtr → List FieldValue → ℕ
var_total [] vs = 0
var_total (p ∷ ps) [] = 0
var_total (p ∷ ps) (v ∷ vs) =
    (if is_variable_length p.type then v.real_size else 0) + var_total ps vs

-- The fields that are left have room from the cursor on; the flags take `header` bytes.
pub record Fits (header n : ℕ) (ps : List DescPtr) (vs : List FieldValue) (c : Cursor)
    : Type 0 where
  pub flags : c.nulls + nullable_fields ps ≤ 8 * header
  pub header_first : header ≤ c.fixed
  pub fixed_fit : c.fixed + fixed_space ps vs ≤ c.slot
  pub slots_fit : c.slot + 8 * var_fields ps ≤ c.var
  pub vars_fit : c.var + var_total ps vs ≤ n

-- The bytes [o, o + n) lie outside the regions that are left.
abbrev pub Outside : List DescPtr → List FieldValue → Cursor → ℕ → ℕ → Type 0
Outside ps vs c o n =
    (o + n ≤ c.fixed)
    ⊎ ((c.fixed + fixed_space ps vs ≤ o) × (o + n ≤ c.slot))
    ⊎ ((c.slot + 8 * var_fields ps ≤ o) × (o + n ≤ c.var))

abbrev pub Clean : Bytes → ℕ → ℕ → Type 0
Clean buf a b = (o n : ℕ) → a ≤ o → o + n ≤ b → slice buf o n ≡ zeros n

module _ (p : DescPtr) (v : FieldValue) (ps : List DescPtr) (vs : List FieldValue)
    (c : Cursor) where
  pub Fits-advance :
      {header n : ℕ} → Fits header n (p ∷ ps) (v ∷ vs) c → Fits header n ps vs (advance p v c)
  unfolding advance count_null fixed_space var_fields nullable_fields var_total
  Fits-advance f = ground arith

  pub fixed_end-advance :
      (advance p v c).fixed + fixed_space ps vs ≡ c.fixed + fixed_space (p ∷ ps) (v ∷ vs)
  unfolding advance count_null fixed_space
  fixed_end-advance = ground arith

  pub fixed-le-advance : c.fixed ≤ (advance p v c).fixed
  unfolding advance count_null
  fixed-le-advance = ground arith

  pub Outside-advance :
      (o n : ℕ) → Outside (p ∷ ps) (v ∷ vs) c o n → Outside ps vs (advance p v c) o n
  unfolding advance count_null fixed_space var_fields
  Outside-advance o n out = ground arith

  -- The bytes of a field lie behind the cursor that follows it, and nowhere else.
  pub var_region :
      {header n : ℕ}
      → is_variable_length p.type ≡ true
      → Fits header n (p ∷ ps) (v ∷ vs) c
      → ((advance p v c).fixed + fixed_space ps vs ≤ c.slot)
        × (c.slot + 8 ≤ (advance p v c).slot)
        × ((advance p v c).slot + 8 * var_fields ps ≤ c.var)
        × (c.var + v.real_size ≤ (advance p v c).var)
  unfolding advance count_null fixed_space var_fields
  var_region var f = ground arith

  pub fixed_region :
      is_variable_length p.type ≡ false → c.fixed + v.max_size ≤ (advance p v c).fixed
  unfolding advance count_null
  fixed_region rigid = ground arith

  pub Fits-Room : {header n : ℕ} → Fits header n (p ∷ ps) (v ∷ vs) c → Room p v c n
  unfolding fixed_space var_fields var_total
  Fits-Room f = record {
    fixed_room = λ h. ground arith;
    slot_room = λ h. ground arith;
    var_room = λ h. ground arith;
  }

module _ {header : ℕ} (p : DescPtr) (v : FieldValue) (ps : List DescPtr) (vs : List FieldValue)
    (c : Cursor) (bs buf : Bytes) (fits : Fits header (length buf) (p ∷ ps) (v ∷ vs) c)
    (size : length bs ≤ v.max_size)
    (var_size : is_variable_length p.type ≡ true → length bs ≡ v.real_size) where
  pub length-placed : length (placed p v bs c buf) ≡ length buf
  unfolding placed
  length-placed = ground (
    arith,
    length-put buf c.var bs,
    length-put buf c.fixed bs,
    length-put (put buf c.var bs) c.slot (to_bytes 8 v.real_size),
  )

  pub placed-frame :
      (o n : ℕ) → Outside (p ∷ ps) (v ∷ vs) c o n → slice (placed p v bs c buf) o n ≡ slice buf o n
  unfolding placed fixed_space var_fields
  placed-frame o n out = elim (Bool-cases (is_variable_length p.type)) [
    | inl var ↦ ground (
      arith,
      var,
      var_size var,
      fits.header_first,
      fits.fixed_fit,
      fits.slots_fit,
      length-to_bytes 8 v.real_size,
      slice-put_before buf c.var bs o n,
      slice-put_behind (put buf c.var bs) c.slot (to_bytes 8 v.real_size) o n,
      slice-put_before (put buf c.var bs) c.slot (to_bytes 8 v.real_size) o n,
    )
    | inr fixed ↦ ground (
      arith,
      fixed,
      fits.fixed_fit,
      fits.slots_fit,
      slice-put_before buf c.fixed bs o n,
      slice-put_behind buf c.fixed bs o n,
    )
  ]

  -- The fixed values to come are not touched either.
  pub placed-fixed :
      (o n : ℕ)
      → (advance p v c).fixed ≤ o
      → o + n ≤ c.slot
      → slice (placed p v bs c buf) o n ≡ slice buf o n
  unfolding placed advance count_null
  placed-fixed o n from to = elim (Bool-cases (is_variable_length p.type)) [
    | inl var ↦ ground (
      arith,
      var,
      fits.slots_fit,
      slice-put_before buf c.var bs o n,
      slice-put_before (put buf c.var bs) c.slot (to_bytes 8 v.real_size) o n,
    )
    | inr fixed ↦ ground (arith, fixed, slice-put_behind buf c.fixed bs o n)
  ]

  -- What the field's own bytes are.
  pub slice-placed_fixed :
      is_variable_length p.type ≡ false
      → Clean buf c.fixed (c.fixed + fixed_space (p ∷ ps) (v ∷ vs))
      → slice (placed p v bs c buf) c.fixed v.max_size ≡ bs ++ zeros (v.max_size - length bs)
  unfolding placed fixed_space
  slice-placed_fixed fixed clean =
      let pad : ℕ = v.max_size - length bs in
      let whole : v.max_size ≡ length bs + pad = omega arith in
      rw fixed (
        ap (slice (put buf c.fixed bs) c.fixed) whole
        ∙ slice-put_extend buf c.fixed bs pad (omega (arith, fixed_in))
        ∙ ap (◌++◌ bs) (clean (c.fixed + length bs) pad (omega arith) (omega (arith, fixed_in))))
    where
      fixed_in :
          (c.fixed + v.max_size ≤ c.fixed + fixed_space (p ∷ ps) (v ∷ vs))
          × (c.fixed + fixed_space (p ∷ ps) (v ∷ vs) ≤ c.slot)
          × (c.slot ≤ length buf)
      fixed_in = ground (arith, fixed, fits.fixed_fit, fits.slots_fit, fits.vars_fit)

  pub slice-placed_var :
      is_variable_length p.type ≡ true
      → (slice (placed p v bs c buf) c.slot 8 ≡ to_bytes 8 v.real_size)
        × (slice (placed p v bs c buf) c.var v.real_size ≡ bs)
  unfolding placed var_fields var_total
  slice-placed_var var = ground (
    arith,
    var,
    var_size var,
    fits.slots_fit,
    fits.vars_fit,
    length-to_bytes 8 v.real_size,
    length-put buf c.var bs,
    slice-put_same (put buf c.var bs) c.slot (to_bytes 8 v.real_size),
    slice-put_behind (put buf c.var bs) c.slot (to_bytes 8 v.real_size) c.var v.real_size,
    slice-put_same buf c.var bs,
  )
