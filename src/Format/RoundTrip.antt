-- ===== src/Format/RoundTrip.antt =====
-- `load` is the inverse of `format`, for the records without null values and without an index.
use mathlib.Core.List.{append-nil}
use zapps.Prelude.{
  subst, ℕ, ◌+◌, ◌-◌, ◌/◌, ◌^◌, ◌≤◌, ◌<◌, ◌≡◌, refl, sym, ◌∙◌, arith, true, false, List, [], ◌∷◌,
  ◌++◌, length, inl, inr, Bool-cases, none, ok, if◌then◌else◌,
}
use zapps.Prelude.Memory.{Bytes, slice}
use zapps.Field.{DescPtr, FieldValue, is_variable_length, zeros}
use zapps.Field.Access.{copy_value}
use zapps.Field.Valid.{IsValid}
use zapps.Row.Values.{AllValid, AllShown}
use zapps.Row.{nullable_fields, fixed_space}
use zapps.Format.{Cursor, format_fields, load_fields, skips, is_null_flag}
use zapps.Format.Copies.{copied_size, copied_size-le, copied_size-var, copy_value-Copies}
use zapps.Format.Steps.{Room, advance, placed, format_field-placed, is_null_flag-zero}
use zapps.Format.Loads.{Loaded, load_field-var, load_field-fixed}
use zapps.Format.Region.{
  var_region, fixed_region, fixed_end-advance, fixed-le-advance, Fits, Fits-advance, Outside,
  Outside-advance, Clean, Fits-Room, length-placed, placed-frame, placed-fixed, slice-placed_fixed,
  slice-placed_var,
}

-- A shorter value of fixed length is filled up with zeros.
abbrev pub padding : DescPtr → FieldValue → Bytes → ℕ
padding p v bs = if is_variable_length p.type then 0 else v.max_size - length bs

-- `u` holds what `v` held.
abbrev pub Reloaded : DescPtr → FieldValue → FieldValue → Type 0
Reloaded p v u =
    IsValid p u
    × (u.null_flag ≡ false)
    × ((bs : Bytes) × (copy_value v ≡ ok bs) × (copy_value u ≡ ok (bs ++ zeros (padding p v bs))))

abbrev pub AllReloaded : List DescPtr → List FieldValue → List FieldValue → Type 0
AllReloaded [] vs [] = Unit {0}
AllReloaded [] vs (u ∷ us) = ⊥
AllReloaded (p ∷ ps) vs [] = ⊥
AllReloaded (p ∷ ps) [] (u ∷ us) = ⊥
AllReloaded (p ∷ ps) (v ∷ vs) (u ∷ us) = Reloaded p v u × AllReloaded ps vs us

-- The two loops in turn, from the same cursor.
pub record Trip (ps : List DescPtr) (vs ws : List FieldValue) (i : ℕ) (c : Cursor) (buf : Bytes)
    : Type 0 where
  pub out : Bytes
  pub formatted : format_fields vs c buf ≡ ok out
  pub kept : length out ≡ length buf
  pub frame : (o n : ℕ) → Outside ps vs c o n → slice out o n ≡ slice buf o n
  pub back : List FieldValue
  pub loaded : load_fields none i out c ws ≡ ok back
  pub same : AllReloaded ps vs back

module _ (header : ℕ) (p : DescPtr) (v w : FieldValue) (ps : List DescPtr) (vs ws : List FieldValue)
    (i : ℕ) (c : Cursor) (buf : Bytes) (fits : Fits header (length buf) (p ∷ ps) (v ∷ vs) c)
    (flags : Clean buf 0 header)
    (fixed : Clean buf c.fixed (c.fixed + fixed_space (p ∷ ps) (v ∷ vs))) (valid : IsValid p v)
    (shown : v.null_flag ≡ false) (small : v.real_size < 256 ^ 8) (target : IsValid p w)
    (bs : Bytes) (copied : copy_value v ≡ ok bs) (size : length bs ≡ copied_size p.type v) where
  pub short : length bs ≤ v.max_size
  short = omega (arith, copied_size-le p.type p.size v valid.holds)

  pub exact : is_variable_length p.type ≡ true → length bs ≡ v.real_size
  exact var = size ∙ copied_size-var p.type v var

  room : Room p v c (length buf)
  room = Fits-Room p v ps vs c fits

  pub Fits-placed : Fits header (length (placed p v bs c buf)) ps vs (advance p v c)
  Fits-placed =
      subst (λ n. Fits header n ps vs (advance p v c))
        (sym (length-placed p v ps vs c bs buf fits short exact)) (Fits-advance p v ps vs c fits)

  -- The rest of the buffer, up to the header, is as it was.
  untouched :
      (o n : ℕ) → Outside (p ∷ ps) (v ∷ vs) c o n → slice (placed p v bs c buf) o n ≡ slice buf o n
  untouched o n out = placed-frame p v ps vs c bs buf fits short exact o n out

  pub flags-Clean : Clean (placed p v bs c buf) 0 header
  flags-Clean o n from to =
      untouched o n (inl (omega (arith, fits.header_first))) ∙ flags o n from to

  pub fixed-Clean :
      Clean (placed p v bs c buf) (advance p v c).fixed ((advance p v c).fixed + fixed_space ps vs)
  fixed-Clean o n from to =
      placed-fixed p v ps vs c bs buf fits short exact o n from
        (omega (arith, fixed_end-advance p v ps vs c, fits.fixed_fit))
      ∙ fixed o n (omega (arith, fixed-le-advance p v ps vs c))
          (omega (arith, fixed_end-advance p v ps vs c))

  module _ (rest : Trip ps vs ws (i + 1) (advance p v c) (placed p v bs c buf)) where
    pub length-out : length rest.out ≡ length buf
    length-out = rest.kept ∙ length-placed p v ps vs c bs buf fits short exact

    flag_clear : p.allow_null ≡ true → is_null_flag rest.out c.nulls ≡ ok false
    unfolding nullable_fields
    flag_clear nullable =
        is_null_flag-zero rest.out c.nulls (omega (arith, within, length-out, in_buffer)) (
          rest.frame (c.nulls / 8) 1
            (inl (omega (arith, within, (Fits-advance p v ps vs c fits).header_first)))
          ∙ flags-Clean (c.nulls / 8) 1 (omega arith) within)
      where
        within : c.nulls / 8 + 1 ≤ header
        within = ground (arith, nullable, fits.flags)

        in_buffer : header ≤ length buf
        in_buffer = omega (arith, fits.header_first, fits.fixed_fit, fits.slots_fit, fits.vars_fit)

    pub slice_fixed :
        is_variable_length p.type ≡ false
        → slice rest.out c.fixed v.max_size ≡ bs ++ zeros (v.max_size - length bs)
    slice_fixed rigid =
        rest.frame c.fixed v.max_size (inl (fixed_region p v ps vs c rigid))
        ∙ slice-placed_fixed p v ps vs c bs buf fits short exact rigid fixed

    load_head : Loaded p v w c rest.out (bs ++ zeros (padding p v bs))
    load_head = elim (Bool-cases (is_variable_length p.type)) [
      | inl var ↦
          let own = slice-placed_var p v ps vs c bs buf fits short exact var in
          let region = var_region p v ps vs c var fits in
          let head =
            load_field-var p v w c rest.out target same_max flag_clear var
              (omega (arith, length-out, room.slot_room var))
              (omega (arith, length-out, room.var_room var)) (omega (arith, short, exact var)) small
              (rest.frame c.slot 8 (inr (inl (region.0, region.1))) ∙ own.0) in
          subst (λ bytes. Loaded p v w c rest.out bytes)
            (rest.frame c.var v.real_size (inr (inr (region.2, region.3))) ∙ own.1 ∙ no_padding var)
            head
      | inr rigid ↦
          let own = slice-placed_fixed p v ps vs c bs buf fits short exact rigid fixed in
          let head =
            load_field-fixed p v w c rest.out target same_max flag_clear rigid
              (omega (arith, length-out, room.fixed_room rigid)) in
          subst (λ bytes. Loaded p v w c rest.out bytes)
            (rest.frame c.fixed v.max_size (inl (fixed_region p v ps vs c rigid)) ∙ own ∙ rw rigid)
            head
    ]
      where
        same_max : v.max_size ≡ w.max_size
        same_max = valid.holds.sized ∙ sym target.holds.sized

        no_padding : is_variable_length p.type ≡ true → bs ≡ bs ++ zeros (padding p v bs)
        no_padding var = rw var (sym (append-nil bs))

    pub formatted_all : format_fields (v ∷ vs) c buf ≡ ok rest.out
    unfolding format_fields
    formatted_all =
        rw (format_field-placed p v bs c buf valid shown copied short exact room) rest.formatted

    loaded_all : load_fields none i rest.out c (w ∷ ws) ≡ ok (load_head.0 ∷ rest.back)
    unfolding load_fields skips
    loaded_all = rw (load_head.1, rest.loaded)

    pub join : Trip (p ∷ ps) (v ∷ vs) (w ∷ ws) i c buf
    join = record {
      out = rest.out;
      formatted = formatted_all;
      kept = length-out;
      frame = λ o n h. rest.frame o n (Outside-advance p v ps vs c o n h) ∙ untouched o n h;
      back = load_head.0 ∷ rest.back;
      loaded = loaded_all;
      same = ((load_head.2, load_head.3, (bs, copied, load_head.4)), rest.same);
    }

-- From a cursor that fits, `format` runs through, and `load` of what it leaves gives back the
-- values, into any row that is set up for the same table.
pub loops-Trip :
    (header : ℕ) (ps : List DescPtr) (vs ws : List FieldValue) (i : ℕ) (c : Cursor) (buf : Bytes)
    → Fits header (length buf) ps vs c
    → Clean buf 0 header
    → Clean buf c.fixed (c.fixed + fixed_space ps vs)
    → AllValid ps vs
    → AllShown vs
    → AllValid ps ws
    → Trip ps vs ws i c buf
unfolding format_fields load_fields skips
loops-Trip header [] [] [] i c buf fits flags fixed valid shown target = record {
  out = buf;
  formatted = refl;
  kept = refl;
  frame = λ o n h. refl;
  back = [];
  loaded = refl;
  same = tt;
}
loops-Trip header [] (v ∷ vs) ws i c buf fits flags fixed valid shown target = absurd valid
loops-Trip header (p ∷ ps) [] ws i c buf fits flags fixed valid shown target = absurd valid
loops-Trip header [] [] (w ∷ ws) i c buf fits flags fixed valid shown target = absurd target
loops-Trip header (p ∷ ps) (v ∷ vs) [] i c buf fits flags fixed valid shown target = absurd target
loops-Trip header (p ∷ ps) (v ∷ vs) (w ∷ ws) i c buf fits flags fixed valid shown target =
    let (bs, copied, size) = copy_value-Copies p v valid.0 shown.0 in
    join header p v w ps vs ws i c buf fits flags fixed valid.0 shown.0 shown.1 target.0 bs copied
      size
      (loops-Trip header ps vs ws (i + 1) (advance p v c) (placed p v bs c buf)
        (Fits-placed header p v w ps vs ws i c buf fits flags fixed valid.0 shown.0 shown.1 target.0
          bs copied size)
        (flags-Clean header p v w ps vs ws i c buf fits flags fixed valid.0 shown.0 shown.1 target.0
          bs copied size)
        (fixed-Clean header p v w ps vs ws i c buf fits flags fixed valid.0 shown.0 shown.1 target.0
          bs copied size)
        valid.1 shown.2 target.1)
