-- ===== src/Format/Indexed.antt =====
-- A record of an index-organised table, written by `add_tuple` and read by `index_probe`: `format`
-- writes the key fields too, and `load` with the index takes no space for them.
use zapps.Prelude.{
  true, ℕ, ◌+◌, ◌-◌, ◌≤◌, ◌≡◌, refl, sym, ◌∙◌, ap, arith, false, [], ◌∷◌, ◌++◌, length, some, ok,
}
use zapps.Prelude.Memory.{Bytes, slice}
use zapps.Field.{DescPtr, FieldValue, is_variable_length, zeros}
use zapps.Field.Access.{copy_value}
use zapps.Row.{fixed_space}
use zapps.Row.Values.{AllValid, AllShown}
use zapps.Format.{Cursor, format_fields, load_fields, skips, is_key}
use zapps.Format.Copies.{copy_value-Copies}
use zapps.Format.Steps.{advance, placed}
use zapps.Format.Loads.{load_field-fixed}
use zapps.Format.Region.{Fits, Clean}
use zapps.Format.RoundTrip.{
  loops-Trip, length-out, formatted_all, slice_fixed, Fits-placed, flags-Clean, fixed-Clean,
}

-- Two fields of one fixed size; the first is the key, the second takes no null values. The buffer
-- is cleared and has room for both.
pub record Keyed (header : ℕ) (p q : DescPtr) (v v' w w' : FieldValue) (c : Cursor) (buf : Bytes)
    : Type 0 where
  pub fits : Fits header (length buf) (p ∷ q ∷ []) (v ∷ v' ∷ []) c
  pub flags : Clean buf 0 header
  pub fixed : Clean buf c.fixed (c.fixed + fixed_space (p ∷ q ∷ []) (v ∷ v' ∷ []))
  pub valid : AllValid (p ∷ q ∷ []) (v ∷ v' ∷ [])
  pub shown : AllShown (v ∷ v' ∷ [])
  pub target : AllValid (p ∷ q ∷ []) (w ∷ w' ∷ [])
  pub key_fixed : is_variable_length p.type ≡ false
  pub next_fixed : is_variable_length q.type ≡ false
  pub next_required : q.allow_null ≡ false
  pub same_size : v.max_size ≡ w'.max_size

allows-required : (q : DescPtr) → q.allow_null ≡ true → q.allow_null ≡ false → ⊥
allows-required q yes_null no_null = cc

key_room :
    {header : ℕ} {p q : DescPtr} {v v' w w' : FieldValue} {c : Cursor} {buf : Bytes}
    → Keyed header p q v v' w w' c buf
    → c.fixed + v.max_size ≤ length buf
unfolding fixed_space
key_room k = ground (arith, k.key_fixed, k.fits.fixed_fit, k.fits.slots_fit, k.fits.vars_fit)

-- For a table of two fields of one fixed size, of which the first is the key and the second takes
-- no null values, and a cleared buffer with room for both: what the loop of `format` over the
-- fields wrote, the loop of `load` over the fields, with the index, reads without a failure; it
-- leaves the key alone, and puts the value of the key, filled up with zeros, into the other field.
pub load_fields-key :
    (header : ℕ) (p q : DescPtr) (v v' w w' : FieldValue) (c : Cursor) (buf : Bytes)
    → Keyed header p q v v' w w' c buf
    → (out bs : Bytes) × (u : FieldValue) × (format_fields (v ∷ v' ∷ []) c buf ≡ ok out)
      × (copy_value v ≡ ok bs)
      × (load_fields (some (0 ∷ [])) 0 out c (w ∷ w' ∷ []) ≡ ok (w ∷ u ∷ []))
      × (copy_value u ≡ ok (bs ++ zeros (v.max_size - length bs)))
unfolding load_fields skips is_key
load_fields-key header p q v v' w w' c buf k =
    let (bs, copied, size) = copy_value-Copies p v k.valid.0 k.shown.0 in
    let rest =
      loops-Trip header (q ∷ []) (v' ∷ []) (w' ∷ []) 1 (advance p v c) (placed p v bs c buf)
        (Fits-placed header p v w (q ∷ []) (v' ∷ []) (w' ∷ []) 0 c buf k.fits k.flags k.fixed
          k.valid.0 k.shown.0 k.shown.1 k.target.0 bs copied size)
        (flags-Clean header p v w (q ∷ []) (v' ∷ []) (w' ∷ []) 0 c buf k.fits k.flags k.fixed
          k.valid.0 k.shown.0 k.shown.1 k.target.0 bs copied size)
        (fixed-Clean header p v w (q ∷ []) (v' ∷ []) (w' ∷ []) 0 c buf k.fits k.flags k.fixed
          k.valid.0 k.shown.0 k.shown.1 k.target.0 bs copied size)
        k.valid.1 k.shown.2 k.target.1 in
    let bytes =
      slice_fixed header p v w (q ∷ []) (v' ∷ []) (w' ∷ []) 0 c buf k.fits k.flags k.fixed k.valid.0
        k.shown.0 k.shown.1 k.target.0 bs copied size rest k.key_fixed in
    let (u, e, _, _, reads) =
      load_field-fixed q w' w' c rest.out k.target.1.0 refl
        (λ nullable. absurd (allows-required q nullable k.next_required)) k.next_fixed
        (omega (
          arith,
          length-out header p v w (q ∷ []) (v' ∷ []) (w' ∷ []) 0 c buf k.fits k.flags k.fixed
              k.valid.0 k.shown.0 k.shown.1 k.target.0 bs copied size rest,
          key_room k,
          k.same_size,
        )) in
    (
      rest.out,
      bs,
      u,
      formatted_all header p v w (q ∷ []) (v' ∷ []) (w' ∷ []) 0 c buf k.fits k.flags k.fixed
          k.valid.0 k.shown.0 k.shown.1 k.target.0 bs copied size rest,
      copied,
      rw e refl,
      reads ∙ ap (λ n. ok (slice rest.out c.fixed n)) (sym k.same_size) ∙ ap ok bytes,
    )
