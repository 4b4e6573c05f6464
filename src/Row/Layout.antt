-- ===== src/Row/Layout.antt =====
-- The offsets that `setup` computes for a row, from the descriptions of its table alone.
use zapps.Prelude.{
  ℕ, ◌+◌, ◌*◌, ◌-◌, ◌/◌, ◌<◌, ◌≡◌, refl, arith, List, [], ◌∷◌, length, some, ok, ◌==◌,
  if◌then◌else◌, ap,
}
use zapps.Field.{DescPtr, FieldValue, is_variable_length, type_size}
use zapps.Row.{
  Row, TablePtr, empty_row, fresh_setup, setup_row, setup_values, var_fields, nullable_fields,
  fixed_space,
}
use zapps.Row.Values.{AllValid, setup_values-AllValid}

-- The bytes of the null flags.
abbrev pub flag_bytes : ℕ → ℕ
flag_bytes nulls = if nulls == 0 then 0 else (nulls - 1) / 8 + 1

-- The space of the fixed values.
unfoldable pub desc_space : List DescPtr → ℕ
desc_space [] = 0
desc_space (p ∷ ps) =
    (if is_variable_length p.type then 0 else type_size p.type p.size) + desc_space ps

pub fixed_space-desc_space :
    (ps : List DescPtr) (vs : List FieldValue) → AllValid ps vs → fixed_space ps vs ≡ desc_space ps
unfolding fixed_space desc_space
fixed_space-desc_space [] vs h = refl
fixed_space-desc_space (p ∷ ps) [] h = absurd h
fixed_space-desc_space (p ∷ ps) (v ∷ vs) h =
    ground (arith, h.0.holds.sized, fixed_space-desc_space ps vs h.1)

-- Null flags, fixed values, slots and variable values follow one another.
pub record IsLaidOut (ps : List DescPtr) (r : Row) : Type 0 where
  pub nulls : r.null_count ≡ nullable_fields ps
  pub flags : r.fixed_offset ≡ flag_bytes (nullable_fields ps)
  pub slots : r.var_slot_offset ≡ r.fixed_offset + desc_space ps
  pub vars : r.var_offset ≡ r.var_slot_offset + 8 * var_fields ps

-- A new row set up for a table with fields is laid out for it, and all its values are set up.
pub setup_row-IsLaidOut :
    (heap : ℕ → ℕ) (t : TablePtr)
    → 0 < length t.descs
    → (r : Row) × (vs : List FieldValue) × (setup_row heap empty_row t ≡ ok (r, 0))
      × (r.values ≡ some vs)
      × IsLaidOut t.descs r
      × AllValid t.descs vs
unfolding setup_row fresh_setup empty_row
setup_row-IsLaidOut heap t h = (
  fresh_setup heap empty_row t,
  setup_values heap t.descs,
  ground arith,
  refl,
  record {
    nulls = omega arith;
    flags = ap flag_bytes (omega arith);
    slots = omega (arith, fixed_space-desc_space t.descs (setup_values heap t.descs) made);
    vars = refl;
  },
  made,
)
  where
    made : AllValid t.descs (setup_values heap t.descs)
    made = setup_values-AllValid heap t.descs
