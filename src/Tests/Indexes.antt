-- ===== src/Tests/Indexes.antt =====
-- A table of two numbers, of which the first is the key.
use zapps.Prelude.{◌-◌, ◌≡◌, refl, arith, true, false, [], ◌∷◌, ◌++◌, none, some, ok, length}
use zapps.Prelude.Memory.{Bytes}
use zapps.Field.{int, DescPtr, FieldValue, zeros, type_size}
use zapps.Field.Access.{copy_value}
use zapps.Field.Valid.{IsValid}
use zapps.Row.{fixed_space, nullable_fields, var_fields}
use zapps.Format.{Cursor, format_fields, load_fields}
use zapps.Format.Region.{var_total}
use zapps.Format.Inverse.{slice-zeros}
use zapps.Format.Indexed.{Keyed, load_fields-key}

abbrev first : DescPtr
first = record {
  address = 100;
  desc = record {
    name = b'i' ∷ [];
    keydesc = [];
    type = int;
    size = 4;
    allow_null = false;
    is_setup = true;
  };
}

abbrev second : DescPtr
second = record {
  address = 101;
  desc = record {
    name = b'j' ∷ [];
    keydesc = [];
    type = int;
    size = 4;
    allow_null = false;
    is_setup = true;
  };
}

abbrev id : FieldValue
id = record {
  field_desc = some first;
  null_flag = false;
  value = 42 ∷ zeros 7;
  buffer = none;
  data_size = 0;
  real_size = 0;
  max_size = 4;
}

abbrev balance : FieldValue
balance = record {
  field_desc = some second;
  null_flag = false;
  value = 7 ∷ zeros 7;
  buffer = none;
  data_size = 0;
  real_size = 0;
  max_size = 4;
}

id-IsValid : IsValid first id
unfolding type_size
id-IsValid = record {
  described = refl;
  holds = record { union = refl; held = refl; sized = refl; filled = tt };
}

balance-IsValid : IsValid second balance
unfolding type_size
balance-IsValid = record {
  described = refl;
  holds = record { union = refl; held = refl; sized = refl; filled = tt };
}

abbrev cursor : Cursor
cursor = record { nulls = 0; fixed = 0; slot = 8; var = 8 }

keyed : Keyed 0 first second id balance id balance cursor (zeros 8)
unfolding fixed_space nullable_fields var_fields var_total
keyed = record {
  fits = record {
    flags = omega arith;
    header_first = omega arith;
    fixed_fit = omega arith;
    slots_fit = omega arith;
    vars_fit = omega arith;
  };
  flags = λ o n from to. slice-zeros 8 o n (omega (arith, to));
  fixed = λ o n from to. slice-zeros 8 o n to;
  valid = (id-IsValid, (balance-IsValid, tt));
  shown = (refl, omega arith, (refl, omega arith, tt));
  target = (id-IsValid, (balance-IsValid, tt));
  key_fixed = refl;
  next_fixed = refl;
  next_required = refl;
  same_size = refl;
}

load_fields-key_example :
    (out bs : Bytes) × (u : FieldValue) × (format_fields (id ∷ balance ∷ []) cursor (zeros 8)
      ≡ ok out)
    × (copy_value id ≡ ok bs)
    × (load_fields (some (0 ∷ [])) 0 out cursor (id ∷ balance ∷ []) ≡ ok (id ∷ u ∷ []))
    × (copy_value u ≡ ok (bs ++ zeros (4 - length bs)))
load_fields-key_example =
    load_fields-key 0 first second id balance id balance cursor (zeros 8) keyed
