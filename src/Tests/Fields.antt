-- ===== src/Tests/Fields.antt =====
-- Values of two columns: a number, and a name of variable length.
use zapps.Prelude.{ℕ, ◌+◌, ◌≡◌, refl, arith, true, false, [], ◌∷◌, some, ok, min, none}
use zapps.Prelude.Memory.{slice, length-malloc}
use zapps.Field.{int, varchar, DescPtr, FieldValue, zeros, setup, new_value, points_to, type_size}
use zapps.Field.Access.{set_value, copy_value}
use zapps.Field.Valid.{IsValid, setup-IsValid}
use zapps.Field.Assign.{set_value_lem}

abbrev heap : ℕ → ℕ
heap n = n + 7

abbrev number : DescPtr
number = record {
  address = 100;
  desc = record {
    name = b'i' ∷ [];
    keydesc = [];
    type = int;
    size = 4;
    allow_null = false;
    is_setup = true;
  };
}

abbrev name : DescPtr
name = record {
  address = 200;
  desc = record {
    name = b'n' ∷ [];
    keydesc = [];
    type = varchar;
    size = 10;
    allow_null = true;
    is_setup = true;
  };
}

setup-IsValid_example : IsValid number (setup heap number (new_value heap))
unfolding new_value points_to
setup-IsValid_example = setup-IsValid heap number (new_value heap) (length-malloc heap 8) refl refl

abbrev john : FieldValue
john = record {
  field_desc = some name;
  null_flag = false;
  value = zeros 8;
  buffer = some (1 ∷ 2 ∷ 3 ∷ []);
  data_size = 3;
  real_size = 2;
  max_size = 10;
}

john-IsValid : IsValid name john
unfolding type_size
john-IsValid = record {
  described = refl;
  holds = record { union = refl; held = refl; sized = refl; filled = (omega arith, omega arith) };
}

set_value_lem_example :
    (w : FieldValue) × (set_value john (7 ∷ 8 ∷ 9 ∷ 10 ∷ 11 ∷ []) 4 ≡ ok w)
    × IsValid name w
    × (w.null_flag ≡ false)
    × (w.max_size ≡ 10)
    × (copy_value w ≡ ok (slice (7 ∷ 8 ∷ 9 ∷ 10 ∷ 11 ∷ []) 0 (min 4 10)))
set_value_lem_example =
    set_value_lem name john (7 ∷ 8 ∷ 9 ∷ 10 ∷ 11 ∷ []) 4 john-IsValid (omega arith) (omega arith)

abbrev answer : FieldValue
answer = record {
  field_desc = some number;
  null_flag = true;
  value = zeros 8;
  buffer = none;
  data_size = 0;
  real_size = 0;
  max_size = 4;
}

answer-IsValid : IsValid number answer
unfolding type_size
answer-IsValid = record {
  described = refl;
  holds = record { union = refl; held = refl; sized = refl; filled = tt };
}
