-- ===== src/Tests/Tables.antt =====
-- The description of a table with three fields and an index.
use zapps.Prelude.{ℕ, ◌≡◌, ◌≤◌, refl, arith, true, false, [], ◌∷◌, some, none, ok, List}
use zapps.Field.{int, varchar, DescPtr, FieldValue, zeros, type_size}
use zapps.Row.Values.{AllValid}
use zapps.Format.{tuple_size}
use zapps.Format.Sizes.{size-tuple_size}
use zapps.Row.{size, Row, nullable_fields, var_fields}
use zapps.Row.Layout.{IsLaidOut, desc_space}
use zapps.Table.{
  TableDesc, IndexDesc, new_index, find_index, maxsize, matches_name, same_name, find_in,
}
use zapps.Table.Indexes.{IsKey}
use zapps.Table.Sizes.{tuple_size-le-maxsize, AllSized}

abbrev pub number : DescPtr
number = record {
  address = 100;
  desc = record {
    name = b'i' ∷ [];
    keydesc = [];
    type = int;
    size = 4;
    allow_null = false;
    is_setup = true;
  };
}

abbrev pub name : DescPtr
name = record {
  address = 200;
  desc = record {
    name = b'n' ∷ [];
    keydesc = [];
    type = varchar;
    size = 10;
    allow_null = true;
    is_setup = true;
  };
}

abbrev primary : IndexDesc
unfolding new_index
primary = new_index (b't' ∷ []) (0 ∷ []) true true 1 false

abbrev table : TableDesc
table = record {
  name = b't' ∷ [];
  desc = number.desc ∷ name.desc ∷ [];
  pd = 1;
  primary_idx = some primary;
  indexes = [];
  known_maxsize = 0;
}

abbrev key : List ℕ
key = 0 ∷ 1 ∷ []

absent : find_index table (b'n' ∷ []) ≡ ok none
unfolding find_index new_index matches_name same_name find_in
absent = refl

key-IsKey : IsKey table.desc key
key-IsKey = ((number.desc, refl, refl), omega arith)

abbrev pub values : List FieldValue
values =
    record {
      field_desc = some number;
      null_flag = false;
      value = 42 ∷ zeros 7;
      buffer = none;
      data_size = 0;
      real_size = 0;
      max_size = 4;
    }
    ∷ record {
      field_desc = some name;
      null_flag = false;
      value = zeros 8;
      buffer = some (1 ∷ 2 ∷ 3 ∷ []);
      data_size = 3;
      real_size = 2;
      max_size = 10;
    }
    ∷ []

pub values-AllValid : AllValid (number ∷ name ∷ []) values
unfolding type_size
values-AllValid = (
  record {
    described = refl;
    holds = record { union = refl; held = refl; sized = refl; filled = tt };
  },
  (
    record {
      described = refl;
      holds = record {
        union = refl;
        held = refl;
        sized = refl;
        filled = (omega arith, omega arith);
      };
    },
    tt,
  ),
)

descs-AllSized : AllSized (number ∷ name ∷ [])
unfolding type_size
descs-AllSized = (refl, (refl, tt))

abbrev pub row : Row
row = record {
  ptable = some 5;
  field_cnt = 2;
  is_setup = true;
  values = some values;
  fixed_offset = 1;
  var_slot_offset = 5;
  var_offset = 13;
  null_count = 1;
}

row-IsLaidOut : IsLaidOut (number ∷ name ∷ []) row
unfolding nullable_fields desc_space var_fields type_size
row-IsLaidOut = record { nulls = refl; flags = refl; slots = refl; vars = refl }

tuple_size-le-maxsize_example :
    (t' : TableDesc) × (n k : ℕ) × (maxsize table ≡ ok (t', n))
    × (maxsize t' ≡ ok (t', n))
    × (tuple_size row values none ≡ ok k)
    × (k ≤ n)
tuple_size-le-maxsize_example =
    tuple_size-le-maxsize table (number ∷ name ∷ []) row values refl refl descs-AllSized
      row-IsLaidOut values-AllValid (refl, omega arith, (refl, omega arith, tt))

size-tuple_size_example : (n : ℕ) × (size row ≡ ok n) × (tuple_size row values none ≡ ok n)
size-tuple_size_example =
    size-tuple_size (number ∷ name ∷ []) row values row-IsLaidOut refl refl values-AllValid
      (refl, omega arith, (refl, omega arith, tt))
