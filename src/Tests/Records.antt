-- ===== src/Tests/Records.antt =====
-- Records of a small table, in main memory and in disk format.
use zapps.Prelude.{ℕ, ◌+◌, ◌≡◌, refl, arith, true, false, [], ◌∷◌, none, some, List, ok}
use zapps.Prelude.Memory.{Bytes}
use zapps.Field.{int, varchar, fixchar, DescPtr, FieldValue, type_size, zeros}
use zapps.Row.{
  TablePtr, Row, empty_row, setup_row, RepRow, nullable_fields, var_fields, setup_values,
}
use zapps.Row.Layout.{setup_row-IsLaidOut, IsLaidOut, desc_space}
use zapps.Row.Values.{AllValid, setup_values-AllValid}
use zapps.Format.{load, format}
use zapps.Format.Inverse.{load-format, Formattable, record_size}
use zapps.Format.Region.{var_total}
use zapps.Format.RoundTrip.{AllReloaded}

abbrev heap : ℕ → ℕ
heap n = n + 7

abbrev number : DescPtr
number = record {
  address = 100;
  desc = record {
    name = b'i' ∷ [];
    keydesc = [];
    type = int;
    size = 4;
    allow_null = false;
    is_setup = true;
  };
}

abbrev name : DescPtr
name = record {
  address = 200;
  desc = record {
    name = b'n' ∷ [];
    keydesc = [];
    type = varchar;
    size = 10;
    allow_null = true;
    is_setup = true;
  };
}

abbrev code : DescPtr
code = record {
  address = 300;
  desc = record {
    name = b'c' ∷ [];
    keydesc = [];
    type = fixchar;
    size = 4;
    allow_null = false;
    is_setup = true;
  };
}

abbrev table : TablePtr
table = record { address = 5; descs = number ∷ name ∷ code ∷ [] }

setup_row-IsLaidOut_example :
    (r : Row) × (vs : List FieldValue) × (setup_row heap empty_row table ≡ ok (r, 0))
    × (r.values ≡ some vs)
    × IsLaidOut table.descs r
    × AllValid table.descs vs
setup_row-IsLaidOut_example = setup_row-IsLaidOut heap table (omega arith)

abbrev values : List FieldValue
values =
    record {
      field_desc = some number;
      null_flag = false;
      value = 42 ∷ zeros 7;
      buffer = none;
      data_size = 0;
      real_size = 0;
      max_size = 4;
    }
    ∷ record {
      field_desc = some name;
      null_flag = false;
      value = zeros 8;
      buffer = some (1 ∷ 2 ∷ 3 ∷ []);
      data_size = 3;
      real_size = 2;
      max_size = 10;
    }
    ∷ record {
      field_desc = some code;
      null_flag = false;
      value = zeros 8;
      buffer = some (9 ∷ 8 ∷ 7 ∷ 6 ∷ []);
      data_size = 4;
      real_size = 3;
      max_size = 4;
    }
    ∷ []

abbrev scratchpad : RepRow
scratchpad = record { dest = none; bufsz = 0; nbytes = 100 }

abbrev target_values : List FieldValue
target_values = setup_values heap table.descs

abbrev row_of : List FieldValue → Row
row_of vs = record {
  ptable = some 5;
  field_cnt = 3;
  is_setup = true;
  values = some vs;
  fixed_offset = 1;
  var_slot_offset = 9;
  var_offset = 17;
  null_count = 1;
}

abbrev source : Row
source = row_of values

abbrev target : Row
target = row_of target_values

row_of-IsLaidOut : (vs : List FieldValue) → IsLaidOut table.descs (row_of vs)
unfolding nullable_fields desc_space var_fields type_size
row_of-IsLaidOut vs = record { nulls = refl; flags = refl; slots = refl; vars = refl }

ready : Formattable heap scratchpad source target table.descs values target_values
unfolding record_size var_total desc_space nullable_fields var_fields type_size
ready = record {
  source = row_of-IsLaidOut values;
  source_values = refl;
  source_valid = (
    record {
      described = refl;
      holds = record { union = refl; held = refl; sized = refl; filled = tt };
    },
    (
      record {
        described = refl;
        holds = record {
          union = refl;
          held = refl;
          sized = refl;
          filled = (omega arith, omega arith);
        };
      },
      (
        record {
          described = refl;
          holds = record {
            union = refl;
            held = refl;
            sized = refl;
            filled = (omega arith, omega arith);
          };
        },
        tt,
      ),
    ),
  );
  shown = (refl, omega arith, (refl, omega arith, (refl, omega arith, tt)));
  target = row_of-IsLaidOut target_values;
  target_values = refl;
  target_valid = setup_values-AllValid heap table.descs;
  scratchpad = refl;
  nonempty = omega arith;
  fits = omega arith;
}

load-format_example :
    (rep' : RepRow) × (out : Bytes) × (back : List FieldValue) × (format heap scratchpad source none
      ≡ ok (rep', record_size table.descs values))
    × (rep'.dest ≡ some out)
    × (load target out none ≡ ok (record target { values = some back }))
    × AllReloaded table.descs values back
load-format_example =
    load-format heap scratchpad source target table.descs values target_values ready

-- A run of `format` on the row.
formatted : (result : RepRow × ℕ) × (format heap scratchpad source none ≡ ok result)
formatted =
    let (rep', out, back, e, _, _, _) =
      load-format heap scratchpad source target table.descs values target_values ready in
    ((rep', record_size table.descs values), e)
