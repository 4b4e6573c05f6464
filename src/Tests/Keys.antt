-- ===== src/Tests/Keys.antt =====
-- Keys of two fields, and updates of a row.
use zapps.Prelude.{ℕ, ◌≡◌, ◌≢◌, refl, arith, [], ◌∷◌, some, ok, List, get_elem?}
use zapps.Prelude.Memory.{Bytes}
use zapps.Field.{DescPtr, FieldValue, zeros}
use zapps.Row.{Row}
use zapps.Row.Values.{AllValid}
use zapps.Row.Access.{row_set_int, row_get_int}
use zapps.Row.Updates.{IsSetup, row_get_int-row_set_int}
use zapps.Format.Region.{Clean}
use zapps.Format.Inverse.{slice-zeros}
use zapps.Key.{format_key_fields, load_key_fields}
use zapps.Key.Places.{KeyOf, NotIn, key_space}
use zapps.Key.RoundTrip.{load_key-format_key, AllRestored}
use zapps.Tests.Tables.{number, name, values, values-AllValid, row}

abbrev descs : List DescPtr
descs = number ∷ name ∷ []

abbrev key : List ℕ
key = 1 ∷ 0 ∷ []

key-KeyOf : KeyOf values key
key-KeyOf = ((_, refl, refl), ((λ e. omega arith), tt), ((_, refl, refl), tt, tt))

zeros-Clean : Clean (zeros 14) 0 (key_space values key)
unfolding key_space
zeros-Clean o n from to = slice-zeros 14 o n to

load_key-format_key_example :
    (out : Bytes) × (back : List FieldValue) × (format_key_fields values key 0 (zeros 14) ≡ ok out)
    × (load_key_fields out key 0 values ≡ ok back)
    × AllValid descs back
    × AllRestored values back key
    × ((j : ℕ) → NotIn j key → get_elem? back j ≡ get_elem? values j)
unfolding key_space
load_key-format_key_example =
    load_key-format_key descs values values key (zeros 14) values-AllValid values-AllValid key-KeyOf
      (omega arith) zeros-Clean

row-IsSetup : IsSetup descs row values
row-IsSetup = record { flag = refl; count = refl; values = refl; valid = values-AllValid }

row_get_int-row_set_int_example :
    (r' : Row) × (vs' : List FieldValue) × (row_set_int row 0 77 ≡ ok r')
    × IsSetup descs r' vs'
    × (row_get_int r' 0 ≡ ok (some 77))
    × ((j : ℕ) → 0 ≢ j → get_elem? vs' j ≡ get_elem? values j)
row_get_int-row_set_int_example =
    row_get_int-row_set_int descs row values 0 number row-IsSetup refl 77 refl (omega arith)
