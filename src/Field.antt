-- ===== src/Field.antt =====
-- src/kits/field.h: the description of a column (`field_desc_t`) and the value of a column
-- (`field_value_t`).
-- A value of one of the scalar types stands in the union `_value`, here its eight bytes in memory
-- order (the low byte first). `_value._string` and `_value._time` always point to `_data`, so the
-- buffer stands for all three; it is `none` while `_data` is NULL. A copy of no bytes touches no
-- memory. Doubles are their 64-bit patterns. The fields of a description are unlocked: one thread.
pub mod Access
pub mod Valid
pub mod Stores
pub mod Assign
pub mod Reads
pub mod Limits
pub mod Numbers
use zapps.Prelude.{
  ℕ, zero, suc, ◌+◌, ◌/◌, ◌%◌, Bool, true, false, List, [], ◌∷◌, ◌++◌, Option, none, some, ltb, leb,
  ◌==◌, if◌then◌else◌, length, take, replicate, ◌&&◌, not,
}
use zapps.Prelude.Memory.{Bytes, malloc}

pub data SqlType : Type 0 where
  bit smallint int float long char fixchar varchar time numeric snumeric : SqlType

-- The position in the enumeration.
abbrev pub tag : SqlType → ℕ
tag bit = 0
tag smallint = 1
tag int = 2
tag float = 3
tag long = 4
tag char = 5
tag fixchar = 6
tag varchar = 7
tag time = 8
tag numeric = 9
tag snumeric = 10

abbrev pub has_type : SqlType → SqlType → Bool
has_type t s = tag t == tag s

pub record FieldDesc : Type 0 where
  pub name : Bytes
  pub keydesc : Bytes
  pub type : SqlType
  pub size : ℕ
  pub allow_null : Bool
  pub is_setup : Bool

abbrev pub max_fieldname_len : ℕ
max_fieldname_len = 40

unfoldable pub empty_desc : FieldDesc
empty_desc = record {
  name = [];
  keydesc = [];
  type = smallint;
  size = 0;
  allow_null = true;
  is_setup = false;
}

-- `is_variable_length(type)`
abbrev pub is_variable_length : SqlType → Bool
is_variable_length t = has_type t varchar

-- The bytes that a value of the type takes; `size` for the strings.
unfoldable pub type_size : SqlType → ℕ → ℕ
type_size bit size = 1
type_size smallint size = 2
type_size char size = 1
type_size int size = 4
type_size float size = 8
type_size long size = 8
type_size time size = 8
type_size fixchar size = size
type_size numeric size = size
type_size snumeric size = size
type_size varchar size = size

-- The digits of `%d`, for a number of at most `fuel` digits.
digits_from : ℕ → ℕ → Bytes → Bytes
digits_from zero n acc = acc
digits_from (suc fuel) n acc =
    let acc' = (b'0' + n % 10) ∷ acc in
    let rest = digits_from fuel (n / 10) acc' in if n / 10 == 0 then acc' else rest

-- Sizes are of type `short`, of five digits at most.
decimal : ℕ → Bytes
unfolding digits_from
decimal n = digits_from 5 n []

key_letter : SqlType → Bytes
key_letter bit = b'i' ∷ []
key_letter smallint = b'i' ∷ []
key_letter char = b'i' ∷ []
key_letter int = b'i' ∷ []
key_letter float = b'f' ∷ []
key_letter long = b'f' ∷ []
key_letter varchar = b'b' ∷ b'*' ∷ []
key_letter time = b'b' ∷ []
key_letter fixchar = b'b' ∷ []
key_letter numeric = b'b' ∷ []
key_letter snumeric = b'b' ∷ []

-- A description that is there already is kept.
unfoldable pub set_keydesc : FieldDesc → FieldDesc
unfolding decimal key_letter
set_keydesc d =
    if ltb 1 (length d.keydesc)
    then d
    else record d { keydesc = key_letter d.type ++ decimal d.size }

-- `strncpy` copies at most MAX_FIELDNAME_LEN characters.
unfoldable pub setup_desc : FieldDesc → SqlType → Bytes → ℕ → Bool → FieldDesc
unfolding type_size set_keydesc
setup_desc d type name size allow_null =
    let sized : FieldDesc = record d {
      name = take max_fieldname_len name;
      type = type;
      size = type_size type size;
    } in
    record (set_keydesc sized) { allow_null = allow_null; is_setup = true }

-- A pointer to a description: an address, and what stands there.
pub record DescPtr : Type 0 where
  pub address : ℕ
  pub desc : FieldDesc
  pub open desc use *

pub record FieldValue : Type 0 where
  pub field_desc : Option DescPtr
  pub null_flag : Bool
  pub value : Bytes
  pub buffer : Option Bytes
  pub data_size : ℕ
  pub real_size : ℕ
  pub max_size : ℕ

-- The constructor leaves the union as it stands in memory.
unfoldable pub new_value : (ℕ → ℕ) → FieldValue
new_value heap = record {
  field_desc = none;
  null_flag = true;
  value = malloc heap 8;
  buffer = none;
  data_size = 0;
  real_size = 0;
  max_size = 0;
}

abbrev pub is_some {ℓ} : {A : Type ℓ} → Option A → Bool
is_some none = false
is_some (some a) = true

abbrev pub zeros : ℕ → Bytes
zeros n = replicate n 0

unfoldable pub setup_scalar : ℕ → FieldValue → FieldValue
setup_scalar width v = record v { max_size = width }

-- The buffer of a string of fixed length: kept if it is large enough, and cleared.
unfoldable pub setup_string : ℕ → FieldValue → FieldValue
setup_string sz v =
    if leb sz v.data_size && is_some v.buffer
    then record v { real_size = sz; max_size = sz; buffer = some (zeros v.data_size) }
    else record v { real_size = sz; max_size = sz; buffer = some (zeros sz); data_size = sz }

unfoldable pub setup_as : (ℕ → ℕ) → SqlType → ℕ → FieldValue → FieldValue
unfolding setup_scalar setup_string
setup_as heap bit size v = setup_scalar 1 v
setup_as heap smallint size v = setup_scalar 2 v
setup_as heap char size v = setup_scalar 1 v
setup_as heap int size v = setup_scalar 4 v
setup_as heap float size v = setup_scalar 8 v
setup_as heap long size v = setup_scalar 8 v
setup_as heap time size v = record v {
  data_size = 8;
  real_size = 8;
  max_size = 8;
  buffer = some (malloc heap 8);
}
setup_as heap varchar size v = record v { max_size = size; real_size = 0 }
setup_as heap fixchar size v = setup_string size v
setup_as heap numeric size v = setup_string size v
setup_as heap snumeric size v = setup_string size v

unfoldable pub points_to : Option DescPtr → ℕ → Bool
points_to none a = false
points_to (some p) a = p.address == a

-- A value that is set up for the same description is left alone.
unfoldable pub setup : (ℕ → ℕ) → DescPtr → FieldValue → FieldValue
unfolding setup_as points_to
setup heap p v =
    if points_to v.field_desc p.address
    then v
    else setup_as heap p.type p.size (record v { field_desc = some p })
