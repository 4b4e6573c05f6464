-- ===== src/Field/Valid.antt =====
-- What holds of every value between calls, and that no call on such a value leaves its memory.
use zapps.Prelude.{ℕ, ◌≤◌, ◌≡◌, refl, arith, false, Option, none, some, length, length-replicate}
use zapps.Prelude.Memory.{Bytes, length-malloc}
use zapps.Field.{
  SqlType, bit, smallint, int, float, long, char, fixchar, varchar, time, numeric, snumeric,
  type_size, DescPtr, FieldValue, setup, setup_as, points_to, setup_string, setup_scalar,
}

abbrev pub buffer_length : Option Bytes → ℕ
buffer_length none = 0
buffer_length (some buf) = length buf

-- How much of the buffer is in use.
abbrev pub Filled : SqlType → FieldValue → Type 0
Filled time v = (v.real_size ≡ 8) × (v.data_size ≡ 8)
Filled varchar v = (v.real_size ≤ v.data_size) × (v.real_size ≤ v.max_size)
Filled fixchar v = (v.max_size ≤ v.data_size) × (v.real_size ≤ v.max_size)
Filled numeric v = (v.max_size ≤ v.data_size) × (v.real_size ≤ v.max_size)
Filled snumeric v = (v.max_size ≤ v.data_size) × (v.real_size ≤ v.max_size)
Filled bit v = Unit {0}
Filled smallint v = Unit {0}
Filled int v = Unit {0}
Filled float v = Unit {0}
Filled long v = Unit {0}
Filled char v = Unit {0}

-- A value of type `t`, strings of at most `size` bytes.
pub record Holds (t : SqlType) (size : ℕ) (v : FieldValue) : Type 0 where
  pub union : length v.value ≡ 8
  pub held : buffer_length v.buffer ≡ v.data_size
  pub sized : v.max_size ≡ type_size t size
  pub filled : Filled t v

pub record IsValid (p : DescPtr) (v : FieldValue) : Type 0 where
  pub described : v.field_desc ≡ some p
  pub holds : Holds p.type p.size v

setup_string-Holds_max :
    (sz : ℕ) (v : FieldValue)
    → length v.value ≡ 8
    → buffer_length v.buffer ≡ v.data_size
    → let w = setup_string sz v in
      (length w.value ≡ 8)
      × (buffer_length w.buffer ≡ w.data_size)
      × (w.max_size ≡ sz)
      × (w.max_size ≤ w.data_size)
      × (w.real_size ≤ w.max_size)
unfolding setup_string
setup_string-Holds_max sz v u h =
    ground (arith, length-replicate {A = ℕ} sz 0, length-replicate {A = ℕ} v.data_size 0)

setup_as-field_desc :
    (heap : ℕ → ℕ) (t : SqlType) (size : ℕ) (v : FieldValue)
    → (setup_as heap t size v).field_desc ≡ v.field_desc
unfolding setup_as setup_scalar setup_string
setup_as-field_desc heap fixchar size v = ground arith
setup_as-field_desc heap numeric size v = ground arith
setup_as-field_desc heap snumeric size v = ground arith
setup_as-field_desc heap _ size v = refl

setup_as-Holds :
    (heap : ℕ → ℕ) (t : SqlType) (size : ℕ) (v : FieldValue)
    → length v.value ≡ 8
    → buffer_length v.buffer ≡ v.data_size
    → Holds t size (setup_as heap t size v)
unfolding setup_as type_size setup_scalar
setup_as-Holds heap bit size v u h = omega arith
setup_as-Holds heap smallint size v u h = omega arith
setup_as-Holds heap char size v u h = omega arith
setup_as-Holds heap int size v u h = omega arith
setup_as-Holds heap float size v u h = omega arith
setup_as-Holds heap long size v u h = omega arith
setup_as-Holds heap time size v u h = omega (arith, length-malloc heap 8)
setup_as-Holds heap varchar size v u h = omega arith
setup_as-Holds heap fixchar size v u h = omega (arith, setup_string-Holds_max size v u h)
setup_as-Holds heap numeric size v u h = omega (arith, setup_string-Holds_max size v u h)
setup_as-Holds heap snumeric size v u h = omega (arith, setup_string-Holds_max size v u h)

-- `setup` for a description makes any value valid that holds its memory, and is not set up for
-- the same description already.
pub setup-IsValid :
    (heap : ℕ → ℕ) (p : DescPtr) (v : FieldValue)
    → length v.value ≡ 8
    → buffer_length v.buffer ≡ v.data_size
    → points_to v.field_desc p.address ≡ false
    → IsValid p (setup heap p v)
unfolding setup
setup-IsValid heap p v u h fresh = rw fresh (record {
  described = setup_as-field_desc heap p.type p.size (record v { field_desc = some p });
  holds = setup_as-Holds heap p.type p.size (record v { field_desc = some p }) u h;
})
