-- ===== src/Format/Copies.antt =====
-- What `copy_value` gives for a value that is set up and not null.
use zapps.Prelude.{
  ℕ, zero, suc, ◌≤◌, ◌≡◌, refl, ◌∙◌, arith, true, false, Option, none, some, [], length, Result, ok,
}
use zapps.Prelude.Memory.{Bytes, slice, read, read-ok, length-slice}
use zapps.Field.{
  SqlType, bit, smallint, int, float, long, char, fixchar, varchar, time, numeric, snumeric,
  is_variable_length, type_size, DescPtr, FieldValue,
}
use zapps.Field.Access.{copy_value, copy_value_as, fetch}
use zapps.Field.Valid.{buffer_length, Holds, IsValid}
use zapps.Field.Assign.{copy_value-eq}

-- The outcome of a copy: so many bytes.
abbrev Copies : Result Bytes → ℕ → Type 0
Copies r n = (bs : Bytes) × (r ≡ ok bs) × (length bs ≡ n)

fetch-Copies : (o : Option Bytes) (n : ℕ) → n ≤ buffer_length o → Copies (fetch o n) n
unfolding fetch
fetch-Copies none zero h = ([], refl, refl)
fetch-Copies none (suc n) h = absurd (omega arith)
fetch-Copies (some buf) n h =
    (slice buf 0 n, read-ok buf 0 n (omega arith), length-slice buf 0 n (omega arith))

read-Copies : (value : Bytes) (n : ℕ) → n ≤ length value → Copies (read value 0 n) n
read-Copies value n h =
    (slice value 0 n, read-ok value 0 n (omega arith), length-slice value 0 n (omega arith))

-- A scalar is copied whole; a string or a time as far as it is in use.
abbrev pub copied_size : SqlType → FieldValue → ℕ
copied_size time v = v.real_size
copied_size varchar v = v.real_size
copied_size fixchar v = v.real_size
copied_size numeric v = v.real_size
copied_size snumeric v = v.real_size
copied_size bit v = v.max_size
copied_size smallint v = v.max_size
copied_size int v = v.max_size
copied_size float v = v.max_size
copied_size long v = v.max_size
copied_size char v = v.max_size

copy_value_as-Copies :
    (t : SqlType) (size : ℕ) (v : FieldValue)
    → Holds t size v
    → Copies (copy_value_as t v) (copied_size t v)
unfolding copy_value_as type_size
copy_value_as-Copies bit size v h = read-Copies v.value v.max_size (omega (arith, h.sized, h.union))
copy_value_as-Copies smallint size v h =
    read-Copies v.value v.max_size (omega (arith, h.sized, h.union))
copy_value_as-Copies int size v h = read-Copies v.value v.max_size (omega (arith, h.sized, h.union))
copy_value_as-Copies float size v h =
    read-Copies v.value v.max_size (omega (arith, h.sized, h.union))
copy_value_as-Copies long size v h =
    read-Copies v.value v.max_size (omega (arith, h.sized, h.union))
copy_value_as-Copies char size v h =
    read-Copies v.value v.max_size (omega (arith, h.sized, h.union))
copy_value_as-Copies time size v h =
    fetch-Copies v.buffer v.real_size (omega (arith, h.held, h.filled))
copy_value_as-Copies varchar size v h =
    fetch-Copies v.buffer v.real_size (omega (arith, h.held, h.filled))
copy_value_as-Copies fixchar size v h =
    fetch-Copies v.buffer v.real_size (omega (arith, h.held, h.filled))
copy_value_as-Copies numeric size v h =
    fetch-Copies v.buffer v.real_size (omega (arith, h.held, h.filled))
copy_value_as-Copies snumeric size v h =
    fetch-Copies v.buffer v.real_size (omega (arith, h.held, h.filled))

pub copied_size-le :
    (t : SqlType) (size : ℕ) (v : FieldValue) → Holds t size v → copied_size t v ≤ v.max_size
unfolding type_size
copied_size-le bit size v h = omega arith
copied_size-le smallint size v h = omega arith
copied_size-le int size v h = omega arith
copied_size-le float size v h = omega arith
copied_size-le long size v h = omega arith
copied_size-le char size v h = omega arith
copied_size-le time size v h = omega arith
copied_size-le varchar size v h = omega arith
copied_size-le fixchar size v h = omega arith
copied_size-le numeric size v h = omega arith
copied_size-le snumeric size v h = omega arith

pub copied_size-var :
    (t : SqlType) (v : FieldValue) → is_variable_length t ≡ true → copied_size t v ≡ v.real_size
copied_size-var varchar v h = refl
copied_size-var bit v h = cc
copied_size-var smallint v h = cc
copied_size-var int v h = cc
copied_size-var float v h = cc
copied_size-var long v h = cc
copied_size-var char v h = cc
copied_size-var time v h = cc
copied_size-var fixchar v h = cc
copied_size-var numeric v h = cc
copied_size-var snumeric v h = cc

-- A value that is set up and not null is copied with no fault.
pub copy_value-Copies :
    (p : DescPtr) (v : FieldValue)
    → IsValid p v
    → v.null_flag ≡ false
    → (bs : Bytes) × (copy_value v ≡ ok bs) × (length bs ≡ copied_size p.type v)
copy_value-Copies p v valid shown =
    let (bs, e, l) = copy_value_as-Copies p.type p.size v valid.holds in
    (bs, copy_value-eq p v valid.described shown ∙ e, l)
