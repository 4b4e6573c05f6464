-- ===== src/Field/Stores.antt =====
-- `set_value` on a valid value: what it leaves, and what is copied out again.
use zapps.Prelude.{
  ℕ, zero, suc, ◌≤◌, ◌≡◌, refl, arith, false, Option, none, some, [], ◌∷◌, length, length-replicate,
  leb, if◌then◌else◌, min, ok,
}
use zapps.Prelude.Memory.{
  Bytes, put, slice, read, length-put, slice-put_same, length-slice, read-ok, write-ok,
}
use zapps.Field.{
  SqlType, bit, smallint, int, float, long, char, fixchar, varchar, time, numeric, snumeric,
  DescPtr, FieldValue, zeros,
}
use zapps.Field.Access.{
  set_raw_scalar, set_raw_string, set_var_string_value, store, fetch, typed, copy_value_as,
  alloc_space,
}
use zapps.Field.Valid.{buffer_length, Holds}

-- What a call that stores `bytes` leaves: a valid value, not null, from which they are copied out.
pub record Stored (t : SqlType) (size : ℕ) (v : FieldValue) (bytes : Bytes) (w : FieldValue)
    : Type 0 where
  pub holds : Holds t size w
  pub shown : w.null_flag ≡ false
  pub copied : copy_value_as t w ≡ ok bytes
  pub described : w.field_desc ≡ v.field_desc
  pub same_max : w.max_size ≡ v.max_size

-- The union with a scalar copied in.
unfoldable pub with_scalar : FieldValue → Bytes → FieldValue
with_scalar v src = record v { null_flag = false; value = put v.value 0 (slice src 0 v.max_size) }

module _ (v : FieldValue) (src : Bytes) (fits : v.max_size ≤ length src)
    (room : v.max_size ≤ length v.value) where
  pub set_raw_scalar-with_scalar : set_raw_scalar v src ≡ ok (with_scalar v src)
  unfolding set_raw_scalar with_scalar
  set_raw_scalar-with_scalar = ground (
    arith,
    read-ok src 0 v.max_size,
    length-slice src 0 v.max_size,
    write-ok v.value 0 (slice src 0 v.max_size),
  )

  pub read-with_scalar : read (with_scalar v src).value 0 v.max_size ≡ ok (slice src 0 v.max_size)
  unfolding with_scalar
  read-with_scalar = ground (
    arith,
    length-slice src 0 v.max_size,
    length-put v.value 0 (slice src 0 v.max_size),
    read-ok (put v.value 0 (slice src 0 v.max_size)) 0 v.max_size,
    slice-put_same v.value 0 (slice src 0 v.max_size),
  )

  pub length-with_scalar : length (with_scalar v src).value ≡ length v.value
  unfolding with_scalar
  length-with_scalar = length-put v.value 0 (slice src 0 v.max_size)

-- The buffer with `bs` copied to its start; there is none where nothing was ever stored.
unfoldable pub with_data : Option Bytes → Bytes → Option Bytes
with_data none bs = none
with_data (some buf) bs = some (put buf 0 bs)

pub store-with_data :
    (o : Option Bytes) (bs : Bytes) → length bs ≤ buffer_length o → store o bs ≡ ok (with_data o bs)
unfolding store with_data
store-with_data none [] h = refl
store-with_data none (b ∷ bs) h = absurd (omega arith)
store-with_data (some buf) bs h = ground (arith, write-ok buf 0 bs)

pub length-with_data :
    (o : Option Bytes) (bs : Bytes) → buffer_length (with_data o bs) ≡ buffer_length o
unfolding with_data
length-with_data none bs = refl
length-with_data (some buf) bs = length-put buf 0 bs

pub fetch-with_data :
    (o : Option Bytes) (bs : Bytes) (n : ℕ)
    → length bs ≡ n
    → n ≤ buffer_length o
    → fetch (with_data o bs) n ≡ ok bs
unfolding fetch with_data
fetch-with_data none [] zero e h = refl
fetch-with_data none bs (suc n) e h = absurd (omega arith)
fetch-with_data none (b ∷ bs) zero e h = absurd (omega arith)
fetch-with_data (some buf) bs n e h = rw (← e) (
    ground
      (arith, length-put buf 0 bs, read-ok (put buf 0 bs) 0 (length bs), slice-put_same buf 0 bs))

-- A string of fixed length, or a time, with its first `n` bytes from `src`.
unfoldable pub with_string : FieldValue → Bytes → ℕ → FieldValue
with_string v src n = record v {
  real_size = n;
  null_flag = false;
  buffer = with_data v.buffer (slice src 0 n);
}

module _ (v : FieldValue) (src : Bytes) (len : ℕ) (given : len ≤ length src)
    (held : buffer_length v.buffer ≡ v.data_size) (room : v.max_size ≤ v.data_size) where
  pub set_raw_string-with_string :
      set_raw_string v src len ≡ ok (with_string v src (min len v.max_size))
  unfolding set_raw_string with_string
  set_raw_string-with_string =
      let n : ℕ = min len v.max_size in
      ground
        (arith, read-ok src 0 n, length-slice src 0 n, store-with_data v.buffer (slice src 0 n))

-- A scalar or a time takes all its bytes from the source; a string may be shorter.
abbrev pub Enough : SqlType → FieldValue → ℕ → Type 0
Enough varchar v len = Unit {0}
Enough fixchar v len = Unit {0}
Enough numeric v len = Unit {0}
Enough snumeric v len = Unit {0}
Enough time v len = v.max_size ≤ len
Enough bit v len = v.max_size ≤ len
Enough smallint v len = v.max_size ≤ len
Enough int v len = v.max_size ≤ len
Enough float v len = v.max_size ≤ len
Enough long v len = v.max_size ≤ len
Enough char v len = v.max_size ≤ len

-- The value before a string of `n` bytes is copied in: its buffer grows if it is too small.
unfoldable pub grown : FieldValue → ℕ → FieldValue
grown v n = if leb n v.data_size then v else record v { buffer = some (zeros n); data_size = n }

module _ (v : FieldValue) (n : ℕ) (held : buffer_length v.buffer ≡ v.data_size) where
  pub grown_lem :
      (buffer_length (grown v n).buffer ≡ (grown v n).data_size)
      × (n ≤ (grown v n).data_size)
      × ((grown v n).value ≡ v.value)
      × ((grown v n).field_desc ≡ v.field_desc)
      × ((grown v n).max_size ≡ v.max_size)
  unfolding grown
  grown_lem = ground (arith, length-replicate {A = ℕ} n 0)

module _ (v : FieldValue) (src : Bytes) (len : ℕ) (p : DescPtr) (given : len ≤ length src)
    (held : buffer_length v.buffer ≡ v.data_size) (described : v.field_desc ≡ some p)
    (kind : p.type ≡ varchar) where
  unfoldable pub var_string : FieldValue
  var_string = let n : ℕ = min len v.max_size in with_string (grown v n) src n

  alloc_space-grown :
      alloc_space (record v { real_size = min len v.max_size }) (min len v.max_size)
      ≡ ok (grown (record v { real_size = min len v.max_size }) (min len v.max_size))
  unfolding alloc_space grown typed
  alloc_space-grown = ground arith

  pub set_var_string-var_string : set_var_string_value v src len ≡ ok var_string
  unfolding set_var_string_value var_string with_string grown typed
  set_var_string-var_string =
      let n : ℕ = min len v.max_size in
      ground (
        arith,
        alloc_space-grown,
        read-ok src 0 n,
        length-slice src 0 n,
        length-replicate {A = ℕ} n 0,
        store-with_data v.buffer (slice src 0 n),
        store-with_data (some (zeros n)) (slice src 0 n),
      )
