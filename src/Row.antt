-- ===== src/Row.antt =====
-- src/kits/row.h and src/kits/row.cpp: the record in main memory (`table_row_t`) and the scratchpad
-- for its disk format (`rep_row_t`).
-- A table is known to a row by its address and its field descriptions. Offsets and sizes are
-- numbers without a bound; the tables of the program stay far below 2 ^ 31.
pub mod Values
pub mod Layout
pub mod Access
pub mod Updates
use zapps.Prelude.{
  ℕ, ◌+◌, ◌*◌, ◌/◌, ◌-◌, Bool, true, false, List, [], ◌∷◌, Option, none, some, ltb, leb, ◌==◌,
  if◌then◌else◌, length, ◌&&◌, Result, ok, err, bad_access, assertion, ◌>>=◌, ◌>>◌, assert,
  assert_some, deref,
}
use zapps.Prelude.Memory.{Bytes, malloc, write}
use zapps.Field.{DescPtr, FieldValue, new_value, setup, is_variable_length, zeros, is_some}
use zapps.Field.Limits.{reset}
use zapps.Field.Access.{is_null}

-- `rep_row_t`. The pool gives buffers of `nbytes` bytes each.
pub record RepRow : Type 0 where
  pub dest : Option Bytes
  pub bufsz : ℕ
  pub nbytes : ℕ

-- memset(_dest, 0, nsz)
unfoldable pub clear_rep : RepRow → Bytes → ℕ → ℕ → Result RepRow
clear_rep r buf size nsz = do
  buf' ← write buf 0 (zeros nsz)
  ok (record r { dest = some buf'; bufsz = size })

unfoldable pub set_rep_in : (ℕ → ℕ) → RepRow → Option Bytes → ℕ → Result RepRow
unfolding clear_rep
set_rep_in heap r none nsz = clear_rep r (malloc heap r.nbytes) r.nbytes nsz
set_rep_in heap r (some buf) nsz =
    if ltb r.bufsz nsz
    then clear_rep r (malloc heap r.nbytes) r.nbytes nsz
    else clear_rep r buf r.bufsz nsz

-- A new buffer is taken where there is none or it is too small; its first `nsz` bytes are cleared.
unfoldable pub set_rep : (ℕ → ℕ) → RepRow → ℕ → Result RepRow
unfolding set_rep_in
set_rep heap r nsz = set_rep_in heap r r.dest nsz

-- The part of a table description that a row reads.
pub record TablePtr : Type 0 where
  pub address : ℕ
  pub descs : List DescPtr

pub record Row : Type 0 where
  pub ptable : Option ℕ
  pub field_cnt : ℕ
  pub is_setup : Bool
  pub values : Option (List FieldValue)
  pub fixed_offset : ℕ
  pub var_slot_offset : ℕ
  pub var_offset : ℕ
  pub null_count : ℕ

unfoldable pub empty_row : Row
empty_row = record {
  ptable = none;
  field_cnt = 0;
  is_setup = false;
  values = none;
  fixed_offset = 0;
  var_slot_offset = 0;
  var_offset = 0;
  null_count = 0;
}

abbrev pub sizeof_offset : ℕ
sizeof_offset = 8

-- `reset`: each value in turn.
reset_values : List FieldValue → Result (List FieldValue)
reset_values [] = ok []
reset_values (v ∷ vs) = do w ← reset v; ws ← reset_values vs; ok (w ∷ ws)

unfoldable pub reset_row : Row → Result Row
unfolding reset_values
reset_row r = do
  assert r.is_setup
  vs ← deref r.values
  ws ← reset_values vs
  ok (record r { values = some ws })

-- Each field is set up in an array that is newly allocated.
unfoldable pub setup_values : (ℕ → ℕ) → List DescPtr → List FieldValue
setup_values heap [] = []
setup_values heap (p ∷ ps) = setup heap p (new_value heap) ∷ setup_values heap ps

-- What the loop of `setup` counts.
unfoldable pub var_fields : List DescPtr → ℕ
var_fields [] = 0
var_fields (p ∷ ps) = (if is_variable_length p.type then 1 else 0) + var_fields ps

unfoldable pub nullable_fields : List DescPtr → ℕ
nullable_fields [] = 0
nullable_fields (p ∷ ps) = (if p.allow_null then 1 else 0) + nullable_fields ps

unfoldable pub fixed_space : List DescPtr → List FieldValue → ℕ
fixed_space [] vs = 0
fixed_space (p ∷ ps) [] = 0
fixed_space (p ∷ ps) (v ∷ vs) =
    (if is_variable_length p.type then 0 else v.max_size) + fixed_space ps vs

is_setup_for : Row → TablePtr → Bool
is_setup_for r t =
    elim r.ptable [ none ↦ false | some a ↦ a == t.address ] && (is_some r.values && r.is_setup)

-- The null flags are counted on from what the row counted before.
unfoldable pub fresh_setup : (ℕ → ℕ) → Row → TablePtr → Row
fresh_setup heap r t =
    let values = setup_values heap t.descs in
    let nulls : ℕ = r.null_count + nullable_fields t.descs in
    let fixed_offset : ℕ = if nulls == 0 then 0 else (nulls - 1) / 8 + 1 in
    let var_slot_offset : ℕ = fixed_offset + fixed_space t.descs values in
    record {
      ptable = some t.address;
      field_cnt = length t.descs;
      is_setup = true;
      values = some values;
      fixed_offset = fixed_offset;
      var_slot_offset = var_slot_offset;
      var_offset = var_slot_offset + sizeof_offset * var_fields t.descs;
      null_count = nulls;
    }

-- Returns the row, with 1 if it was reset only.
unfoldable pub setup_row : (ℕ → ℕ) → Row → TablePtr → Result (Row × ℕ)
unfolding is_setup_for fresh_setup
setup_row heap r t =
    if is_setup_for r t
    then (do r' ← reset_row r; ok (r', 1))
    else (do assert (ltb 0 (length t.descs)); ok (fresh_setup heap r t, 0))

unfoldable pub size_from : List FieldValue → Result ℕ
size_from [] = ok 0
size_from (v ∷ vs) = do
  p ← assert_some v.field_desc
  rest ← size_from vs
  ok (
      if p.allow_null && v.null_flag
      then rest
      else if is_variable_length p.type
      then v.real_size + sizeof_offset + rest
      else v.max_size + rest)

-- `size`: the space of the record in disk format.
unfoldable pub size : Row → Result ℕ
unfolding size_from
size r = do
  assert r.is_setup
  vs ← deref r.values
  total ← size_from vs
  ok (if r.null_count == 0 then total else total + (r.null_count / 8 + 1))
