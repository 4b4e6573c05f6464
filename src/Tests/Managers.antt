-- ===== src/Tests/Managers.antt =====
-- A table with a secondary index, over the storage manager in main memory.
use zapps.Prelude.{
  ℕ, ◌+◌, ◌≡◌, refl, arith, true, false, [], ◌∷◌, some, none, List, ◌++◌, ap, ◌==◌, if◌then◌else◌,
}
use zapps.Prelude.Memory.{Bytes, put, write, read, slice, malloc}
use zapps.Field.{DescPtr, zeros}
use zapps.Row.{RepRow, set_rep, set_rep_in, clear_rep}
use zapps.Table.{TableDesc, IndexDesc, Stid, index_maxkeysize}
use zapps.Manager.{add_tuple, delete_tuple, secondary, index_probe, get_index, format_record}
use zapps.Manager.Calls.{
  World, Error, done, failed, Found, found_value, found_nothing, StorageManager, Outcome, stopped,
}
use zapps.Manager.Keys.{KnownKey, Prepared}
use zapps.Manager.Runs.{CanStore, Ran, and_then}
use zapps.Manager.Entries.{
  HasRecord, create_all, destroy_all, entries, add_tuple-create_all, entry_key,
  delete_tuple-destroy_all,
}
use zapps.Manager.Memory.{Contents, memory, lookup, memory-Keeps, lookup-cons_same}
use zapps.Tests.Tables.{number, name, values, values-AllValid, row}
use zapps.Key.Places.{key_space}
use zapps.Format.{
  format, tuple_size, var_space, skips, is_key, start, format_fields, format_field, format_known,
  count_null,
}
use zapps.Field.Access.{to_bytes, copy_value}
use zapps.Manager.Contents.{Apart, AllStored, Place, delete_tuple-add_tuple, add_tuple-taken}
use zapps.Manager.Probes.{index_probe-secondary_row}
use zapps.Key.{format_key}

abbrev heap : ℕ → ℕ
heap n = n + 7

abbrev descs : List DescPtr
descs = number ∷ name ∷ []

abbrev first : IndexDesc
first = record {
  stid = some 2;
  name = b't' ∷ [];
  key = 0 ∷ [];
  unique = true;
  primary = true;
  nolock = false;
  latchless = false;
  rmapholder = false;
  maxkeysize = 4;
  keydesc = [];
}

abbrev second : IndexDesc
second = record first { stid = some 3; key = 1 ∷ []; primary = false; maxkeysize = 10 }

abbrev table : TableDesc
table = record {
  name = b't' ∷ [];
  desc = number.desc ∷ name.desc ∷ [];
  pd = 1;
  primary_idx = some first;
  indexes = second ∷ [];
  known_maxsize = 0;
}

abbrev pad : RepRow
pad = record { dest = none; bufsz = 0; nbytes = 32 }

abbrev world : Contents → World Contents
world s = record { store = s; table = table; row = row; rep = pad; rep_key = pad }

first-KnownKey : KnownKey values first
unfolding key_space
first-KnownKey = record { fields = ((_, refl, refl), tt, tt); size = refl; nonempty = omega arith }

second-KnownKey : KnownKey values second
unfolding key_space
second-KnownKey = record { fields = ((_, refl, refl), tt, tt); size = refl; nonempty = omega arith }

world-Prepared : (s : Contents) → Prepared descs values (world s)
world-Prepared s = record {
  values = refl;
  valid = values-AllValid;
  rep_holds = refl;
  key_holds = refl;
}

world-CanStore : (s : Contents) → CanStore descs values (world s) first
unfolding get_index
world-CanStore s = record {
  ready = world-Prepared s;
  primary_usable = record {
    at = refl;
    known = first-KnownKey;
    rep_room = omega arith;
    key_room = omega arith;
  };
  all_usable = (
    record { at = refl; known = second-KnownKey; rep_room = omega arith; key_room = omega arith },
    tt,
  );
}

abbrev bytes : Bytes
bytes = 0 ∷ 42 ∷ 0 ∷ 0 ∷ 0 ∷ 2 ∷ 0 ∷ 0 ∷ 0 ∷ 0 ∷ 0 ∷ 0 ∷ 0 ∷ 1 ∷ 2 ∷ []

world-HasRecord : (s : Contents) → HasRecord memory heap descs values (world s) bytes
unfolding format_record format tuple_size var_space skips is_key start copy_value format_fields
    format_field format_known count_null set_rep set_rep_in clear_rep put write read slice to_bytes
world-HasRecord s = record {
  after = record (world s) {
    rep = record { dest = some (bytes ++ malloc heap 17); bufsz = 32; nbytes = 32 };
  };
  formats = refl;
  ready = record { values = refl; valid = values-AllValid; rep_holds = refl; key_holds = refl };
  same = record { table = refl; row = refl; rep_size = refl; key_size = refl };
  kept = refl;
}

abbrev both : List (Stid × Bytes × Bytes)
both = entries values bytes first (second ∷ [])

add_tuple-create_all_example :
    Ran descs values (world []) (add_tuple memory heap (world [])) (create_all memory both [])
add_tuple-create_all_example =
    add_tuple-create_all memory heap descs values (world []) first bytes (world-CanStore [])
      (world-HasRecord [])

delete_tuple-destroy_all_example :
    Ran descs values (world []) (delete_tuple memory heap (world [])) (
      and_then
        (destroy_all memory (entry_key values second ∷ []) [])
        (destroy_all memory (entry_key values first ∷ [])))
delete_tuple-destroy_all_example =
    delete_tuple-destroy_all memory heap descs values (world []) first (world-CanStore [])

abbrev stid_of : Stid → ℕ
stid_of none = 0
stid_of (some n) = n

both-Apart : Apart both
both-Apart = ((λ e. omega (arith, ap (λ a. stid_of a.0) e), tt), (tt, tt))

delete_tuple-add_tuple_example :
    (w1 : World Contents) × (w2 : World Contents) × (add_tuple memory heap (world []) ≡ done tt w1)
    × AllStored memory lookup memory-Keeps w1.store both
    × (delete_tuple memory heap w1 ≡ done tt w2)
    × ((b : Place) → lookup w2.store b ≡ lookup [] b)
delete_tuple-add_tuple_example =
    delete_tuple-add_tuple memory lookup memory-Keeps heap descs values (world []) first bytes
      (world-CanStore []) (world-HasRecord []) (refl, (refl, tt)) both-Apart

abbrev full : Contents
full = (entry_key values first, 7 ∷ []) ∷ []

full-lookup : lookup full (entry_key values first) ≡ some (7 ∷ [])
full-lookup = lookup-cons_same (entry_key values first) (7 ∷ []) []

add_tuple-taken_example :
    (e : Error) × (w1 : World Contents) × (add_tuple memory heap (world full) ≡ failed e w1)
    × (w1.store ≡ full)
add_tuple-taken_example =
    add_tuple-taken memory lookup memory-Keeps heap descs values (world full) first bytes
      (world-CanStore full) (world-HasRecord full) {v = 7 ∷ []} full-lookup

-- The primary key under the key of the second index, and the record under the primary key.
answer : Stid → Found
answer none = found_nothing
answer (some n) = if n == 3 then found_value (42 ∷ 0 ∷ 0 ∷ 0 ∷ []) else found_value bytes

abbrev answering : StorageManager Contents
answering = record memory { find_assoc = λ s i k len. answer i }

abbrev with_record : World Contents
with_record = record (world []) { rep = record { dest = some (zeros 32); bufsz = 32; nbytes = 32 } }

abbrev final_of : World Contents → Outcome Contents (Unit {0}) → World Contents
final_of w (done a w1) = w1
final_of w (failed e w1) = w1
final_of w (stopped fault) = w

abbrev probed : World Contents
unfolding index_probe
probed = final_of with_record (index_probe answering heap 0 (secondary 0) with_record)

probed-done : index_probe answering heap 0 (secondary 0) with_record ≡ done tt probed
unfolding index_probe answer format_key index_maxkeysize set_rep write copy_value read
probed-done = refl

index_probe-secondary_row_example : probed.row ≡ with_record.row
index_probe-secondary_row_example =
    index_probe-secondary_row answering heap 0 0 with_record probed probed-done
