-- ===== src/Manager/Keys.antt =====
-- What `construct_key` builds: the fields of the key one after the other, filled up with zeros,
-- whatever the scratchpad held before.
use zapps.Prelude.{
  ℕ, zero, suc, ◌+◌, ◌-◌, ◌≤◌, ◌<◌, ◌≡◌, refl, sym, ◌∙◌, ap, arith, List, [], ◌∷◌, ◌++◌, length,
  get_elem?, set, take, drop, Option, some, none, ok, err, Result, lt→ltb, deref-eq-ok, ok-inj,
}
use zapps.Prelude.Memory.{Bytes, slice, read-ok}
use zapps.Field.{DescPtr, FieldValue, zeros}
use zapps.Field.Valid.{buffer_length}
use zapps.Field.Access.{copy_value}
use zapps.Row.{RepRow, Row}
use zapps.Row.Values.{AllValid}
use zapps.Format.Inverse.{HoldsRep, set_rep-Ready}
use zapps.Table.{TableDesc, IndexDesc, index_maxkeysize}
use zapps.Key.{format_key, key_size}
use zapps.Key.Places.{KeyOf, key_space, Placed, format_key_fields-Formatted}
use zapps.Manager.{
  IndexPtr, primary, secondary, get_index, set_index, Pad, rep, rep_key, pad_of, with_pad,
  construct_key, deref,
}
use zapps.Manager.Calls.{World, StorageManager, done}

abbrev filled_as : FieldValue → Result Bytes → Bytes
filled_as v (ok bs) = bs ++ zeros (v.max_size - length bs)
filled_as v (err fault) = []

abbrev filled : Option FieldValue → Bytes
filled none = []
filled (some v) = filled_as v (copy_value v)

-- The key of a row in an index.
unfoldable pub key_bytes : List FieldValue → List ℕ → Bytes
key_bytes vs [] = []
key_bytes vs (k ∷ ks) = filled (get_elem? vs k) ++ key_bytes vs ks

suc_add : (a b : ℕ) → suc a + b ≡ suc (a + b)
suc_add a b = omega arith

take-append : (a b : ℕ) (xs : Bytes) → take (a + b) xs ≡ take a xs ++ take b (drop a xs)
take-append zero b xs = ap (λ n. take n xs) (omega arith)
take-append (suc a) zero [] = rw (suc_add a zero) refl
take-append (suc a) (suc b) [] = rw (suc_add a (suc b)) refl
take-append (suc a) b (x ∷ xs) = rw (suc_add a b) (ap (◌∷◌ x) (take-append a b xs))

drop-drop : (a b : ℕ) (xs : Bytes) → drop b (drop a xs) ≡ drop (a + b) xs
drop-drop zero b xs = ap (λ n. drop n xs) (omega arith)
drop-drop (suc a) zero [] = rw (suc_add a zero) refl
drop-drop (suc a) (suc b) [] = rw (suc_add a (suc b)) refl
drop-drop (suc a) b (x ∷ xs) = rw (suc_add a b) (drop-drop a b xs)

slice-append :
    (buf : Bytes) (o a b : ℕ) → slice buf o (a + b) ≡ slice buf o a ++ slice buf (o + a) b
unfolding slice
slice-append buf o a b =
    take-append a b (drop o buf) ∙ ap (λ xs. take a (drop o buf) ++ take b xs) (drop-drop o a buf)

slice-Placed :
    (vs : List FieldValue) (out : Bytes) (ks : List ℕ) (offset : ℕ)
    → Placed vs out ks offset
    → slice out offset (key_space vs ks) ≡ key_bytes vs ks
unfolding key_space key_bytes slice
slice-Placed vs out [] offset placed = refl
slice-Placed vs out (k ∷ ks) offset placed =
    let (v, bs, there, copied, room, shows, more) = placed in
    rw (there, copied)
      (slice-append out offset v.max_size (key_space vs ks)
        ∙ ap (λ xs. xs ++ slice out (offset + v.max_size) (key_space vs ks)) shows
        ∙ ap (◌++◌ (bs ++ zeros (v.max_size - length bs)))
            (slice-Placed vs out ks (offset + v.max_size) more))

held : (r : RepRow) {buf : Bytes} → r.dest ≡ some buf → HoldsRep r → length buf ≡ r.bufsz
held r there holds = ap buffer_length (sym there) ∙ holds

-- The key of an index whose size is known, of fields that are there, different and not null.
pub record KnownKey (vs : List FieldValue) (i : IndexDesc) : Type 0 where
  pub fields : KeyOf vs i.key
  pub size : i.maxkeysize ≡ key_space vs i.key
  pub nonempty : 0 < i.maxkeysize

module _ (heap : ℕ → ℕ) (t : TableDesc) (i : IndexDesc) (r : Row) (pad : RepRow) (ps : List DescPtr)
    (vs : List FieldValue) (values : r.values ≡ some vs) (valid : AllValid ps vs)
    (known : KnownKey vs i) (holds : HoldsRep pad) (room : i.maxkeysize ≤ pad.nbytes) where
  index_maxkeysize-known : index_maxkeysize t i ≡ ok (i, i.maxkeysize)
  unfolding index_maxkeysize
  index_maxkeysize-known = ground (arith, known.nonempty)

  format_key-key_bytes :
      (pad' : RepRow) × (out : Bytes) × (format_key heap t i r pad ≡ ok (i, pad', i.maxkeysize))
      × (pad'.dest ≡ some out)
      × (i.maxkeysize ≤ length out)
      × (slice out 0 i.maxkeysize ≡ key_bytes vs i.key)
      × HoldsRep pad'
      × (pad'.nbytes ≡ pad.nbytes)
  unfolding format_key key_size
  format_key-key_bytes =
      let (pad1, buf, made, ready) = set_rep-Ready heap pad i.maxkeysize holds room in
      let f =
        format_key_fields-Formatted ps vs i.key 0 buf valid known.fields
          (omega (arith, known.size, ready.room))
          (λ o n from to. ready.clean o n from (omega (arith, to, known.size))) in
      (
        record pad1 { dest = some f.out },
        f.out,
        rw
            (
              index_maxkeysize-known,
              lt→ltb 0 i.maxkeysize known.nonempty,
              made,
              values,
              ready.dest,
              f.formatted,
            )
            refl,
        refl,
        omega (arith, f.kept, ready.room),
        ap (slice f.out 0) known.size ∙ slice-Placed vs f.out i.key 0 f.placed,
        f.kept ∙ held pad1 ready.dest ready.holds,
        ready.nbytes,
      )

set_same :
    (is : List IndexDesc) (n : ℕ) {i : IndexDesc} → deref (get_elem? is n) ≡ ok i → set is n i ≡ is
set_same [] n e = refl
set_same (j ∷ is) zero e = ap (λ x. x ∷ is) (sym (ok-inj e))
set_same (j ∷ is) (suc n) e = ap (◌∷◌ j) (set_same is n e)

set_index-same :
    (t : TableDesc) (p : IndexPtr) {i : IndexDesc} → get_index t p ≡ ok i → set_index t p i ≡ t
unfolding get_index set_index
set_index-same t primary e = ap (λ o. record t { primary_idx = o }) (sym (deref-eq-ok e))
set_index-same t (secondary n) e = ap (λ is. record t { indexes = is }) (set_same t.indexes n e)

module _ {S : Type 0} where
  -- Only the contents of the scratchpads and of the database may be different.
  pub record Same (w w' : World S) : Type 0 where
    pub table : w'.table ≡ w.table
    pub row : w'.row ≡ w.row
    pub rep_size : w'.rep.nbytes ≡ w.rep.nbytes
    pub key_size : w'.rep_key.nbytes ≡ w.rep_key.nbytes

module _ {S : Type 0} (ps : List DescPtr) (vs : List FieldValue) where
  -- The row holds the values `vs`, and the scratchpads know their buffers.
  pub record Prepared (w : World S) : Type 0 where
    pub values : w.row.values ≡ some vs
    pub valid : AllValid ps vs
    pub rep_holds : HoldsRep w.rep
    pub key_holds : HoldsRep w.rep_key

module _ {S : Type 0} (vs : List FieldValue) where
  -- An index of which the key is known, and for which the scratchpads have room.
  pub record Usable (w : World S) (p : IndexPtr) (i : IndexDesc) : Type 0 where
    pub at : get_index w.table p ≡ ok i
    pub known : KnownKey vs i
    pub rep_room : i.maxkeysize ≤ w.rep.nbytes
    pub key_room : i.maxkeysize ≤ w.rep_key.nbytes

module _ {S : Type 0} (sm : StorageManager S) (heap : ℕ → ℕ) (ps : List DescPtr)
    (vs : List FieldValue) where
  pub construct_key-Same :
      (w : World S) (p : IndexPtr) (i : IndexDesc) (pad : Pad)
      → Prepared ps vs w
      → Usable vs w p i
      → (w' : World S) × (construct_key sm heap p pad w ≡ done (key_bytes vs i.key) w')
        × Prepared ps vs w'
        × Same w w'
        × (w'.store ≡ w.store)
  unfolding construct_key pad_of with_pad
  construct_key-Same w p i rep ready usable =
      let (pad', out, formats, dest, room, key, holds, size) =
        format_key-key_bytes heap w.table i w.row w.rep ps vs ready.values ready.valid usable.known
          ready.rep_holds usable.rep_room in
      (
        record w { rep = pad' },
        rw
            (
              usable.at,
              formats,
              dest,
              read-ok out 0 i.maxkeysize (omega (arith, room)),
              key,
              set_index-same w.table p usable.at,
            )
            refl,
        record {
          values = ready.values;
          valid = ready.valid;
          rep_holds = holds;
          key_holds = ready.key_holds;
        },
        record { table = refl; row = refl; rep_size = size; key_size = refl },
        refl,
      )
  construct_key-Same w p i rep_key ready usable =
      let (pad', out, formats, dest, room, key, holds, size) =
        format_key-key_bytes heap w.table i w.row w.rep_key ps vs ready.values ready.valid
          usable.known ready.key_holds usable.key_room in
      (
        record w { rep_key = pad' },
        rw
            (
              usable.at,
              formats,
              dest,
              read-ok out 0 i.maxkeysize (omega (arith, room)),
              key,
              set_index-same w.table p usable.at,
            )
            refl,
        record {
          values = ready.values;
          valid = ready.valid;
          rep_holds = ready.rep_holds;
          key_holds = holds;
        },
        record { table = refl; row = refl; rep_size = refl; key_size = size },
        refl,
      )
