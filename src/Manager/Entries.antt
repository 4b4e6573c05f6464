-- ===== src/Manager/Entries.antt =====
-- What `add_tuple` and `delete_tuple` ask of the storage manager: one call for each index, in this
-- order, until the first that fails.
use zapps.Prelude.{ℕ, suc, ◌≡◌, refl, ◌∙◌, List, [], ◌∷◌, length, Option, some, none, map, subst}
use zapps.Prelude.Memory.{Bytes}
use zapps.Field.{DescPtr, FieldValue}
use zapps.Table.{IndexDesc, Stid}
use zapps.Manager.{
  IndexPtr, secondary, Pad, rep, construct_key, add_entry, add_entries, delete_entry,
  delete_entries, format_record, primary, store_record, add_with_key, add_tuple, delete_tuple,
  add_all_entries, rep_key,
}
use zapps.Manager.Calls.{World, StorageManager, continue-eq, Error, ◌>>=◌, done}
use zapps.Manager.Keys.{key_bytes, Same, Prepared, Usable}
use zapps.Manager.Runs.{
  and_then, Ran, CanStore, CanStore-Same, bind-Ran, construct_key-Ran, Same-refl, Same-trans,
  Usable-Same, AllUsable, AllUsable-Same,
}

module _ {S : Type 0} where
  unfoldable pub create_all : StorageManager S → List (Stid × Bytes × Bytes) → S → Option Error × S
  create_all sm [] s = (none, s)
  create_all sm ((i, k, v) ∷ es) s = and_then (sm.create_assoc s i k v) (create_all sm es)

  unfoldable pub destroy_all : StorageManager S → List (Stid × Bytes) → S → Option Error × S
  destroy_all sm [] s = (none, s)
  destroy_all sm ((i, k) ∷ es) s = and_then (sm.destroy_assoc s i k) (destroy_all sm es)

and_then-none : {S : Type 0} (r : Option Error × S) → r ≡ and_then r (λ s. (none, s))
and_then-none (none, s) = refl
and_then-none (some e, s) = refl

-- The key of a row in an index.
abbrev pub entry_key : List FieldValue → IndexDesc → Stid × Bytes
entry_key vs i = (i.stid, key_bytes vs i.key)

abbrev pub entry_for : List FieldValue → Bytes → IndexDesc → Stid × Bytes × Bytes
entry_for vs v i = (i.stid, key_bytes vs i.key, v)

-- The entries of a row: the record under its primary key, and the primary key under each
-- secondary key.
abbrev pub entries :
    List FieldValue → Bytes → IndexDesc → List IndexDesc → List (Stid × Bytes × Bytes)
entries vs bs p is = entry_for vs bs p ∷ map (entry_for vs (key_bytes vs p.key)) is

module _ {S : Type 0} (sm : StorageManager S) (heap : ℕ → ℕ) (ps : List DescPtr)
    (vs : List FieldValue) where
  add_entry-Ran :
      (w : World S) (p : IndexPtr) (i : IndexDesc) (v : Bytes)
      → Prepared ps vs w
      → Usable vs w p i
      → Ran ps vs w
          (add_entry sm heap v p w)
          (sm.create_assoc w.store i.stid (key_bytes vs i.key) v)
  unfolding add_entry
  add_entry-Ran w p i v ready usable =
      construct_key-Ran sm heap ps vs w p i rep _ _ ready usable (λ w1 ready1 same kept. record {
        final = w1;
        ends = rw ((Usable-Same ps vs p i same usable).at, kept) refl;
        ready = ready1;
        same = Same-refl ps vs w1;
      })

  add_entries-Ran :
      (is : List IndexDesc) (n : ℕ) (w : World S) (v : Bytes)
      → Prepared ps vs w
      → AllUsable ps vs w n is
      → Ran ps vs w
          (add_entries sm heap v (length is) n w)
          (create_all sm (map (entry_for vs v) is) w.store)
  unfolding add_entries create_all
  add_entries-Ran [] n w v ready usable = record {
    final = w;
    ends = refl;
    ready = ready;
    same = Same-refl ps vs w;
  }
  add_entries-Ran (i ∷ is) n w v ready usable =
      bind-Ran ps vs (add_entry sm heap v (secondary n)) (add_entries sm heap v (length is) (suc n))
        w _ (create_all sm (map (entry_for vs v) is))
        (add_entry-Ran w (secondary n) i v ready usable.0)
        (λ w1 ready1 same.
          add_entries-Ran is (suc n) w1 v ready1 (AllUsable-Same ps vs (suc n) is same usable.1))

  delete_entry-Ran :
      (w : World S) (p : IndexPtr) (i : IndexDesc) (pad : Pad)
      → Prepared ps vs w
      → Usable vs w p i
      → Ran ps vs w
          (delete_entry sm heap pad p w)
          (sm.destroy_assoc w.store i.stid (key_bytes vs i.key))
  unfolding delete_entry
  delete_entry-Ran w p i pad ready usable =
      construct_key-Ran sm heap ps vs w p i pad _ _ ready usable (λ w1 ready1 same kept. record {
        final = w1;
        ends = rw ((Usable-Same ps vs p i same usable).at, kept) refl;
        ready = ready1;
        same = Same-refl ps vs w1;
      })

  delete_entries-Ran :
      (is : List IndexDesc) (n : ℕ) (w : World S)
      → Prepared ps vs w
      → AllUsable ps vs w n is
      → Ran ps vs w
          (delete_entries sm heap (length is) n w)
          (destroy_all sm (map (entry_key vs) is) w.store)
  unfolding delete_entries destroy_all
  delete_entries-Ran [] n w ready usable = record {
    final = w;
    ends = refl;
    ready = ready;
    same = Same-refl ps vs w;
  }
  delete_entries-Ran (i ∷ is) n w ready usable =
      bind-Ran ps vs (delete_entry sm heap rep (secondary n))
        (delete_entries sm heap (length is) (suc n)) w _ (destroy_all sm (map (entry_key vs) is))
        (delete_entry-Ran w (secondary n) i rep ready usable.0)
        (λ w1 ready1 same.
          delete_entries-Ran is (suc n) w1 ready1 (AllUsable-Same ps vs (suc n) is same usable.1))

  -- The row can be formatted: its record is `bs`.
  pub record HasRecord (w : World S) (bs : Bytes) : Type 0 where
    pub after : World S
    pub formats : format_record sm heap w ≡ done bs after
    pub ready : Prepared ps vs after
    pub same : Same w after
    pub kept : after.store ≡ w.store

  store_record-Ran :
      (w : World S) (p : IndexDesc) (bs key : Bytes)
      → Prepared ps vs w
      → Usable vs w primary p
      → Ran ps vs w (store_record sm heap bs key w) (sm.create_assoc w.store p.stid key bs)
  unfolding store_record
  store_record-Ran w p bs key ready usable = record {
    final = w;
    ends = rw usable.at refl;
    ready = ready;
    same = Same-refl ps vs w;
  }

  add_with_key-Ran :
      (w : World S) (p : IndexDesc) (bs key : Bytes)
      → CanStore ps vs w p
      → Ran ps vs w (add_with_key sm heap bs key w) (
          and_then
            (sm.create_assoc w.store p.stid key bs)
            (create_all sm (map (entry_for vs key) w.table.indexes)))
  unfolding add_with_key add_all_entries
  add_with_key-Ran w p bs key can =
      bind-Ran ps vs (store_record sm heap bs key) (add_all_entries sm heap key) w _ _
        (store_record-Ran w p bs key can.ready can.primary_usable)
        (λ w1 ready1 same.
          subst
            (λ t.
              Ran ps vs w1 (add_all_entries sm heap key w1)
                (create_all sm (map (entry_for vs key) t.indexes) w1.store))
            same.table
            (add_entries-Ran w1.table.indexes 0 w1 key ready1
              (CanStore-Same ps vs ready1 same can).all_usable))

  -- For a row that is set up and can be formatted, and indexes of which the keys have known sizes
  -- and fields that are there and not null: `add_tuple` asks the storage manager for one entry in
  -- each index, the record under the primary key, then the primary key under each other key, and
  -- ends with the first failure, whatever the storage manager answers. The row and the table are
  -- as before.
  pub add_tuple-create_all :
      (w : World S) (p : IndexDesc) (bs : Bytes)
      → CanStore ps vs w p
      → HasRecord w bs
      → Ran ps vs w (add_tuple sm heap w) (create_all sm (entries vs bs p w.table.indexes) w.store)
  unfolding add_tuple create_all
  add_tuple-create_all w p bs can has =
      let can1 = CanStore-Same ps vs has.ready has.same can in
      let t =
        construct_key-Ran sm heap ps vs has.after primary p rep_key (add_with_key sm heap bs)
          (create_all sm (entries vs bs p w.table.indexes) w.store) has.ready can1.primary_usable
          (λ w1 ready1 same kept.
            subst
              (λ t.
                Ran ps vs w1 (add_with_key sm heap bs (key_bytes vs p.key) w1)
                  (create_all sm (entries vs bs p t.indexes) w.store))
              (same.table ∙ has.same.table)
              (subst
                (λ s.
                  Ran ps vs w1 (add_with_key sm heap bs (key_bytes vs p.key) w1)
                    (create_all sm (entries vs bs p w1.table.indexes) s))
                (kept ∙ has.kept)
                (add_with_key-Ran w1 p bs (key_bytes vs p.key)
                  (CanStore-Same ps vs ready1 same can1)))) in
      record {
        final = t.final;
        ends =
            continue-eq (λ b. construct_key sm heap primary rep_key >>= add_with_key sm heap b)
              has.formats
            ∙ t.ends;
        ready = t.ready;
        same = Same-trans ps vs has.same t.same;
      }

  -- For a row that is set up, and indexes of which the keys have known sizes and fields that are
  -- there and not null: `delete_tuple` asks the storage manager to destroy one key in each index,
  -- the primary one last, and ends with the first failure, whatever the storage manager answers.
  -- The row and the table are as before.
  pub delete_tuple-destroy_all :
      (w : World S) (p : IndexDesc)
      → CanStore ps vs w p
      → Ran ps vs w (delete_tuple sm heap w) (
          and_then
            (destroy_all sm (map (entry_key vs) w.table.indexes) w.store)
            (destroy_all sm (entry_key vs p ∷ [])))
  unfolding delete_tuple destroy_all
  delete_tuple-destroy_all w p can =
      bind-Ran ps vs (delete_entries sm heap (length w.table.indexes) 0)
        (delete_entry sm heap rep_key primary) w _ _
        (delete_entries-Ran w.table.indexes 0 w can.ready can.all_usable)
        (λ w1 ready1 same.
          subst (Ran ps vs w1 (delete_entry sm heap rep_key primary w1))
            (and_then-none (sm.destroy_assoc w1.store p.stid (key_bytes vs p.key)))
            (delete_entry-Ran w1 primary p rep_key ready1
              (Usable-Same ps vs primary p same can.primary_usable)))
