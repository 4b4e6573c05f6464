-- ===== src/Manager/Growth.antt =====
-- The records that the calls of the manager leave as they were, however the calls end:
-- `index_probe`, `add_tuple` and `update_tuple` of src/kits/table_man.cpp.
use zapps.Prelude.{
  ℕ, zero, suc, ◌≡◌, refl, subst, [], length, Option, some, none, Result, ok, err, deref,
  assert_some,
}
use zapps.Prelude.Memory.{Bytes, read, write}
use zapps.Row.{RepRow, set_rep}
use zapps.Table.{IndexDesc, Stid, maxsize}
use zapps.Key.{format_key, key_size}
use zapps.Format.{format, load}
use zapps.Manager.{
  IndexPtr, primary, secondary, Pad, rep, rep_key, pad_of, with_pad, construct_key, get_index,
  set_index, find_into, probe_primary, probe_secondary, index_probe, add_entry, add_entries,
  store_record, format_record, add_tuple, update_tuple, add_with_key, add_all_entries,
}
use zapps.Manager.Calls.{
  World, Action, Outcome, StorageManager, Found, found_value, found_nothing, find_failed, done,
  failed, stopped, pure, lift, gets, modify, found, continue, stored, finish, Error, ◌>>=◌, ◌>>◌,
}
use zapps.Manager.Contents.{Place}

-- What a caller of the storage manager relies on: it never removes or changes what a place holds
-- when an entry is created, whether or not that succeeds, nor when no byte is overwritten.
pub record Additive {S : Type 0} (sm : StorageManager S) (lookup : S → Place → Option Bytes)
    : Type 0 where
  pub create :
      (s : S) (i : Stid) (k v : Bytes) (b : Place) (u : Bytes)
      → lookup s b ≡ some u
      → lookup (sm.create_assoc s i k v).1 b ≡ some u
  pub overwrite :
      (s : S) (i : Stid) (k : Bytes) (b : Place) (u : Bytes)
      → lookup s b ≡ some u
      → lookup (sm.overwrite_assoc s i k [] 0).1 b ≡ some u

-- Every record of the first database stands unchanged in the second.
abbrev pub Grown : {S : Type 0} → (S → Place → Option Bytes) → S → S → Type 0
Grown lookup s s' = (b : Place) (u : Bytes) → lookup s b ≡ some u → lookup s' b ≡ some u

module _ {S : Type 0} (lookup : S → Place → Option Bytes) where
  abbrev pub Kept : {A : Type 0} → S → Outcome S A → Type 0
  Kept s (stopped fault) = Unit {0}
  Kept s (failed e w) = Grown lookup s w.store
  Kept s (done a w) = Grown lookup s w.store

  abbrev pub Stays : {A : Type 0} → Action S A → Type 0
  Stays m = (w : World S) → Kept w.store (m w)

  Kept-from : {A : Type 0} (s s' : S) (o : Outcome S A) → Grown lookup s s' → Kept s' o → Kept s o
  Kept-from s s' (stopped fault) first rest = tt
  Kept-from s s' (failed e w) first rest = λ b u h. rest b u (first b u h)
  Kept-from s s' (done a w) first rest = λ b u h. rest b u (first b u h)

  pub continue-Kept :
      {A B : Type 0} (s : S) (o : Outcome S A) (rest : A → Action S B)
      → Kept s o
      → ((a : A) → Stays (rest a))
      → Kept s (continue o rest)
  continue-Kept s (stopped fault) rest first next = tt
  continue-Kept s (failed e w) rest first next = first
  continue-Kept s (done a w) rest first next = Kept-from s w.store (rest a w) first (next a w)

  pub bind-Stays :
      {A B : Type 0} (m : Action S A) (rest : A → Action S B)
      → Stays m
      → ((a : A) → Stays (rest a))
      → Stays (m >>= rest)
  bind-Stays m rest first next w = continue-Kept w.store (m w) rest (first w) next

  pub done-Stays : {A : Type 0} (a : A) → Stays (λ w. done a w)
  done-Stays a w b u h = h

  pub lift-Stays : {A : Type 0} (r : Result A) → Stays (lift r)
  lift-Stays (ok a) w = λ b u h. h
  lift-Stays (err fault) w = tt

  found-Stays : (r : Found) → Stays (found r)
  found-Stays (found_value bs) w = λ b u h. h
  found-Stays found_nothing w = λ b u h. h
  found-Stays (find_failed e) w = λ b u h. h

  -- The steps that only look at the world, that may stop, and that change it but not the database.
  pub look-Stays :
      {B : Type 0} (rest : World S → Action S B)
      → ((w : World S) → Stays (rest w))
      → Stays (gets (λ w. w) >>= rest)
  look-Stays rest next w = next w w

  pub try-Stays :
      {A B : Type 0} (r : Result A) (rest : A → Action S B)
      → ((a : A) → Stays (rest a))
      → Stays (lift r >>= rest)
  try-Stays r rest next = bind-Stays (lift r) rest (lift-Stays r) next

  pub change-Stays :
      {B : Type 0} (g : World S → World S) (rest : Action S B)
      → ((w : World S) → (g w).store ≡ w.store)
      → Stays rest
      → Stays (modify g >> rest)
  change-Stays g rest same next w = subst (λ s. Kept s (rest (g w))) (same w) (next (g w))

  finish-Kept :
      (s : S) (r : Option Error × S) (w : World S) → Grown lookup s r.1 → Kept s (finish r w)
  finish-Kept s (none, s') w grown = grown
  finish-Kept s (some e, s') w grown = grown

  stored-Stays : (f : S → Option Error × S) → ((s : S) → Grown lookup s (f s).1) → Stays (stored f)
  stored-Stays f grown w = finish-Kept w.store (f w.store) w (grown w.store)

  with_pad-store : (pad : Pad) (r : RepRow) (w : World S) → (with_pad pad r w).store ≡ w.store
  unfolding with_pad
  with_pad-store rep r w = refl
  with_pad-store rep_key r w = refl

  module _ (sm : StorageManager S) (heap : ℕ → ℕ) where
    construct_key-Stays : (p : IndexPtr) (pad : Pad) → Stays (construct_key sm heap p pad)
    unfolding construct_key
    construct_key-Stays p pad = look-Stays _ (λ w. try-Stays (get_index w.table p) _ (λ i.
        try-Stays (format_key heap w.table i w.row (pad_of pad w)) _ (λ t.
          change-Stays (λ u. with_pad pad t.1 (record u { table = set_index u.table p t.0 })) _
            (λ u. with_pad-store pad t.1 _)
            (try-Stays (assert_some t.1.dest) _ (λ buf. lift-Stays (read buf 0 t.2))))))

    find_into-Stays :
        (i : Stid) (key : Bytes) (pad : Pad) (len : ℕ) → Stays (find_into sm heap i key pad len)
    unfolding find_into
    find_into-Stays i key pad len = look-Stays _ (λ w.
        bind-Stays (found (sm.find_assoc w.store i key len)) _ (found-Stays _) (λ bs.
          try-Stays (deref (pad_of pad w).dest) _ (λ buf. try-Stays (write buf 0 bs) _ (λ buf1.
            change-Stays (with_pad pad (record (pad_of pad w) { dest = some buf1 }))
              (pure (length bs)) (with_pad-store pad _) (done-Stays (length bs))))))

    probe_primary-Stays :
        (i : IndexDesc) (key : Bytes) (len : ℕ) → Stays (probe_primary sm heap i key len)
    unfolding probe_primary
    probe_primary-Stays i key len = look-Stays _ (λ w. try-Stays (maxsize w.table) _ (λ t.
        try-Stays (set_rep heap w.rep t.1) _ (λ r.
          change-Stays (λ u. record u { table = t.0; rep = r }) _ (λ u. refl)
            (bind-Stays (find_into sm heap i.stid key rep len) _
              (find_into-Stays i.stid key rep len)
              (λ n. look-Stays _ (λ w1.
                try-Stays (deref w1.rep.dest) _
                  (λ buf. try-Stays (load w1.row buf (some i.key)) _ (λ row w b u h. h))))))))

    probe_secondary-Stays :
        (i : IndexDesc) (key : Bytes) (len : ℕ) → Stays (probe_secondary sm heap i key len)
    unfolding probe_secondary
    probe_secondary-Stays i key len = look-Stays _ (λ w.
        try-Stays (deref w.table.primary_idx) _ (λ p. try-Stays (key_size w.table p) _ (λ t.
          try-Stays (set_rep heap w.rep_key t.1) _ (λ r.
            change-Stays
              (λ u. record u { table = record u.table { primary_idx = some t.0 }; rep_key = r }) _
              (λ u. refl)
              (bind-Stays (find_into sm heap i.stid key rep_key len) _
                (find_into-Stays i.stid key rep_key len)
                (λ n. look-Stays _ (λ w1. try-Stays (deref w1.rep_key.dest) _ (λ buf.
                  try-Stays (read buf 0 n) _ (λ reference.
                    bind-Stays (find_into sm heap t.0.stid reference rep n) _
                      (find_into-Stays t.0.stid reference rep n) (λ m w b u h. h))))))))))

    pub index_probe-Stays : (len : ℕ) (p : IndexPtr) → Stays (index_probe sm heap len p)
    unfolding index_probe
    index_probe-Stays len primary =
        bind-Stays (construct_key sm heap primary rep_key) _ (construct_key-Stays primary rep_key)
          (λ key.
            look-Stays _
              (λ w. try-Stays (get_index w.table primary) _ (λ i. probe_primary-Stays i key len)))
    index_probe-Stays len (secondary n) =
        bind-Stays (construct_key sm heap (secondary n) rep_key) _
          (construct_key-Stays (secondary n) rep_key)
          (λ key. look-Stays _ (λ w.
            try-Stays (get_index w.table (secondary n)) _ (λ i. probe_secondary-Stays i key len)))

    module _ (additive : Additive sm lookup) where
      add_entry-Stays : (key : Bytes) (p : IndexPtr) → Stays (add_entry sm heap key p)
      unfolding add_entry
      add_entry-Stays key p =
          bind-Stays (construct_key sm heap p rep) _ (construct_key-Stays p rep) (λ k.
            look-Stays _ (λ w. try-Stays (get_index w.table p) _ (λ i.
              stored-Stays (λ s. sm.create_assoc s i.stid k key)
                (λ s. additive.create s i.stid k key))))

      add_entries-Stays : (key : Bytes) (count n : ℕ) → Stays (add_entries sm heap key count n)
      unfolding add_entries
      add_entries-Stays key zero n = λ w b u h. h
      add_entries-Stays key (suc count) n =
          bind-Stays (add_entry sm heap key (secondary n)) _ (add_entry-Stays key (secondary n))
            (λ z. add_entries-Stays key count (suc n))

      store_record-Stays : (bs key : Bytes) → Stays (store_record sm heap bs key)
      unfolding store_record
      store_record-Stays bs key = look-Stays _ (λ w. try-Stays (get_index w.table primary) _ (λ i.
          stored-Stays (λ s. sm.create_assoc s i.stid key bs)
            (λ s. additive.create s i.stid key bs)))

      format_record-Stays : Stays (format_record sm heap)
      unfolding format_record
      format_record-Stays = look-Stays _ (λ w. try-Stays (deref w.table.primary_idx) _ (λ i.
          try-Stays (format heap w.rep w.row (some i.key)) _ (λ t.
            change-Stays (λ u. record u { rep = t.0 }) _ (λ u. refl)
              (try-Stays (assert_some t.0.dest) _ (λ buf. lift-Stays (read buf 0 t.1))))))

      pub add_tuple-Stays : Stays (add_tuple sm heap)
      unfolding add_tuple add_with_key add_all_entries
      add_tuple-Stays = bind-Stays (format_record sm heap) _ format_record-Stays (λ bs.
          bind-Stays (construct_key sm heap primary rep_key) _ (construct_key-Stays primary rep_key)
            (λ key.
              bind-Stays (store_record sm heap bs key) _ (store_record-Stays bs key)
                (λ z. look-Stays _ (λ w. add_entries-Stays key (length w.table.indexes) 0))))

      pub update_tuple-Stays : Stays (update_tuple sm heap)
      unfolding update_tuple
      update_tuple-Stays =
          bind-Stays (construct_key sm heap primary rep_key) _ (construct_key-Stays primary rep_key)
            (λ key. look-Stays _ (λ w. try-Stays (get_index w.table primary) _ (λ i.
              stored-Stays (λ s. sm.overwrite_assoc s i.stid key [] 0)
                (λ s. additive.overwrite s i.stid key))))
