-- ===== src/Manager/Probes.antt =====
-- What the probes leave of the row and of the database.
use zapps.Prelude.{ℕ, ◌≡◌, refl, ◌∙◌, some, deref}
use zapps.Prelude.Memory.{Bytes, read}
use zapps.Table.{IndexDesc}
use zapps.Manager.{
  secondary, rep, rep_key, find_into, probe_secondary, index_probe, get_index, construct_key, Row,
}
use zapps.Manager.Calls.{World, StorageManager, done, lift, gets, modify}
use zapps.Manager.Keeping.{
  Keeps, IsBlind, keeps-bind, keeps-gets, keeps-lift, keeps-modify, keeps-construct_key,
  keeps-find_into,
}
use zapps.Row.{set_rep}
use zapps.Key.{key_size}

module _ {S X : Type 0} (f : World S → X) (blind : IsBlind f) (sm : StorageManager S)
    (heap : ℕ → ℕ) where
  keeps-probe_secondary :
      (i : IndexDesc) (key : Bytes) (len : ℕ) → Keeps f (probe_secondary sm heap i key len)
  unfolding probe_secondary
  keeps-probe_secondary i key len = keeps-bind f (gets (λ w. w)) _ (keeps-gets f _) (λ w.
      keeps-bind f (lift (deref w.table.primary_idx)) _ (keeps-lift f _) (λ p.
        keeps-bind f (lift (key_size w.table p)) _ (keeps-lift f _) (λ t.
          keeps-bind f (lift (set_rep heap w.rep_key t.1)) _ (keeps-lift f _) (λ r.
            keeps-bind f (modify _) _
              (keeps-modify f
                (λ u. record u { table = record u.table { primary_idx = some t.0 }; rep_key = r })
                (λ u.
                  blind.second (record u { table = record u.table { primary_idx = some t.0 } }) r
                  ∙ blind.table u (record u.table { primary_idx = some t.0 })))
              (λ z.
                keeps-bind f (find_into sm heap i.stid key rep_key len) _
                  (keeps-find_into f blind sm heap i.stid key rep_key len)
                  (λ n. keeps-bind f (gets (λ w. w)) _ (keeps-gets f _) (λ w1.
                    keeps-bind f (lift (deref w1.rep_key.dest)) _ (keeps-lift f _) (λ buf.
                      keeps-bind f (lift (read buf 0 n)) _ (keeps-lift f _) (λ reference.
                        keeps-bind f (find_into sm heap t.0.stid reference rep n) _
                          (keeps-find_into f blind sm heap t.0.stid reference rep n)
                          (λ m. keeps-gets f (λ u. tt)))))))))))

module _ {S : Type 0} (sm : StorageManager S) (heap : ℕ → ℕ) where
  abbrev row_of : World S → Row
  row_of w = w.row

  row_of-IsBlind : IsBlind row_of
  row_of-IsBlind = record { table = λ w t. refl; first = λ w r. refl; second = λ w r. refl }

  -- A probe of a secondary index that returns with the record found leaves the row as it was,
  -- whatever the storage manager answers.
  pub index_probe-secondary_row :
      (len n : ℕ) (w w' : World S)
      → index_probe sm heap len (secondary n) w ≡ done tt w'
      → w'.row ≡ w.row
  unfolding index_probe
  index_probe-secondary_row len n w w' e =
      keeps-bind row_of (construct_key sm heap (secondary n) rep_key) _
        (keeps-construct_key row_of row_of-IsBlind sm heap (secondary n) rep_key)
        (λ key. keeps-bind row_of (gets (λ w. w)) _ (keeps-gets row_of _) (λ w1.
          keeps-bind row_of (lift (get_index w1.table (secondary n))) _ (keeps-lift row_of _)
            (λ i. keeps-probe_secondary row_of row_of-IsBlind sm heap i key len)))
        w tt w' e
