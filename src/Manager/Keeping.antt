-- ===== src/Manager/Keeping.antt =====
-- What a call of the manager keeps of the world, if it returns.
use zapps.Prelude.{ℕ, ◌≡◌, refl, sym, ◌∙◌, ap, some, Result, ok, err, deref, assert_some, length}
use zapps.Prelude.Memory.{Bytes, read, write}
use zapps.Row.{RepRow}
use zapps.Table.{TableDesc, Stid}
use zapps.Manager.{
  IndexPtr, Pad, rep, rep_key, pad_of, with_pad, construct_key, find_into, get_index, set_index,
}
use zapps.Manager.Calls.{
  World, Action, Outcome, StorageManager, Found, found_value, found_nothing, find_failed, done,
  failed, stopped, lift, gets, modify, found, continue, ◌>>=◌,
}
use zapps.Key.{format_key}

module _ {S : Type 0} where
  pub continue-eq-done :
      {A B : Type 0} (o : Outcome S A) (rest : A → Action S B) {b : B} {w' : World S}
      → continue o rest ≡ done b w'
      → (a : A) × (w1 : World S) × (o ≡ done a w1) × (rest a w1 ≡ done b w')
  continue-eq-done (stopped fault) rest e = cc
  continue-eq-done (failed x w) rest e = cc
  continue-eq-done (done a w) rest e = (a, w, refl, e)

  pub done-world :
      {A X : Type 0} (f : World S → X) {a b : A} {w w' : World S}
      → done a w ≡ done b w'
      → f w' ≡ f w
  done-world f {w = w} e =
      sym (ap (λ o. elim o [ done x u ↦ f u | failed x u ↦ f u | stopped g ↦ f w ]) e)

module _ {S X : Type 0} (f : World S → X) where
  abbrev pub Keeps : {A : Type 0} → Action S A → Type 0
  Keeps {A} m = (w : World S) (a : A) (w' : World S) → m w ≡ done a w' → f w' ≡ f w

  -- It does not look at the table, nor at the scratchpads.
  pub record IsBlind : Type 0 where
    pub table : (w : World S) (t : TableDesc) → f (record w { table = t }) ≡ f w
    pub first : (w : World S) (r : RepRow) → f (record w { rep = r }) ≡ f w
    pub second : (w : World S) (r : RepRow) → f (record w { rep_key = r }) ≡ f w

module _ {S X : Type 0} (f : World S → X) where
  pub keeps-bind :
      {A B : Type 0} (m : Action S A) (rest : A → Action S B)
      → Keeps f m
      → ((a : A) → Keeps f (rest a))
      → Keeps f (m >>= rest)
  keeps-bind m rest first second w b w' e =
      let (a, w1, e1, e2) = continue-eq-done (m w) rest e in second a w1 b w' e2 ∙ first w a w1 e1

  pub keeps-gets : {A : Type 0} (g : World S → A) → Keeps f (gets g)
  keeps-gets g w a w' e = done-world f e

  pub keeps-lift : {A : Type 0} (r : Result A) → Keeps f (lift r)
  keeps-lift (ok r) w a w' e = done-world f e
  keeps-lift (err fault) w a w' e = cc

  pub keeps-found : (r : Found) → Keeps f (found r)
  keeps-found (found_value bs) w a w' e = done-world f e
  keeps-found found_nothing w a w' e = cc
  keeps-found (find_failed x) w a w' e = cc

  pub keeps-modify : (g : World S → World S) → ((w : World S) → f (g w) ≡ f w) → Keeps f (modify g)
  keeps-modify g same w a w' e = done-world f e ∙ same w

module _ {S X : Type 0} (f : World S → X) (blind : IsBlind f) where
  blind-pad : (pad : Pad) (r : RepRow) (w : World S) → f (with_pad pad r w) ≡ f w
  unfolding with_pad
  blind-pad rep r w = blind.first w r
  blind-pad rep_key r w = blind.second w r

  module _ (sm : StorageManager S) (heap : ℕ → ℕ) where
    pub keeps-construct_key : (p : IndexPtr) (pad : Pad) → Keeps f (construct_key sm heap p pad)
    unfolding construct_key
    keeps-construct_key p pad = keeps-bind f (gets (λ w. w)) _ (keeps-gets f _) (λ w.
        keeps-bind f (lift (get_index w.table p)) _ (keeps-lift f _) (λ i.
          keeps-bind f (lift (format_key heap w.table i w.row (pad_of pad w))) _ (keeps-lift f _)
            (λ t.
              keeps-bind f (modify _) _
                (keeps-modify f
                  (λ u. with_pad pad t.1 (record u { table = set_index u.table p t.0 }))
                  (λ u. blind-pad pad t.1 _ ∙ blind.table u _))
                (λ z.
                  keeps-bind f (lift (assert_some t.1.dest)) _ (keeps-lift f _)
                    (λ buf. keeps-lift f (read buf 0 t.2))))))

    pub keeps-find_into :
        (i : Stid) (key : Bytes) (pad : Pad) (len : ℕ) → Keeps f (find_into sm heap i key pad len)
    unfolding find_into
    keeps-find_into i key pad len = keeps-bind f (gets (λ w. w)) _ (keeps-gets f _) (λ w.
        keeps-bind f (found (sm.find_assoc w.store i key len)) _ (keeps-found f _) (λ bs.
          keeps-bind f (lift (deref (pad_of pad w).dest)) _ (keeps-lift f _) (λ buf.
            keeps-bind f (lift (write buf 0 bs)) _ (keeps-lift f _) (λ buf1.
              keeps-bind f (modify _) _
                (keeps-modify f (with_pad pad (record (pad_of pad w) { dest = some buf1 }))
                  (blind-pad pad _))
                (λ z. keeps-gets f (λ u. length bs))))))
