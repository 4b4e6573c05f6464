-- ===== src/Manager/Runs.antt =====
-- Calls of the table manager that end as the storage manager's calls do: the keys are built, and
-- nothing else can fail.
use zapps.Prelude.{ℕ, suc, ◌≡◌, refl, ◌∙◌, ap, arith, List, [], ◌∷◌, Option, some, none, subst, sym}
use zapps.Prelude.Memory.{Bytes}
use zapps.Field.{DescPtr, FieldValue}
use zapps.Table.{IndexDesc}
use zapps.Manager.{IndexPtr, secondary, get_index, Pad, construct_key, primary}
use zapps.Manager.Calls.{
  World, StorageManager, Action, Outcome, continue-eq, Error, finish, ◌>>=◌, ◌>>◌,
}
use zapps.Manager.Keys.{key_bytes, Same, Prepared, Usable, construct_key-Same}

module _ {S : Type 0} where
  -- The next call runs only if the call before has not failed.
  abbrev pub and_then : Option Error × S → (S → Option Error × S) → Option Error × S
  and_then (none, s) next = next s
  and_then (some e, s) next = (some e, s)

module _ {S : Type 0} (ps : List DescPtr) (vs : List FieldValue) where
  -- The call ends the way the storage manager's calls end.
  pub record Ran (w : World S) (out : Outcome S (Unit {0})) (r : Option Error × S) : Type 0 where
    pub final : World S
    pub ends : out ≡ finish r final
    pub ready : Prepared ps vs final
    pub same : Same w final

  pub Same-refl : (w : World S) → Same w w
  Same-refl w = record { table = refl; row = refl; rep_size = refl; key_size = refl }

  pub Same-trans : {a b c : World S} → Same a b → Same b c → Same a c
  Same-trans x y = record {
    table = y.table ∙ x.table;
    row = y.row ∙ x.row;
    rep_size = y.rep_size ∙ x.rep_size;
    key_size = y.key_size ∙ x.key_size;
  }

  pub Usable-Same :
      {a b : World S} (p : IndexPtr) (i : IndexDesc) → Same a b → Usable vs a p i → Usable vs b p i
  Usable-Same p i same u = record {
    at = ap (λ t. get_index t p) same.table ∙ u.at;
    known = u.known;
    rep_room = omega (arith, same.rep_size, u.rep_room);
    key_room = omega (arith, same.key_size, u.key_room);
  }

  -- The indexes from number `n` on are usable.
  abbrev pub AllUsable : World S → ℕ → List IndexDesc → Type 0
  AllUsable w n [] = Unit {0}
  AllUsable w n (i ∷ is) = Usable vs w (secondary n) i × AllUsable w (suc n) is

  pub AllUsable-Same :
      {a b : World S} (n : ℕ) (is : List IndexDesc) → Same a b → AllUsable a n is → AllUsable b n is
  AllUsable-Same n [] same u = tt
  AllUsable-Same n (i ∷ is) same u =
      (Usable-Same (secondary n) i same u.0, AllUsable-Same (suc n) is same u.1)

  pub Prepared-store :
      (w : World S) (s : S) → Prepared ps vs w → Prepared ps vs (record w { store = s })
  Prepared-store w s p = record {
    values = p.values;
    valid = p.valid;
    rep_holds = p.rep_holds;
    key_holds = p.key_holds;
  }

  pub Same-store :
      {w : World S} (w' : World S) (s : S) → Same w w' → Same w (record w' { store = s })
  Same-store w' s e = record {
    table = e.table;
    row = e.row;
    rep_size = e.rep_size;
    key_size = e.key_size;
  }

  pub bind-Ran :
      (m rest : Action S (Unit {0})) (w : World S) (r : Option Error × S)
      (next : S → Option Error × S)
      → Ran w (m w) r
      → ((w1 : World S) → Prepared ps vs w1 → Same w w1 → Ran w1 (rest w1) (next w1.store))
      → Ran w ((m >> rest) w) (and_then r next)
  bind-Ran m rest w (none, s) next first second =
      let same : Same w (record first.final { store = s }) = Same-store first.final s first.same in
      let t =
        second (record first.final { store = s }) (Prepared-store first.final s first.ready) same in
      record {
        final = t.final;
        ends = continue-eq (λ a. rest) first.ends ∙ t.ends;
        ready = t.ready;
        same = Same-trans same t.same;
      }
  bind-Ran m rest w (some e, s) next first second = record {
    final = first.final;
    ends = continue-eq (λ a. rest) first.ends;
    ready = first.ready;
    same = first.same;
  }

  -- The row is set up, and the primary index and all other indexes are usable.
  pub record CanStore (w : World S) (p : IndexDesc) : Type 0 where
    pub ready : Prepared ps vs w
    pub primary_usable : Usable vs w primary p
    pub all_usable : AllUsable w 0 w.table.indexes

  pub CanStore-Same :
      {a b : World S} {p : IndexDesc} → Prepared ps vs b → Same a b → CanStore a p → CanStore b p
  CanStore-Same {a = a} {b = b} {p = p} ready same c = record {
    ready = ready;
    primary_usable = Usable-Same primary p same c.primary_usable;
    all_usable =
        subst (λ t. AllUsable b 0 t.indexes) (sym same.table)
          (AllUsable-Same 0 a.table.indexes same c.all_usable);
  }

module _ {S : Type 0} (sm : StorageManager S) (heap : ℕ → ℕ) (ps : List DescPtr)
    (vs : List FieldValue) where
  -- A key is built, and the rest of the call goes on with it.
  pub construct_key-Ran :
      (w : World S) (p : IndexPtr) (i : IndexDesc) (pad : Pad) (rest : Bytes → Action S (Unit {0}))
      (r : Option Error × S)
      → Prepared ps vs w
      → Usable vs w p i
      → ((w1 : World S)
          → Prepared ps vs w1
          → Same w w1
          → (w1.store ≡ w.store)
          → Ran ps vs w1 (rest (key_bytes vs i.key) w1) r)
      → Ran ps vs w ((construct_key sm heap p pad >>= rest) w) r
  construct_key-Ran w p i pad rest r ready usable more =
      let (w1, built, ready1, same, kept) =
        construct_key-Same sm heap ps vs w p i pad ready usable in
      let t = more w1 ready1 same kept in
      record {
        final = t.final;
        ends = continue-eq rest built ∙ t.ends;
        ready = t.ready;
        same = Same-trans ps vs same t.same;
      }
