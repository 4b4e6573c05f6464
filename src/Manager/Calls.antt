-- ===== src/Manager/Calls.antt =====
-- A call of the table manager: what it reads and writes, and how it ends. `W_DO` is the bind.
use zapps.Prelude.{◌≡◌, ap, ℕ, Option, none, some, Fault, Result, ok, err}
use zapps.Prelude.Memory.{Bytes}
use zapps.Row.{Row, RepRow}
use zapps.Table.{TableDesc, Stid}

-- The error codes that the manager returns; the storage manager has codes of its own.
pub data Error : Type 0 where
  tuple_not_found not_implemented : Error
  storage : ℕ → Error

-- What `find_assoc` leaves.
pub data Found : Type 0 where
  found_value : Bytes → Found
  found_nothing : Found
  find_failed : Error → Found

-- The functions of the storage manager that are called. `find_assoc` takes the space for the
-- value, and finds it or not.
pub record StorageManager (S : Type 0) : Type 0 where
  pub create_assoc : S → Stid → Bytes → Bytes → Option Error × S
  pub destroy_assoc : S → Stid → Bytes → Option Error × S
  pub overwrite_assoc : S → Stid → Bytes → Bytes → ℕ → Option Error × S
  pub find_assoc : S → Stid → Bytes → ℕ → Found

-- The database, the manager's table, and the row with its scratchpads.
pub record World (S : Type 0) : Type 0 where
  pub store : S
  pub table : TableDesc
  pub row : Row
  pub rep : RepRow
  pub rep_key : RepRow

pub data Outcome (S : Type 0) (A : Type 0) : Type 0 where
  stopped : Fault → Outcome S A
  failed : Error → World S → Outcome S A
  done : A → World S → Outcome S A

abbrev pub Action : Type 0 → Type 0 → Type 0
Action S A = World S → Outcome S A

module _ {S : Type 0} where
  abbrev pub pure : {A : Type 0} → A → Action S A
  pure a w = done a w

  abbrev pub raise : {A : Type 0} → Error → Action S A
  raise e w = failed e w

  abbrev pub gets : {A : Type 0} → (World S → A) → Action S A
  gets f w = done (f w) w

  abbrev pub modify : (World S → World S) → Action S (Unit {0})
  modify f w = done tt (f w)

  -- A function that can only stop.
  abbrev pub lift : {A : Type 0} → Result A → Action S A
  lift (ok a) w = done a w
  lift (err fault) w = stopped fault

  abbrev pub continue : {A B : Type 0} → Outcome S A → (A → Action S B) → Outcome S B
  continue (stopped fault) rest = stopped fault
  continue (failed e w) rest = failed e w
  continue (done a w) rest = rest a w

  infixl 5 ◌>>=◌ ◌>>◌
  abbrev pub ◌>>=◌ : {A B : Type 0} → Action S A → (A → Action S B) → Action S B
  ◌>>=◌ m rest w = continue (m w) rest

  abbrev pub ◌>>◌ : {A B : Type 0} → Action S A → Action S B → Action S B
  m >> k = m >>= λ _. k

  -- The end of a call that has changed the database.
  abbrev pub finish : Option Error × S → World S → Outcome S (Unit {0})
  finish (none, s) w = done tt (record w { store = s })
  finish (some e, s) w = failed e (record w { store = s })

  -- A call that changes the database, under W_DO.
  abbrev pub stored : (S → Option Error × S) → Action S (Unit {0})
  stored f w = finish (f w.store) w

  -- What was found, or RC(se_TUPLE_NOT_FOUND).
  abbrev pub found : Found → Action S Bytes
  found (found_value bs) w = done bs w
  found found_nothing w = failed tuple_not_found w
  found (find_failed e) w = failed e w

  pub continue-eq :
      {A B : Type 0} (rest : A → Action S B) {o o' : Outcome S A}
      → o ≡ o'
      → continue o rest ≡ continue o' rest
  continue-eq rest e = ap (λ x. continue x rest) e
