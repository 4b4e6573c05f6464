-- ===== src/EnvVar/Stored.antt =====
-- A variable that is read stays in the map: `getVar` of src/kits/envvar.cpp.
use zapps.Prelude.{
  ◌≡◌, ◌∙◌, refl, ap, arith, true, false, [], ◌∷◌, Option, some, none, Bool-cases, inl, inr,
}
use zapps.Prelude.Memory.{Bytes}
use zapps.Table.{same_name}
use zapps.EnvVar.{Vars, lookup, insert, is_empty, get_var, get_found, read_into, read_conf_var}

same_name_refl : (n : Bytes) → same_name n n ≡ true
unfolding same_name
same_name_refl [] = refl
same_name_refl (x ∷ n) = ground (arith, same_name_refl n)

pub lookup-insert_same : (m : Vars) (k v : Bytes) → lookup (insert m k v) k ≡ some v
unfolding lookup insert
lookup-insert_same [] k v = rw (same_name_refl k) refl
lookup-insert_same ((j, w) ∷ m) k v = elim (Bool-cases (same_name k j)) [
  | inl same ↦ rw (same, same) refl
  | inr other ↦ rw (other, other) (lookup-insert_same m k v)
]

get_var-given :
    (conf : Bytes → Option Bytes) (m : Vars) (param default : Bytes)
    → is_empty param ≡ false
    → get_var conf m param default ≡ get_found conf (lookup m param) m param default
unfolding get_var
get_var-given conf m param default given = rw given refl

get_var-found :
    (conf : Bytes → Option Bytes) (m : Vars) (param default v : Bytes)
    → is_empty param ≡ false
    → lookup m param ≡ some v
    → get_var conf m param default ≡ (v, m)
unfolding get_found
get_var-found conf m param default v given e =
    get_var-given conf m param default given ∙ ap (λ found. get_found conf found m param default) e

read_conf_var-stored :
    (conf : Bytes → Option Bytes) (m : Vars) (param default : Bytes)
    → is_empty param ≡ false
    → is_empty default ≡ false
    → (v : Bytes) × (read_conf_var conf m param default ≡ (v, insert m param v))
unfolding read_conf_var
read_conf_var-stored conf m param default given given' =
    (read_into conf param default, rw (given, given') refl)

stored :
    (conf : Bytes → Option Bytes) (m : Vars) (param default : Bytes) (found : Option Bytes)
    → lookup m param ≡ found
    → is_empty param ≡ false
    → is_empty default ≡ false
    → lookup (get_found conf found m param default).1 param
      ≡ some (get_found conf found m param default).0
unfolding get_found
stored conf m param default (some v) e given given' = e
stored conf m param default none e given given' =
    let (v, r) = read_conf_var-stored conf m param default given given' in
    rw r (lookup-insert_same m param v)

-- For a parameter and a default that are not empty: `get_var` leaves an entry with the value that
-- it returns, and a second `get_var` of the parameter returns it again and changes nothing,
-- whatever its default and the configuration file by then.
pub get_var-get_var :
    (conf other : Bytes → Option Bytes) (m : Vars) (param default default' : Bytes)
    → is_empty param ≡ false
    → is_empty default ≡ false
    → (lookup (get_var conf m param default).1 param ≡ some (get_var conf m param default).0)
      × (get_var other (get_var conf m param default).1 param default'
          ≡ get_var conf m param default)
get_var-get_var conf other m param default default' given given' =
    let entry : lookup (get_var conf m param default).1 param
        ≡ some (get_var conf m param default).0 =
      rw (get_var-given conf m param default given)
        (stored conf m param default (lookup m param) refl given given') in
    (entry, get_var-found other _ param default' _ given entry)
