-- ===== src/EnvVar.antt =====
-- Environment variables: src/kits/envvar.h and src/kits/envvar.cpp.
-- Strings are lists of characters, and the map is an association list. The configuration file is
-- read by a parser copied from another project: `conf` gives what it holds under a key. Printing a
-- number into a string, and reading it back, are parameters as well.
pub mod Requests
pub mod Stored
use zapps.Prelude.{
  ℕ, zero, suc, ◌+◌, Bool, true, false, List, [], ◌∷◌, ◌++◌, Option, none, some, if◌then◌else◌,
  length, ◌==◌, ◌&&◌, ◌||◌, not, map,
}
use zapps.Prelude.Memory.{Bytes}
use zapps.Prelude.Int.{ℤ, pos}
use zapps.Table.{same_name}

abbrev pub Vars : Type 0
Vars = List (Bytes × Bytes)

unfoldable pub lookup : Vars → Bytes → Option Bytes
unfolding same_name
lookup [] k = none
lookup ((j, v) ∷ m) k = if same_name k j then some v else lookup m k

-- `_evm[k] = v`
unfoldable pub insert : Vars → Bytes → Bytes → Vars
unfolding same_name
insert [] k v = (k, v) ∷ []
insert ((j, w) ∷ m) k v = if same_name k j then (j, v) ∷ m else (j, w) ∷ insert m k v

abbrev pub is_empty : Bytes → Bool
is_empty [] = true
is_empty (c ∷ cs) = false

-- `find` and `substr`: what stands before the first `c`, and behind it.
unfoldable pub cut : ℕ → Bytes → Bytes × Option Bytes
cut c [] = ([], none)
cut c (x ∷ xs) =
    let (before, behind) = cut c xs in if x == c then ([], some xs) else (x ∷ before, behind)

-- The pieces between the separators.
unfoldable pub split : ℕ → Bytes → Bytes × List Bytes
split c [] = ([], [])
split c (x ∷ xs) =
    let (piece, pieces) = split c xs in if x == c then ([], piece ∷ pieces) else (x ∷ piece, pieces)

unfoldable pub set_var : Vars → Bytes → Bytes → ℕ × Vars
unfolding insert
set_var m param value =
    if not (is_empty param) && not (is_empty value)
    then (length (insert m param value), insert m param value)
    else (0, m)

unfoldable pub store_req : Vars → Bytes → Option Bytes → ℕ × Vars
unfolding insert
store_req m param none = (1, m)
store_req m param (some value) = if is_empty value then (2, m) else (0, insert m param value)

-- Returns a code: 0, 1 without the separator, 2 without a value.
unfoldable pub parse_one_set_req : Vars → Bytes → ℕ × Vars
unfolding cut store_req
parse_one_set_req m req = let (param, value) = cut b'=' req in store_req m param value

unfoldable pub parse_all : Vars → List Bytes → ℕ × Vars
unfolding parse_one_set_req
parse_all m [] = (0, m)
parse_all m (req ∷ reqs) =
    let rest = parse_all (parse_one_set_req m req).1 reqs in (rest.0 + 1, rest.1)

-- What stands before the first space is the command.
unfoldable pub parse_set_req : Vars → Bytes → ℕ × Vars
unfolding split parse_all
parse_set_req m req = parse_all m (split b' ' req).1

abbrev pub db_config : Bytes
db_config = b'd' ∷ b'b' ∷ b'-' ∷ b'c' ∷ b'o' ∷ b'n' ∷ b'f' ∷ b'i' ∷ b'g' ∷ []

abbrev pub invalid : Bytes
invalid = b'i' ∷ b'n' ∷ b'v' ∷ b'a' ∷ b'l' ∷ b'i' ∷ b'd' ∷ []

abbrev system : Bytes
system = b's' ∷ b'y' ∷ b's' ∷ b't' ∷ b'e' ∷ b'm' ∷ []

abbrev design : Bytes
design = b'd' ∷ b'e' ∷ b's' ∷ b'i' ∷ b'g' ∷ b'n' ∷ []

module _ (conf : Bytes → Option Bytes) where
  unfoldable pub read_into : Bytes → Bytes → Bytes
  read_into key default = elim (conf key) [ some value ↦ value | none ↦ default ]

  unfoldable pub read_conf_var : Vars → Bytes → Bytes → Bytes × Vars
  unfolding read_into insert
  read_conf_var m param default =
      if is_empty param || is_empty default
      then ([], m)
      else (read_into param default, insert m param (read_into param default))

  refresh_from : Vars → Vars → Vars
  unfolding read_conf_var
  refresh_from [] m = m
  refresh_from ((k, v) ∷ rest) m = refresh_from rest (read_conf_var m k v).1

  unfoldable pub refresh_vars : Vars → ℕ × Vars
  unfolding refresh_from
  refresh_vars m = (0, refresh_from m m)

  unfoldable pub get_found : Option Bytes → Vars → Bytes → Bytes → Bytes × Vars
  unfolding read_conf_var
  get_found (some value) m param default = (value, m)
  get_found none m param default = read_conf_var m param default

  unfoldable pub get_var : Vars → Bytes → Bytes → Bytes × Vars
  unfolding lookup get_found
  get_var m param default =
      if is_empty param then ([], m) else get_found (lookup m param) m param default

  -- A variable of the chosen configuration: `config` is the variable `db-config`.
  get_config : Vars → Bytes × Vars
  unfolding get_var
  get_config m = get_var m db_config invalid

  unfoldable pub get_sys_var : Vars → Bytes → Bytes × Vars
  unfolding get_config get_var
  get_sys_var m param =
      let (config, m1) = get_config m in get_var m1 (config ++ (b'-' ∷ param)) invalid

  unfoldable pub get_sys_name : Vars → Bytes × Vars
  unfolding get_sys_var
  get_sys_name m = get_sys_var m system

  unfoldable pub get_sys_design : Vars → Bytes × Vars
  unfolding get_sys_var
  get_sys_design m = get_sys_var m design

  unfoldable pub set_sys_name : Vars → Bytes → ℕ × Vars
  unfolding get_config set_var
  set_sys_name m value =
      let (config, m1) = get_config m in set_var m1 (config ++ (b'-' ∷ system)) value

  unfoldable pub set_sys_design : Vars → Bytes → ℕ × Vars
  unfolding get_config set_var
  set_sys_design m value =
      let (config, m1) = get_config m in set_var m1 (config ++ (b'-' ∷ design)) value

  module _ (to_string : ℤ → Bytes) (atoi : Bytes → ℤ) where
    unfoldable pub set_var_int : Vars → Bytes → ℤ → ℕ × Vars
    unfolding set_var
    set_var_int m param value = set_var m param (to_string value)

    unfoldable pub get_var_int : Vars → Bytes → ℤ → ℤ × Vars
    unfolding get_var
    get_var_int m param default =
        let (value, m1) = get_var m param (to_string default) in (atoi value, m1)

    unfoldable pub get_sys_var_int : Vars → Bytes → ℤ × Vars
    unfolding get_config get_var_int
    get_sys_var_int m param =
        let (config, m1) = get_config m in get_var_int m1 (config ++ (b'-' ∷ param)) (pos 0)

unfoldable pub set_configuration : Vars → Bytes → ℕ × Vars
unfolding set_var
set_configuration m config = set_var m db_config config
