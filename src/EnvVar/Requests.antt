-- ===== src/EnvVar/Requests.antt =====
-- SET requests are parsed back from what they are printed as, and stored.
use mathlib.Core.List.{append-nil}
use zapps.Prelude.{
  ℕ, ◌≡◌, ◌≢◌, refl, ◌∙◌, ap, arith, true, false, List, [], ◌∷◌, ◌++◌, Option, some, length, map,
  ◌==◌,
}
use zapps.Prelude.Memory.{Bytes}
use zapps.EnvVar.Stored.{lookup-insert_same}
use zapps.EnvVar.{
  Vars, lookup, insert, is_empty, cut, split, store_req, parse_one_set_req, parse_all,
  parse_set_req, get_var, get_found,
}

-- The character does not occur.
abbrev pub Free : ℕ → Bytes → Type 0
Free c [] = Unit {0}
Free c (x ∷ xs) = (x ≢ c) × Free c xs

abbrev pub Assignment : Type 0
Assignment = Bytes × Bytes

abbrev clause : Assignment → Bytes
clause (p, v) = p ++ (b'=' ∷ v)

-- A space before each clause.
abbrev pub print : List Assignment → Bytes
print [] = []
print (a ∷ assignments) = b' ' ∷ (clause a ++ print assignments)

-- The parameter and the value can be told apart, and from the other clauses.
pub record IsClause (a : Assignment) : Type 0 where
  pub no_equals : Free b'=' a.0
  pub param_no_space : Free b' ' a.0
  pub value_no_space : Free b' ' a.1
  pub value_given : is_empty a.1 ≡ false

abbrev pub AllClauses : List Assignment → Type 0
AllClauses [] = Unit {0}
AllClauses (a ∷ assignments) = IsClause a × AllClauses assignments

abbrev pub insert_all : Vars → List Assignment → Vars
insert_all m [] = m
insert_all m (a ∷ assignments) = insert_all (insert m a.0 a.1) assignments

other-eq : (x c : ℕ) → x ≢ c → (x == c) ≡ false
other-eq x c h = ground arith

same-eq : (c : ℕ) → (c == c) ≡ true
same-eq c = ground arith

cut-Free : (c : ℕ) (xs ys : Bytes) → Free c xs → cut c (xs ++ (c ∷ ys)) ≡ (xs, some ys)
unfolding cut
cut-Free c [] ys free = rw (same-eq c) refl
cut-Free c (x ∷ xs) ys free = rw (cut-Free c xs ys free.1, other-eq x c free.0) refl

split-Free : (c : ℕ) (xs : Bytes) → Free c xs → split c xs ≡ (xs, [])
unfolding split
split-Free c [] free = refl
split-Free c (x ∷ xs) free = rw (split-Free c xs free.1, other-eq x c free.0) refl

split-join :
    (c : ℕ) (xs ys : Bytes)
    → Free c xs
    → split c (xs ++ (c ∷ ys)) ≡ (xs, (split c ys).0 ∷ (split c ys).1)
unfolding split
split-join c [] ys free = rw (same-eq c) refl
split-join c (x ∷ xs) ys free = rw (split-join c xs ys free.1, other-eq x c free.0) refl

append-Free : (c : ℕ) (xs ys : Bytes) → Free c xs → Free c ys → Free c (xs ++ ys)
append-Free c [] ys f g = g
append-Free c (x ∷ xs) ys f g = (f.0, append-Free c xs ys f.1 g)

clause-Free : (a : Assignment) → IsClause a → Free b' ' (clause a)
clause-Free (p, v) ok_a =
    append-Free b' ' p (b'=' ∷ v) ok_a.param_no_space ((λ e. omega arith), ok_a.value_no_space)

split-print :
    (xs : Bytes) (assignments : List Assignment)
    → Free b' ' xs
    → AllClauses assignments
    → split b' ' (xs ++ print assignments) ≡ (xs, map clause assignments)
split-print xs [] free all = ap (split b' ') (append-nil xs) ∙ split-Free b' ' xs free
split-print xs (a ∷ assignments) free all =
    let rest = split-print (clause a) assignments (clause-Free a all.0) all.1 in
    split-join b' ' xs (clause a ++ print assignments) free ∙ ap (λ r. (xs, r.0 ∷ r.1)) rest

parse_one-clause :
    (m : Vars) (a : Assignment)
    → IsClause a
    → parse_one_set_req m (clause a) ≡ (0, insert m a.0 a.1)
unfolding parse_one_set_req store_req
parse_one-clause m (p, v) ok_a = rw (cut-Free b'=' p v ok_a.no_equals, ok_a.value_given) refl

parse_all-clauses :
    (m : Vars) (assignments : List Assignment)
    → AllClauses assignments
    → parse_all m (map clause assignments) ≡ (length assignments, insert_all m assignments)
unfolding parse_all
parse_all-clauses m [] all = refl
parse_all-clauses m (a ∷ assignments) all =
    let rest = parse_all-clauses (insert m a.0 a.1) assignments all.1 in
    rw (parse_one-clause m a all.0, rest)
      (ap (λ n. (n, insert_all (insert m a.0 a.1) assignments)) (omega arith))

insert_all-append :
    (m : Vars) (xs : List Assignment) (a : Assignment)
    → insert_all m (xs ++ (a ∷ [])) ≡ insert (insert_all m xs) a.0 a.1
insert_all-append m [] a = refl
insert_all-append m (x ∷ xs) a = insert_all-append (insert m x.0 x.1) xs a

-- For a command without a space, and assignments of which the last sets `a.0`, whose parameters
-- have neither a space nor an equals sign, and whose values have no space and are not empty:
-- `parse_set_req` of what they are printed as counts them and sets them in their order, and
-- `get_var` of the last parameter, if it is not empty, gives its value, whatever the default and
-- the configuration file.
pub get_var-parse_set_req :
    (conf : Bytes → Option Bytes) (m : Vars) (command default : Bytes)
    (assignments : List Assignment) (a : Assignment)
    → Free b' ' command
    → AllClauses (assignments ++ (a ∷ []))
    → is_empty a.0 ≡ false
    → (m' : Vars) × (parse_set_req m (command ++ print (assignments ++ (a ∷ [])))
        ≡ (length (assignments ++ (a ∷ [])), m'))
      × (m' ≡ insert_all m (assignments ++ (a ∷ [])))
      × (get_var conf m' a.0 default ≡ (a.1, m'))
unfolding parse_set_req get_var get_found
get_var-parse_set_req conf m command default assignments a free all given =
    let xs : List Assignment = assignments ++ (a ∷ []) in
    let found : lookup (insert_all m xs) a.0 ≡ some a.1 =
      ap (λ n. lookup n a.0) (insert_all-append m assignments a)
      ∙ lookup-insert_same (insert_all m assignments) a.0 a.1 in
    (
      insert_all m xs,
      rw (split-print command xs free all) (parse_all-clauses m xs all),
      refl,
      rw (given, found) refl,
    )
