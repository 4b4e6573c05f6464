-- ===== src/Tests/EnvVars.antt =====
-- Requests to set environment variables at concrete inputs.
use zapps.Prelude.{arith, List, [], ◌∷◌, ◌++◌, ◌≡◌, refl, Option, none, length}
use zapps.Prelude.Memory.{Bytes}
use zapps.EnvVar.{Vars, parse_set_req, get_var, set_var}
use zapps.EnvVar.Requests.{Assignment, IsClause, Free, print, insert_all, get_var-parse_set_req}

abbrev no_file : Bytes → Option Bytes
no_file key = none

-- "SET"
abbrev command : Bytes
command = b'S' ∷ b'E' ∷ b'T' ∷ []

-- "a=1"
abbrev first : Assignment
first = (b'a' ∷ [], b'1' ∷ [])

-- "a=4"
abbrev last : Assignment
last = (b'a' ∷ [], b'4' ∷ [])

-- "b=23"
abbrev middle : Assignment
middle = (b'b' ∷ [], b'2' ∷ b'3' ∷ [])

printed : command ++ print (first ∷ []) ≡ b'S' ∷ b'E' ∷ b'T' ∷ b' ' ∷ b'a' ∷ b'=' ∷ b'1' ∷ []
printed = refl

-- A clause without a value is counted, and sets nothing.
no_value : parse_set_req [] (b'S' ∷ b' ' ∷ b'a' ∷ b'=' ∷ []) ≡ (1, [])
unfolding parse_set_req
no_value = refl

-- An empty parameter is set by a request, and refused by `set_var`.
no_param : parse_set_req [] (b'S' ∷ b' ' ∷ b'=' ∷ b'1' ∷ []) ≡ (1, ([], b'1' ∷ []) ∷ [])
unfolding parse_set_req
no_param = refl

no_param_set_var : set_var [] [] (b'1' ∷ []) ≡ (0, [])
unfolding set_var
no_param_set_var = refl

no_default : get_var no_file [] (b'a' ∷ []) [] ≡ ([], [])
unfolding get_var
no_default = refl

command-Free : Free b' ' command
command-Free = ((λ e. omega arith), ((λ e. omega arith), ((λ e. omega arith), tt)))

first-IsClause : IsClause first
first-IsClause = record {
  no_equals = ((λ e. omega arith), tt);
  param_no_space = ((λ e. omega arith), tt);
  value_no_space = ((λ e. omega arith), tt);
  value_given = refl;
}

middle-IsClause : IsClause middle
middle-IsClause = record {
  no_equals = ((λ e. omega arith), tt);
  param_no_space = ((λ e. omega arith), tt);
  value_no_space = ((λ e. omega arith), ((λ e. omega arith), tt));
  value_given = refl;
}

last-IsClause : IsClause last
last-IsClause = record {
  no_equals = ((λ e. omega arith), tt);
  param_no_space = ((λ e. omega arith), tt);
  value_no_space = ((λ e. omega arith), tt);
  value_given = refl;
}

abbrev xs : List Assignment
xs = first ∷ middle ∷ []

get_var-parse_set_req_example :
    (m' : Vars) × (parse_set_req [] (command ++ print (xs ++ (last ∷ [])))
      ≡ (length (xs ++ (last ∷ [])), m'))
    × (m' ≡ insert_all [] (xs ++ (last ∷ [])))
    × (get_var no_file m' last.0 command ≡ (last.1, m'))
get_var-parse_set_req_example =
    get_var-parse_set_req no_file [] command command xs last command-Free
      (first-IsClause, (middle-IsClause, (last-IsClause, tt))) refl
