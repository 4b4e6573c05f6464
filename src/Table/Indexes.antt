-- ===== src/Table/Indexes.antt =====
-- Indexes of a table: created, and found by name.
use zapps.Prelude.{
  ℕ, zero, suc, lt→ltb, ◌<◌, ◌≡◌, refl, ◌∙◌, ap, sym, arith, true, false, List, [], ◌∷◌, ◌++◌, none,
  some, length, get_elem?, ok, deref-bind, Bool-cases, inl, inr,
}
use zapps.Prelude.Memory.{Bytes}
use zapps.Field.{FieldDesc, is_variable_length}
use zapps.Table.{
  TableDesc, IndexDesc, same_name, matches_name, new_index, find_in, find_index, check_key,
  add_index, create_index_desc,
}

same_name_refl : (n : Bytes) → same_name n n ≡ true
unfolding same_name
same_name_refl [] = refl
same_name_refl (x ∷ n) = ground (arith, same_name_refl n)

-- The fields of a key: fields of the table, of which only the last may be of variable length.
abbrev pub IsKey : List FieldDesc → List ℕ → Type 0
IsKey ds [] = Unit {0}
IsKey ds (f ∷ []) = f < length ds
IsKey ds (f ∷ g ∷ fs) =
    ((d : FieldDesc) × (get_elem? ds f ≡ some d) × (is_variable_length d.type ≡ false))
    × IsKey ds (g ∷ fs)

get_elem?-some :
    {A : Type 0} (xs : List A) (i : ℕ) → i < length xs → (a : A) × (get_elem? xs i ≡ some a)
get_elem?-some [] i h = absurd (omega arith)
get_elem?-some (x ∷ xs) zero h = (x, refl)
get_elem?-some (x ∷ xs) (suc i) h = get_elem?-some xs i (omega arith)

get_elem?-lt : {A : Type 0} (xs : List A) (i : ℕ) {a : A} → get_elem? xs i ≡ some a → i < length xs
get_elem?-lt [] i h = cc
get_elem?-lt (x ∷ xs) zero h = omega arith
get_elem?-lt (x ∷ xs) (suc i) h = omega (arith, get_elem?-lt xs i h)

check_key-IsKey : (ds : List FieldDesc) (fs : List ℕ) → IsKey ds fs → check_key ds fs ≡ ok tt
unfolding check_key
check_key-IsKey ds [] h = refl
check_key-IsKey ds (f ∷ []) h =
    let (d, there) = get_elem?-some ds f h in
    rw (lt→ltb f (length ds) h) (deref-bind _ there ∙ ground arith)
check_key-IsKey ds (f ∷ g ∷ fs) h =
    let (d, there, fixed) = h.0 in
    rw (lt→ltb f (length ds) (get_elem?-lt ds f there))
      (deref-bind _ there ∙ rw fixed (check_key-IsKey ds (g ∷ fs) h.1))

find_in-append :
    (is : List IndexDesc) (i : IndexDesc) (name : Bytes)
    → find_in is name ≡ none
    → matches_name i name ≡ true
    → find_in (is ++ (i ∷ [])) name ≡ some i
unfolding find_in
find_in-append [] i name h e = ground arith
find_in-append (j ∷ is) i name h e = ground (arith, find_in-append is i name)

-- In a table with a primary index, a secondary index whose key has only fields of the table, of
-- which only the last may be of variable length, and whose name no index has, is created, and
-- then found by its name.
pub find_index-create_index_desc :
    (t : TableDesc) (name : Bytes) (fields : List ℕ) (pd : ℕ) (p : IndexDesc)
    → t.primary_idx ≡ some p
    → find_index t name ≡ ok none
    → IsKey t.desc fields
    → (t' : TableDesc) × (create_index_desc t name fields false false pd ≡ ok t')
      × (find_index t' name ≡ ok (some (new_index name fields false false pd false)))
unfolding create_index_desc add_index find_index new_index
find_index-create_index_desc t name fields pd p e absent key =
    let made = check_key-IsKey t.desc fields key in
    let i = new_index name fields false false pd false in
    let known = sym (deref-bind _ e) ∙ absent in
    (
      record t { indexes = t.indexes ++ (i ∷ []) },
      rw made refl,
      deref-bind _ e ∙ elim (Bool-cases (matches_name p name)) [
        | inl own ↦ absurd (ground (arith, known, own))
        | inr other ↦
            rw other (
              ap ok (find_in-append t.indexes i name (ground (arith, known)) (same_name_refl name)))
      ],
    )
