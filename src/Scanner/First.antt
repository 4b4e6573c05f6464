-- ===== src/Scanner/First.antt =====
-- The number of the file at which the scan of the log begins.
use zapps.Prelude.{
  Bool, true, false, ℕ, ◌≤◌, ◌≡◌, ◌⊎◌, inl, inr, refl, arith, ltb, List, [], ◌∷◌, if◌then◌else◌,
}
use zapps.Scanner.Blocks.{find_first_file, int_max}

-- No number of the list is smaller.
abbrev pub AtMost : ℕ → List ℕ → Type 0
AtMost n [] = Unit {0}
AtMost n (p ∷ ps) = (n ≤ p) × AtMost n ps

-- The number is in the list, or it is the last resort.
abbrev pub Among : ℕ → List ℕ → ℕ → Type 0
Among n [] m = n ≡ m
Among n (p ∷ ps) m = (n ≡ p) ⊎ Among n ps m

-- The smallest number of the list; the largest `int` if the list is empty.
pub record IsFirst (n : ℕ) (listed : List ℕ) : Type 0 where
  pub smallest : AtMost n listed
  pub bounded : n ≤ int_max
  pub among : Among n listed int_max

find_first_file-le : (ps : List ℕ) (m : ℕ) → find_first_file ps m ≤ m
unfolding find_first_file
find_first_file-le [] m = omega arith
find_first_file-le (p ∷ ps) m =
    let rest = find_first_file-le ps (if ltb p m then p else m) in ground (arith, rest)

find_first_file-AtMost : (ps : List ℕ) (m : ℕ) → AtMost (find_first_file ps m) ps
unfolding find_first_file
find_first_file-AtMost [] m = tt
find_first_file-AtMost (p ∷ ps) m =
    let rest = find_first_file-le ps (if ltb p m then p else m) in
    (ground (arith, rest), find_first_file-AtMost ps (if ltb p m then p else m))

Among-resort : (n : ℕ) (ps : List ℕ) (p m : ℕ) → Among n ps p → (n ≡ p) ⊎ Among n ps m
Among-resort n [] p m h = inl h
Among-resort n (q ∷ ps) p m (inl here) = inr (inl here)
Among-resort n (q ∷ ps) p m (inr there) = elim (Among-resort n ps p m there) [
  | inl e ↦ inl e
  | inr e ↦ inr (inr e)
]

Among-next :
    (less : Bool) (n p : ℕ) (ps : List ℕ) (m : ℕ)
    → Among n ps (if less then p else m)
    → Among n (p ∷ ps) m
Among-next true n p ps m h = Among-resort n ps p m h
Among-next false n p ps m h = inr h

find_first_file-Among : (ps : List ℕ) (m : ℕ) → Among (find_first_file ps m) ps m
unfolding find_first_file
find_first_file-Among [] m = refl
find_first_file-Among (p ∷ ps) m =
    Among-next (ltb p m) _ p ps m (find_first_file-Among ps (if ltb p m then p else m))

AtMost-le : (x y : ℕ) (ps : List ℕ) (m : ℕ) → AtMost x ps → x ≤ m → Among y ps m → x ≤ y
AtMost-le x y [] m all low same = omega (arith, low, same)
AtMost-le x y (p ∷ ps) m (here, all) low (inl same) = omega (arith, here, same)
AtMost-le x y (p ∷ ps) m (here, all) low (inr there) = AtMost-le x y ps m all low there

pub find_first_file-IsFirst :
    (n : ℕ) (listed : List ℕ) → IsFirst n listed → find_first_file listed int_max ≡ n
find_first_file-IsFirst n listed first =
    let found : ℕ = find_first_file listed int_max in
    let low =
      AtMost-le found n listed int_max (find_first_file-AtMost listed int_max)
        (find_first_file-le listed int_max) first.among in
    let high =
      AtMost-le n found listed int_max first.smallest first.bounded
        (find_first_file-Among listed int_max) in
    omega (arith, low, high)
