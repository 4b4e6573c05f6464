-- ===== src/Prelude/Results.antt =====
-- Results of code that can stop: a failed `assert`, or an access outside an allocated buffer.
use mathlib.Core.Path.{◌≡◌, refl, ap}
use mathlib.Core.Bool.{Bool, true, false}
use mathlib.Core.Option.{Option, none, some}

-- Why a call does not return.
pub data Fault : Type 0 where
  assertion bad_access division_by_zero : Fault

pub data Result {u} (R : Type u) : Type u where
  err : Fault → Result R
  ok : R → Result R

-- assert(test)
abbrev pub assert : Bool → Result (Unit {0})
assert false = err assertion
assert true = ok tt

-- A pointer that the code asserts not to be NULL.
abbrev pub assert_some {u} : {R : Type u} → Option R → Result R
assert_some (some r) = ok r
assert_some none = err assertion

-- A pointer that is followed with no check.
abbrev pub deref {u} : {R : Type u} → Option R → Result R
deref (some r) = ok r
deref none = err bad_access

-- The rest of a call runs only if the call has not stopped.
infixl 5 ◌>>=◌
abbrev pub ◌>>=◌ {u w} : {R : Type u} {S : Type w} → Result R → (R → Result S) → Result S
err fault >>= rest = err fault
ok r >>= rest = rest r

infixl 5 ◌>>◌
abbrev pub ◌>>◌ {u} : {S : Type u} → Result (Unit {0}) → Result S → Result S
first >> second = first >>= λ done. second

-- A call that returns has run all its parts.
pub >>=-eq-ok {u w} :
    {R : Type u} {S : Type w} (first : Result R) (rest : R → Result S) {s : S}
    → (first >>= rest) ≡ ok s
    → (r : R) × (first ≡ ok r) × (rest r ≡ ok s)
>>=-eq-ok (err fault) rest done = cc
>>=-eq-ok (ok r) rest done = (r, refl, done)

pub assert_some-bind {u w} :
    {R : Type u} {S : Type w} {pointer : Option R} {r : R} (rest : R → Result S)
    → pointer ≡ some r
    → (assert_some pointer >>= rest) ≡ rest r
assert_some-bind rest there = ap (λ p. assert_some p >>= rest) there

pub deref-bind {u w} :
    {R : Type u} {S : Type w} {pointer : Option R} {r : R} (rest : R → Result S)
    → pointer ≡ some r
    → (deref pointer >>= rest) ≡ rest r
deref-bind rest there = ap (λ p. deref p >>= rest) there

pub ok-inj {u} : {R : Type u} {r s : R} → ok r ≡ ok s → r ≡ s
ok-inj {r = r} e = ap (λ x. elim x [ ok a ↦ a | err f ↦ r ]) e

pub deref-eq-ok {u} :
    {R : Type u} {pointer : Option R} {r : R} → deref pointer ≡ ok r → pointer ≡ some r
deref-eq-ok {pointer = some a} e = ap some (ok-inj e)
deref-eq-ok {pointer = none} e = cc
