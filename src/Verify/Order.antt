-- ===== src/Verify/Order.antt =====
-- What the handler verifies: the order of all records, and the bounds of the file.
use zapps.Prelude.{
  Bool-cases, ℕ, ◌+◌, ◌≤◌, ◌<◌, ◌≡◌, ◌⊎◌, ◌↔◌, inl, inr, refl, ap, arith, Bool, true, false, List,
  [], ◌∷◌, length, Result, ok, ◌>>=◌, >>=-eq-ok, ok-inj, subst, sym, ◌∙◌, assert, ◌||◌, leb, ltb,
  if◌then◌else◌, ◌==◌,
}
use zapps.Prelude.Memory.{Bytes}
use zapps.Verify.{Logrec, VerifyHandler, new_file, invoke}

-- The calls for the records of a log.
abbrev pub invoke_all : VerifyHandler → List Logrec → Result VerifyHandler
invoke_all h [] = ok h
invoke_all h (r ∷ rs) = invoke h r >>= λ h'. invoke_all h' rs

-- By page, and by log sequence number on a page.
abbrev pub Before : (page lsn : ℕ) → Logrec → Type 0
Before page lsn r = (page < r.page) ⊎ ((page ≡ r.page) × (lsn < r.lsn))

abbrev pub AllBefore : (page lsn : ℕ) → List Logrec → Type 0
AllBefore page lsn [] = Unit {0}
AllBefore page lsn (r ∷ rs) = Before page lsn r × AllBefore page lsn rs

-- Each record is before all that follow it, and `page` and `lsn` before them all.
abbrev pub IsOrdered : (page lsn : ℕ) → List Logrec → Type 0
IsOrdered page lsn [] = Unit {0}
IsOrdered page lsn (r ∷ rs) = AllBefore page lsn (r ∷ rs) × IsOrdered r.page r.lsn rs

abbrev pub IsWithin : (merge : Bool) (low high lsn : ℕ) → Type 0
IsWithin true low high lsn = Unit {0}
IsWithin false low high lsn = (low ≤ lsn) × (lsn ≤ high)

abbrev pub AllWithin : (merge : Bool) (low high : ℕ) → List Logrec → Type 0
AllWithin merge low high [] = Unit {0}
AllWithin merge low high (r ∷ rs) =
    ((r.valid_header ≡ true) × IsWithin merge low high r.lsn) × AllWithin merge low high rs

abbrev advance : VerifyHandler → Logrec → VerifyHandler
advance h r = record h { last_lsn = r.lsn; last_page = r.page; count = h.count + 1 }

assert-true : (b : Bool) {u : Unit {0}} → assert b ≡ ok u → b ≡ true
assert-true true e = refl
assert-true false e = cc

before :
    (page lsn : ℕ) (r : Logrec)
    → leb page r.page ≡ true
    → (if r.page == page then ltb lsn r.lsn else true) ≡ true
    → Before page lsn r
before page lsn r le lt = elim (Bool-cases (r.page == page)) [
  | inl same ↦ inr (ground (arith, same), ground (arith, same, lt))
  | inr other ↦ inl (ground (arith, other, le))
]

tests :
    (page lsn : ℕ) (r : Logrec)
    → Before page lsn r
    → (leb page r.page ≡ true) × ((if r.page == page then ltb lsn r.lsn else true) ≡ true)
tests page lsn r (inl lt) = (ground arith, ground arith)
tests page lsn r (inr same) = (ground (arith, same.0), ground (arith, same.0, same.1))

within :
    (merge : Bool) (low high lsn : ℕ)
    → (merge || leb low lsn) ≡ true
    → (merge || leb lsn high) ≡ true
    → IsWithin merge low high lsn
within true low high lsn a b = tt
within false low high lsn a b = (ground arith, ground arith)

within_tests :
    (merge : Bool) (low high lsn : ℕ)
    → IsWithin merge low high lsn
    → ((merge || leb low lsn) ≡ true) × ((merge || leb lsn high) ≡ true)
within_tests true low high lsn within = (refl, refl)
within_tests false low high lsn within = (ground (arith, within.0), ground (arith, within.1))

Before-trans :
    (page lsn : ℕ) (r s : Logrec) → Before page lsn r → Before r.page r.lsn s → Before page lsn s
Before-trans page lsn r s (inl a) (inl b) = inl (omega arith)
Before-trans page lsn r s (inl a) (inr b) = inl (omega (arith, b.0))
Before-trans page lsn r s (inr a) (inl b) = inl (omega (arith, a.0))
Before-trans page lsn r s (inr a) (inr b) = inr (a.0 ∙ b.0, omega (arith, a.1, b.1))

AllBefore-trans :
    (page lsn : ℕ) (r : Logrec) (rs : List Logrec)
    → Before page lsn r
    → AllBefore r.page r.lsn rs
    → AllBefore page lsn rs
AllBefore-trans page lsn r [] b all = tt
AllBefore-trans page lsn r (s ∷ rs) b all =
    (Before-trans page lsn r s b all.0, AllBefore-trans page lsn r rs b all.1)

IsOrdered-AllBefore :
    (page lsn : ℕ) (rs : List Logrec) → IsOrdered page lsn rs → AllBefore page lsn rs
IsOrdered-AllBefore page lsn [] ordered = tt
IsOrdered-AllBefore page lsn (r ∷ rs) ordered = ordered.0

Follows : VerifyHandler → Logrec → Type 0
Follows h r =
    Before h.last_page h.last_lsn r
    × (r.valid_header ≡ true)
    × IsWithin h.merge h.min_lsn h.max_lsn r.lsn

invoke-Follows :
    (h h' : VerifyHandler) (r : Logrec) → invoke h r ≡ ok h' → Follows h r × (h' ≡ advance h r)
unfolding invoke Follows
invoke-Follows h h' r done =
    let (_, valid, e1) = >>=-eq-ok (assert r.valid_header) _ done in
    let (_, le, e2) = >>=-eq-ok (assert (leb h.last_page r.page)) _ e1 in
    let (_, lt, e3) =
      >>=-eq-ok (assert (if r.page == h.last_page then ltb h.last_lsn r.lsn else true)) _ e2 in
    let (_, low, e4) = >>=-eq-ok (assert (h.merge || leb h.min_lsn r.lsn)) _ e3 in
    let (_, high, e5) = >>=-eq-ok (assert (h.merge || leb r.lsn h.max_lsn)) _ e4 in
    (
      (
        before h.last_page h.last_lsn r (assert-true _ le) (assert-true _ lt),
        assert-true _ valid,
        within h.merge h.min_lsn h.max_lsn r.lsn (assert-true _ low) (assert-true _ high),
      ),
      sym (ok-inj e5),
    )

invoke-advance : (h : VerifyHandler) (r : Logrec) → Follows h r → invoke h r ≡ ok (advance h r)
unfolding invoke Follows
invoke-advance h r (b, valid, inside) =
    let (le, lt) = tests h.last_page h.last_lsn r b in
    let (low, high) = within_tests h.merge h.min_lsn h.max_lsn r.lsn inside in
    rw (valid, le, lt, low, high) refl

Verified : VerifyHandler → List Logrec → Type 0
Verified h rs = IsOrdered h.last_page h.last_lsn rs × AllWithin h.merge h.min_lsn h.max_lsn rs

invoke_all-Verified :
    (h h' : VerifyHandler) (rs : List Logrec)
    → invoke_all h rs ≡ ok h'
    → Verified h rs × (h'.count ≡ h.count + length rs)
unfolding Verified Follows
invoke_all-Verified h h' [] done = ((tt, tt), ap (λ x. x.count) (sym (ok-inj done)) ∙ omega arith)
invoke_all-Verified h h' (r ∷ rs) done =
    let (h1, first, rest) = >>=-eq-ok (invoke h r) _ done in
    let ((b, valid, inside_r), e) = invoke-Follows h h1 r first in
    let ((ordered, inside), counted) =
      invoke_all-Verified (advance h r) h' rs (subst (λ x. invoke_all x rs ≡ ok h') e rest) in
    (
      (
        (
          (
            b,
            AllBefore-trans h.last_page h.last_lsn r rs b
                (IsOrdered-AllBefore r.page r.lsn rs ordered),
          ),
          ordered,
        ),
        ((valid, inside_r), inside),
      ),
      counted ∙ omega arith,
    )

Verified-invoke_all :
    (h : VerifyHandler) (rs : List Logrec)
    → Verified h rs
    → (h' : VerifyHandler) × (invoke_all h rs ≡ ok h') × (h'.count ≡ h.count + length rs)
unfolding Verified Follows
Verified-invoke_all h [] verified = (h, refl, omega arith)
Verified-invoke_all h (r ∷ rs) ((all, ordered), ((valid, inside_r), inside)) =
    let (h', done, counted) = Verified-invoke_all (advance h r) rs (ordered, inside) in
    (h', rw (invoke-advance h r (all.0, valid, inside_r)) done, counted ∙ omega arith)

-- After `new_file`, the handler is called for all records of a log, and no assert fails and their
-- number is added to `count`, if and only if all records have a valid header, each is before all
-- that follow it in the order by page and log sequence number, the null values are before them
-- all, and, unless `merge` is set, all sequence numbers are between the two that the name of the
-- file tells.
pub invoke_all-IsOrdered :
    (null_lsn null_page : ℕ) (parse_lsn : Bytes → Bool → ℕ) (h : VerifyHandler) (fname : Bytes)
    (rs : List Logrec)
    → ((h' : VerifyHandler) × (invoke_all (new_file null_lsn null_page parse_lsn h fname) rs
          ≡ ok h')
        × (h'.count ≡ h.count + length rs))
      ↔ (IsOrdered null_page null_lsn rs
          × AllWithin h.merge (parse_lsn fname false) (parse_lsn fname true) rs)
unfolding new_file Verified
invoke_all-IsOrdered null_lsn null_page parse_lsn h fname rs = (
  (λ (h', done, counted).
      (invoke_all-Verified (new_file null_lsn null_page parse_lsn h fname) h' rs done).0),
  (λ verified. Verified-invoke_all (new_file null_lsn null_page parse_lsn h fname) rs verified),
)
