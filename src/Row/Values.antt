-- ===== src/Row/Values.antt =====
-- The values of a row, against the descriptions of its table.
use zapps.Prelude.{
  subst, ap, sym, arith, none, some, Option, zero, suc, get_elem?, set, length, ℕ, ◌^◌, ◌<◌, ◌≡◌,
  refl, List, [], ◌∷◌, false, Option, get_elem?, some, length, set, subst,
}
use zapps.Prelude.Memory.{length-malloc}
use zapps.Field.{DescPtr, FieldValue, new_value, setup, points_to}
use zapps.Field.Valid.{IsValid, setup-IsValid}
use zapps.Row.{setup_values}

-- The values are set up for the descriptions, one for one.
abbrev pub AllValid : List DescPtr → List FieldValue → Type 0
AllValid [] [] = Unit {0}
AllValid [] (v ∷ vs) = ⊥
AllValid (p ∷ ps) [] = ⊥
AllValid (p ∷ ps) (v ∷ vs) = IsValid p v × AllValid ps vs

-- No value is null, and each length fits a slot.
abbrev pub AllShown : List FieldValue → Type 0
AllShown [] = Unit {0}
AllShown (v ∷ vs) = (v.null_flag ≡ false) × (v.real_size < 256 ^ 8) × AllShown vs

setup-new_value : (heap : ℕ → ℕ) (p : DescPtr) → IsValid p (setup heap p (new_value heap))
unfolding new_value points_to
setup-new_value heap p = setup-IsValid heap p (new_value heap) (length-malloc heap 8) refl refl

pub setup_values-AllValid : (heap : ℕ → ℕ) (ps : List DescPtr) → AllValid ps (setup_values heap ps)
unfolding setup_values
setup_values-AllValid heap [] = tt
setup_values-AllValid heap (p ∷ ps) = (setup-new_value heap p, setup_values-AllValid heap ps)

abbrev some_or : DescPtr → Option DescPtr → DescPtr
some_or q none = q
some_or q (some p) = p

pub get_elem?-AllValid :
    (ps : List DescPtr) (ws : List FieldValue) (k : ℕ) {p : DescPtr}
    → AllValid ps ws
    → get_elem? ps k ≡ some p
    → (w : FieldValue) × (get_elem? ws k ≡ some w) × IsValid p w × (k < length ws)
get_elem?-AllValid [] ws k valid e = cc
get_elem?-AllValid (q ∷ ps) [] k valid e = absurd valid
get_elem?-AllValid (q ∷ ps) (w ∷ ws) zero valid e =
    (w, refl, subst (λ x. IsValid x w) (ap (some_or q) e) valid.0, omega arith)
get_elem?-AllValid (q ∷ ps) (w ∷ ws) (suc k) valid e =
    let (u, there, ok_u, in_range) = get_elem?-AllValid ps ws k valid.1 e in
    (u, there, ok_u, omega (arith, in_range))

pub set-AllValid :
    (ps : List DescPtr) (ws : List FieldValue) (k : ℕ) (u : FieldValue) {p : DescPtr}
    → AllValid ps ws
    → get_elem? ps k ≡ some p
    → IsValid p u
    → AllValid ps (set ws k u)
set-AllValid [] ws k u valid e ok_u = cc
set-AllValid (q ∷ ps) [] k u valid e ok_u = absurd valid
set-AllValid (q ∷ ps) (w ∷ ws) zero u valid e ok_u =
    (subst (λ x. IsValid x u) (sym (ap (some_or q) e)) ok_u, valid.1)
set-AllValid (q ∷ ps) (w ∷ ws) (suc k) u valid e ok_u =
    (valid.0, set-AllValid ps ws k u valid.1 e ok_u)
