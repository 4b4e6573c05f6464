-- ===== src/Random.antt =====
-- Random numbers for the inputs: src/kits/random_input.cpp and src/kits/util/randgen.h.
-- The generator of 32-bit numbers and the Zipfian distribution, which is computed in floating point,
-- are parameters.
use zapps.Prelude.{
  ℕ, ◌+◌, ◌%◌, ◌<◌, ◌≡◌, refl, ap, arith, Bool, false, if◌then◌else◌, Result, ok, err, assert,
  lt→ltb, List, [], ◌∷◌, length, deref, get_elem?, zero, suc, true,
}
use zapps.Prelude.Int.{
  ℤ, pos, pos_part, neg_part, ◌+ℤ◌, ◌-ℤ◌, ◌≤ℤ◌, ltb_ℤ, int_laws, neg_part-nonneg, eqb_ℤ,
}
use native.Mathlib.Nat.{mod-lt}

-- `zipf_next n u` is the number that a distribution of `n` numbers gives for u / 10000.
pub record Source (G : Type 0) : Type 0 where
  pub rand_int : G → ℕ × G
  pub zipf_enabled : Bool
  pub zipf_next : ℤ → ℤ → ℤ

-- A computation that draws random numbers.
abbrev pub Draw : Type 0 → Type 0 → Type 0
Draw G A = G → Result (A × G)

module _ {G : Type 0} where
  abbrev pub pure : {A : Type 0} → A → Draw G A
  pure a g = ok (a, g)

  abbrev pub lift : {A : Type 0} → Result A → Draw G A
  lift (ok a) g = ok (a, g)
  lift (err fault) g = err fault

  abbrev pub continue : {A B : Type 0} → Result (A × G) → (A → Draw G B) → Result (B × G)
  continue (ok (a, g)) rest = rest a g
  continue (err fault) rest = err fault

  infixl 5 ◌>>=◌ ◌>>◌
  abbrev pub ◌>>=◌ : {A B : Type 0} → Draw G A → (A → Draw G B) → Draw G B
  ◌>>=◌ m rest g = continue (m g) rest

  abbrev pub ◌>>◌ : {A B : Type 0} → Draw G A → Draw G B → Draw G B
  m >> k = m >>= λ _. k

  pub continue-eq :
      {A B : Type 0} (rest : A → Draw G B) {o o' : Result (A × G)}
      → o ≡ o'
      → continue o rest ≡ continue o' rest
  continue-eq rest e = ap (λ x. continue x rest) e

abbrev caps_char_array : List ℕ
caps_char_array =
    b'A' ∷ b'B' ∷ b'C' ∷ b'D' ∷ b'E' ∷ b'F' ∷ b'G' ∷ b'H' ∷ b'I' ∷ b'J' ∷ b'K' ∷ b'L' ∷ b'M' ∷ b'N'
    ∷ b'O' ∷ b'P' ∷ b'Q' ∷ b'R' ∷ b'S' ∷ b'T' ∷ b'U' ∷ b'V' ∷ b'W' ∷ b'X' ∷ b'Y' ∷ b'Z' ∷ 0 ∷ []

abbrev numbers_char_array : List ℕ
numbers_char_array = b'0' ∷ b'1' ∷ b'2' ∷ b'3' ∷ b'4' ∷ b'5' ∷ b'7' ∷ b'8' ∷ b'9' ∷ 0 ∷ []

module _ {G : Type 0} (s : Source G) where
  -- `randgen_t::rand(n)`
  unfoldable pub rand : ℤ → Draw G ℤ
  rand n = do
    lift (assert (ltb_ℤ (pos 0) n))
    r ← (λ g. ok (s.rand_int g))
    pure (pos (r % pos_part n))

  unfoldable pub urand : ℤ → ℤ → Draw G ℤ
  unfolding rand
  urand low high = do r ← rand (high -ℤ low +ℤ pos 1); pure (low +ℤ r)

  unfoldable pub zrand : ℤ → ℤ → Draw G ℤ
  unfolding rand
  zrand low high = do
    u ← rand (pos 10000)
    pure (s.zipf_next (high -ℤ low +ℤ pos 2) u +ℤ low -ℤ pos 1)

  unfoldable pub uzrand : ℤ → ℤ → Draw G ℤ
  unfolding zrand urand
  uzrand low high = if s.zipf_enabled then zrand low high else urand low high

  -- A number between `low` and `high` is drawn.
  abbrev pub DrawsIn : Result (ℤ × G) → ℤ → ℤ → Type 0
  DrawsIn r low high = (x : ℤ) × (g : G) × (r ≡ ok (x, g)) × (low ≤ℤ x) × (x ≤ℤ high)

  pub urand-DrawsIn : (low high : ℤ) (g : G) → low ≤ℤ high → DrawsIn (urand low high g) low high
  unfolding urand rand
  urand-DrawsIn low high g h =
      let n : ℤ = high -ℤ low +ℤ pos 1 in
      let sign : neg_part n ≡ 0 = neg_part-nonneg n (omega int_laws) in
      let some_left : 0 < pos_part n = omega (int_laws, sign) in
      let r : ℤ = pos ((s.rand_int g).0 % pos_part n) in
      let small = mod-lt (s.rand_int g).0 some_left in
      (
        low +ℤ r,
        (s.rand_int g).1,
        rw (lt→ltb (0 + neg_part n) (pos_part n + 0) (omega (arith, sign, some_left))) refl,
        omega int_laws,
        omega (int_laws, sign, small),
      )

  pub uzrand-DrawsIn :
      (low high : ℤ) (g : G)
      → s.zipf_enabled ≡ false
      → low ≤ℤ high
      → DrawsIn (uzrand low high g) low high
  unfolding uzrand
  uzrand-DrawsIn low high g uniform h = rw uniform (urand-DrawsIn low high g h)

  unfoldable pub urand_bool : Draw G Bool
  unfolding urand
  urand_bool = do r ← urand (pos 0) (pos 1); pure (if eqb_ℤ r (pos 0) then false else true)

  -- `sz` characters of an array.
  fill : List ℕ → ℕ → Draw G (List ℕ)
  unfolding urand
  fill array zero = pure []
  fill array (suc sz) = do
    i ← urand (pos 0) (pos (length array) -ℤ pos 1)
    c ← lift (deref (get_elem? array (pos_part i)))
    cs ← fill array sz
    pure (c ∷ cs)

  -- The arrays end with the zero that ends a string.
  unfoldable pub urand_fill_str_caps : ℕ → Draw G (List ℕ)
  unfolding fill
  urand_fill_str_caps sz = fill caps_char_array sz

  unfoldable pub urand_fill_str_numbx : ℕ → Draw G (List ℕ)
  unfolding fill
  urand_fill_str_numbx sz = fill numbers_char_array sz
