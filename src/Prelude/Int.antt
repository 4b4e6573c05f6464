-- ===== src/Prelude/Int.antt =====
-- Integers over the native numbers.
use Prim.Native.Nat.{◌<◌, ◌%◌, ◌^◌, ℕ, suc, ◌+◌, ◌-◌, ◌*◌, ◌/◌, ◌≤◌}
use mathlib.Core.Path.{◌≡◌}
use mathlib.Core.Bool.{Bool, true, false}
use native.Mathlib.Omega.{arith}
use zapps.Prelude.{ltb, leb, ◌==◌, if◌then◌else◌}

-- `negsuc n` is -(n + 1).
pub data ℤ : Type 0 where
  pos : ℕ → ℤ
  negsuc : ℕ → ℤ

abbrev pub pos_part : ℤ → ℕ
pos_part (pos n) = n
pos_part (negsuc n) = 0

abbrev pub neg_part : ℤ → ℕ
neg_part (pos n) = 0
neg_part (negsuc n) = suc n

abbrev pub sub_ℕ : ℕ → ℕ → ℤ
sub_ℕ a b = if leb b a then pos (a - b) else negsuc (b - a - 1)

infixl 65 ◌+ℤ◌ ◌-ℤ◌
infixl 70 ◌*ℤ◌
infix 50 ◌≤ℤ◌ ◌<ℤ◌
unfoldable pub ◌+ℤ◌ : ℤ → ℤ → ℤ
a +ℤ b = sub_ℕ (pos_part a + pos_part b) (neg_part a + neg_part b)

unfoldable pub ◌-ℤ◌ : ℤ → ℤ → ℤ
a -ℤ b = sub_ℕ (pos_part a + neg_part b) (neg_part a + pos_part b)

unfoldable pub ◌*ℤ◌ : ℤ → ℤ → ℤ
a *ℤ b =
    sub_ℕ (pos_part a * pos_part b + neg_part a * neg_part b)
      (pos_part a * neg_part b + neg_part a * pos_part b)

abbrev pub ◌≤ℤ◌ : ℤ → ℤ → Type 0
a ≤ℤ b = pos_part a + neg_part b ≤ pos_part b + neg_part a

abbrev pub ◌<ℤ◌ : ℤ → ℤ → Type 0
a <ℤ b = pos_part a + neg_part b < pos_part b + neg_part a

abbrev pub ltb_ℤ : ℤ → ℤ → Bool
ltb_ℤ a b = ltb (pos_part a + neg_part b) (pos_part b + neg_part a)

abbrev pub leb_ℤ : ℤ → ℤ → Bool
leb_ℤ a b = leb (pos_part a + neg_part b) (pos_part b + neg_part a)

abbrev pub eqb_ℤ : ℤ → ℤ → Bool
eqb_ℤ a b = pos_part a + neg_part b == pos_part b + neg_part a

-- ceil of a quotient by a positive number
abbrev pub ceil_div : ℤ → ℕ → ℤ
ceil_div (pos n) d = pos ((n + d - 1) / d)
ceil_div (negsuc n) d = sub_ℕ 0 (suc n / d)

-- A number of 32 bits as an `int`.
abbrev pub wrap_int : ℕ → ℤ
wrap_int n = let r : ℕ = n % 2 ^ 32 in if ltb r (2 ^ 31) then pos r else sub_ℕ r (2 ^ 32)

-- An `int` divided by a `size_t`, and assigned to an `int`.
abbrev pub unsigned_div : ℤ → ℕ → ℤ
unsigned_div (pos n) d = wrap_int (n / d)
unsigned_div (negsuc n) d = wrap_int ((2 ^ 64 - suc n) / d)

pub +ℤ_parts :
    (a b : ℤ)
    → pos_part (a +ℤ b) + neg_part a + neg_part b ≡ neg_part (a +ℤ b) + pos_part a + pos_part b
unfolding ◌+ℤ◌
+ℤ_parts a b = ground arith

pub -ℤ_parts :
    (a b : ℤ)
    → pos_part (a -ℤ b) + neg_part a + pos_part b ≡ neg_part (a -ℤ b) + pos_part a + neg_part b
unfolding ◌-ℤ◌
-ℤ_parts a b = ground arith

pub ruleset int_laws = (arith, +ℤ_parts, -ℤ_parts)

pub neg_part-nonneg : (a : ℤ) → pos 0 ≤ℤ a → neg_part a ≡ 0
neg_part-nonneg (pos n) h = omega arith
neg_part-nonneg (negsuc n) h = absurd (omega arith)

pub ltb_ℤ→lt : (a b : ℤ) → ltb_ℤ a b ≡ true → a <ℤ b
ltb_ℤ→lt a b h = ground arith

pub ltb_ℤ→ge : (a b : ℤ) → ltb_ℤ a b ≡ false → b ≤ℤ a
ltb_ℤ→ge a b h = ground arith

pub eqb_ℤ→lt : (a b : ℤ) → eqb_ℤ a b ≡ false → a ≤ℤ b → a <ℤ b
eqb_ℤ→lt a b h k = ground arith

-- A `long` that is converted to an `int`.
unfoldable pub to_int : ℤ → ℤ
to_int (pos n) = wrap_int n
to_int (negsuc n) = wrap_int (2 ^ 64 - suc n)

pub to_int-pos : (n : ℕ) → n < 2 ^ 31 → to_int (pos n) ≡ pos n
unfolding to_int
to_int-pos n small =
    let same : n % 2 ^ 32 ≡ n = omega (arith, small) in rw same (ground (arith, small))

pub to_int-negsuc : (n : ℕ) → n < 2 ^ 31 → to_int (negsuc n) ≡ negsuc n
unfolding to_int
to_int-negsuc n small =
    let r : (2 ^ 64 - suc n) % 2 ^ 32 ≡ 2 ^ 32 - suc n = omega (arith, small) in
    rw r (ground (arith, small))
