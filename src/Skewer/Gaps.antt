-- ===== src/Skewer/Gaps.antt =====
-- The gaps between intervals, and the loop of `set_intervals` that collects them.
use mathlib.Core.List.{append_assoc, append-nil}
use zapps.Prelude.{
  ℕ, suc, ◌+◌, ◌<◌, ◌≡◌, refl, sym, ◌∙◌, ap, arith, List, [], ◌∷◌, ◌++◌, length, some, ok, Bool,
  true, false, if◌then◌else◌, get_elem?, ltb, ◌>>=◌, subst,
}
use zapps.Prelude.Int.{ℤ, pos, ◌+ℤ◌, ◌-ℤ◌, ltb_ℤ}
use zapps.Skewer.{Skewer, push_non, outside_first, outside_behind, set_outside}
use zapps.Skewer.Draws.{Spans}

-- The gap, if there is one.
abbrev pub gap : Bool → ℤ → ℤ → List (ℤ × ℤ)
gap there l u = if there then (l, u) ∷ [] else []

-- The gaps behind the first interval.
abbrev pub gaps_behind : ℤ → ℤ → List ℤ → List ℤ → List (ℤ × ℤ)
gaps_behind upper u [] us = gap (ltb_ℤ u upper) (u +ℤ pos 1) upper
gaps_behind upper u (l ∷ ls) [] = []
gaps_behind upper u (l ∷ ls) (u' ∷ us) =
    gap (ltb_ℤ (u +ℤ pos 1) l) (u +ℤ pos 1) (l -ℤ pos 1) ++ gaps_behind upper u' ls us

-- The gaps of a list of intervals in an area.
abbrev pub gaps : ℤ → ℤ → List ℤ → List ℤ → List (ℤ × ℤ)
gaps lower upper (l ∷ ls) (u ∷ us) =
    gap (ltb_ℤ lower l) lower (l -ℤ pos 1) ++ gaps_behind upper u ls us
gaps lower upper ls us = []

abbrev pub gaps_of : Skewer → List (ℤ × ℤ)
gaps_of s = gaps s.lower s.upper s.interval_l s.interval_u

abbrev pub lows : List (ℤ × ℤ) → List ℤ
lows [] = []
lows ((l, u) ∷ gs) = l ∷ lows gs

abbrev pub highs : List (ℤ × ℤ) → List ℤ
highs [] = []
highs ((l, u) ∷ gs) = u ∷ highs gs

abbrev pub push_all : Skewer → List (ℤ × ℤ) → Skewer
push_all s [] = s
push_all s ((l, u) ∷ gs) = push_all (push_non s l u) gs

pub push_all-lows :
    (s : Skewer) (gs : List (ℤ × ℤ)) → (push_all s gs).non_interval_l ≡ s.non_interval_l ++ lows gs
unfolding push_non
push_all-lows s [] = sym (append-nil s.non_interval_l)
push_all-lows s ((l, u) ∷ gs) =
    push_all-lows (push_non s l u) gs ∙ append_assoc s.non_interval_l (l ∷ []) (lows gs)

pub push_all-highs :
    (s : Skewer) (gs : List (ℤ × ℤ)) → (push_all s gs).non_interval_u ≡ s.non_interval_u ++ highs gs
unfolding push_non
push_all-highs s [] = sym (append-nil s.non_interval_u)
push_all-highs s ((l, u) ∷ gs) =
    push_all-highs (push_non s l u) gs ∙ append_assoc s.non_interval_u (u ∷ []) (highs gs)

-- From an index on, a list is this one.
abbrev Tail : List ℤ → ℕ → List ℤ → Type 0
Tail xs i rest = (j : ℕ) → get_elem? xs (i + j) ≡ get_elem? rest j

Tail-at :
    (xs : List ℤ) (i : ℕ) (x : ℤ) (rest : List ℤ) → Tail xs i (x ∷ rest) → get_elem? xs i ≡ some x
Tail-at xs i x rest h = let e : i ≡ i + 0 = omega arith in ap (get_elem? xs) e ∙ h 0

Tail-next :
    (xs : List ℤ) (i : ℕ) (x : ℤ) (rest : List ℤ) → Tail xs i (x ∷ rest) → Tail xs (i + 1) rest
Tail-next xs i x rest h j =
    let e : i + 1 + j ≡ i + suc j = omega arith in ap (get_elem? xs) e ∙ h (suc j)

-- The skewer after a gap was collected, if there is one.
abbrev with_gap : Bool → Skewer → ℤ → ℤ → Skewer
with_gap there s l u = if there then push_non s l u else s

push_all-gap :
    (there : Bool) (s : Skewer) (l u : ℤ) (gs : List (ℤ × ℤ))
    → push_all s (gap there l u ++ gs) ≡ push_all (with_gap there s l u) gs
push_all-gap true s l u gs = refl
push_all-gap false s l u gs = refl

push_all-one :
    (there : Bool) (s : Skewer) (l u : ℤ) → with_gap there s l u ≡ push_all s (gap there l u)
push_all-one true s l u = refl
push_all-one false s l u = refl

-- Collecting a gap leaves the intervals alone.
SameArea : Skewer → Skewer → Type 0
SameArea s t = (t.interval_l ≡ s.interval_l) × (t.interval_u ≡ s.interval_u) × (t.upper ≡ s.upper)

with_gap-SameArea : (there : Bool) (s : Skewer) (l u : ℤ) → SameArea s (with_gap there s l u)
unfolding SameArea push_non
with_gap-SameArea true s l u = (refl, refl, refl)
with_gap-SameArea false s l u = (refl, refl, refl)

-- The rest of the loop from an interval on, of which the upper bound is `u`.
behind_lem :
    (ls us : List ℤ) (i : ℕ) (u l0 : ℤ) (s : Skewer)
    → Spans ls us
    → Tail s.interval_l i (l0 ∷ ls)
    → Tail s.interval_u i (u ∷ us)
    → length s.interval_u ≡ i + suc (length us)
    → (outside_behind s i >>= λ t. set_outside (length us) (suc i) t)
      ≡ ok (push_all s (gaps_behind s.upper u ls us))
unfolding outside_behind set_outside outside_first SameArea
behind_lem [] [] i u l0 s spans tail_l tail_u size =
    let last : ltb (i + 1) (length s.interval_u) ≡ false = ground (arith, size) in
    rw (Tail-at s.interval_u i u [] tail_u, last)
      (ap ok (push_all-one (ltb_ℤ u s.upper) s (u +ℤ pos 1) s.upper))
behind_lem [] (u' ∷ us) i u l0 s spans tail_l tail_u size = absurd spans
behind_lem (l ∷ ls) [] i u l0 s spans tail_l tail_u size = absurd spans
behind_lem (l ∷ ls) (u' ∷ us) i u l0 s spans tail_l tail_u size =
    let further : ltb (i + 1) (length s.interval_u) ≡ true = ground (arith, size) in
    let next_l = Tail-next s.interval_l i l0 (l ∷ ls) tail_l in
    let next_u = Tail-next s.interval_u i u (u' ∷ us) tail_u in
    let there : Bool = ltb_ℤ (u +ℤ pos 1) l in
    let s' : Skewer = with_gap there s (u +ℤ pos 1) (l -ℤ pos 1) in
    let (same_l, same_u, same_upper) = with_gap-SameArea there s (u +ℤ pos 1) (l -ℤ pos 1) in
    let step_i : i + 1 ≡ suc i = omega arith in
    let rest =
      behind_lem ls us (suc i) u' l s' spans.1
        (subst (λ xs. Tail xs (suc i) (l ∷ ls)) (sym same_l)
          (subst (λ n. Tail s.interval_l n (l ∷ ls)) step_i next_l))
        (subst (λ xs. Tail xs (suc i) (u' ∷ us)) (sym same_u)
          (subst (λ n. Tail s.interval_u n (u' ∷ us)) step_i next_u))
        (omega (arith, size, ap length same_u)) in
    rw
      (Tail-at s.interval_u i u (u' ∷ us) tail_u, further, Tail-at s.interval_l (i + 1) l ls next_l)
      (rest
        ∙ ap (λ x. ok (push_all s' (gaps_behind x u' ls us))) same_upper
        ∙ ap ok
            (sym (push_all-gap there s (u +ℤ pos 1) (l -ℤ pos 1) (gaps_behind s.upper u' ls us))))

set_outside_at :
    (ls us : List ℤ) (s : Skewer)
    → s.interval_l ≡ ls
    → s.interval_u ≡ us
    → Spans ls us
    → 0 < length us
    → set_outside (length us) 0 s ≡ ok (push_all s (gaps s.lower s.upper ls us))
unfolding set_outside outside_first SameArea
set_outside_at ls [] s at_l at_u spans some_there = absurd (omega arith)
set_outside_at [] (u ∷ us) s at_l at_u spans some_there = absurd spans
set_outside_at (l ∷ ls) (u ∷ us) s at_l at_u spans some_there =
    let there : Bool = ltb_ℤ s.lower l in
    let s' : Skewer = with_gap there s s.lower (l -ℤ pos 1) in
    let (same_l, same_u, same_upper) = with_gap-SameArea there s s.lower (l -ℤ pos 1) in
    let first : get_elem? s.interval_l 0 ≡ some l = ap (λ xs. get_elem? xs 0) at_l in
    let rest =
      behind_lem ls us 0 u l s' spans.1
        (λ j.
          ap (λ xs. get_elem? xs (0 + j)) (same_l ∙ at_l) ∙ ap (get_elem? (l ∷ ls)) (omega arith))
        (λ j.
          ap (λ xs. get_elem? xs (0 + j)) (same_u ∙ at_u) ∙ ap (get_elem? (u ∷ us)) (omega arith))
        (omega (arith, ap length same_u, ap length at_u)) in
    rw first (
      rest
      ∙ ap (λ x. ok (push_all s' (gaps_behind x u ls us))) same_upper
      ∙ ap ok (sym (push_all-gap there s s.lower (l -ℤ pos 1) (gaps_behind s.upper u ls us))))

pub set_outside_lem :
    (s : Skewer)
    → Spans s.interval_l s.interval_u
    → 0 < length s.interval_u
    → set_outside (length s.interval_u) 0 s ≡ ok (push_all s (gaps_of s))
set_outside_lem s spans some_there =
    set_outside_at s.interval_l s.interval_u s refl refl spans some_there
