-- ===== src/Skewer/Outside.antt =====
-- `set_intervals` as a whole: the intervals, and what lies outside of them.
use zapps.Prelude.{
  ◌++◌, ok-inj, ℕ, zero, suc, ◌+◌, ◌≤◌, ◌<◌, ◌≡◌, refl, ◌∙◌, ap, arith, List, length, Result, ok,
  Bool-cases, inl, inr, ltb, ◌*◌, subst, if◌then◌else◌, sym, ◌^◌,
}
use zapps.Prelude.Int.{
  to_int, to_int-pos, ◌<ℤ◌, ℤ, pos, ◌≤ℤ◌, ◌+ℤ◌, ◌-ℤ◌, ltb_ℤ, int_laws, ltb_ℤ→lt, negsuc, ◌*ℤ◌,
  ceil_div,
}
use zapps.Skewer.{
  Skewer, push_non, outside_first, outside_behind, set_outside, Source, one_spot, two_spots,
  set_intervals,
}
use zapps.Skewer.Gaps.{
  lows, highs, gaps, gaps_of, push_all, push_all-lows, push_all-highs, set_outside_lem,
}
use zapps.Skewer.Draws.{Spans, get_elem?-Spans}
use zapps.Skewer.Intervals.{append-Spans, Grown, regrow, add_interval-Grown}
use zapps.Random.{urand-DrawsIn, Source}

-- What is outside is in order, and the intervals are as they were.
record Framed (s : Skewer) (r : Result Skewer) : Type 0 where
  pub after : Skewer
  pub returns : r ≡ ok after
  pub outside : Spans after.non_interval_l after.non_interval_u
  pub inside_l : after.interval_l ≡ s.interval_l
  pub inside_u : after.interval_u ≡ s.interval_u
  pub lower : after.lower ≡ s.lower
  pub upper : after.upper ≡ s.upper

same-Framed : (s : Skewer) → Spans s.non_interval_l s.non_interval_u → Framed s (ok s)
same-Framed s outside = record {
  after = s;
  returns = refl;
  outside = outside;
  inside_l = refl;
  inside_u = refl;
  lower = refl;
  upper = refl;
}

push_non-Framed :
    (s : Skewer) (l u : ℤ)
    → Spans s.non_interval_l s.non_interval_u
    → l ≤ℤ u
    → Framed s (ok (push_non s l u))
unfolding push_non
push_non-Framed s l u outside e = record {
  after = _;
  returns = refl;
  outside = append-Spans s.non_interval_l s.non_interval_u l u outside e;
  inside_l = refl;
  inside_u = refl;
  lower = refl;
  upper = refl;
}

outside_first-Framed :
    (s : Skewer) (i : ℕ)
    → Spans s.interval_l s.interval_u
    → Spans s.non_interval_l s.non_interval_u
    → 0 < length s.interval_u
    → Framed s (outside_first s i)
unfolding outside_first
outside_first-Framed s (suc i) inside outside some_there = same-Framed s outside
outside_first-Framed s zero inside outside some_there =
    let (l, _, at_l, _, _) = get_elem?-Spans s.interval_l s.interval_u 0 inside some_there in
    rw at_l (elim (Bool-cases (ltb_ℤ s.lower l)) [
      | inl gap ↦
          let h = ltb_ℤ→lt s.lower l gap in
          rw gap (push_non-Framed s s.lower (l -ℤ pos 1) outside (omega (int_laws, h)))
      | inr none_left ↦ rw none_left (same-Framed s outside)
    ])

outside_behind-Framed :
    (s : Skewer) (i : ℕ)
    → Spans s.interval_l s.interval_u
    → Spans s.non_interval_l s.non_interval_u
    → i < length s.interval_u
    → Framed s (outside_behind s i)
unfolding outside_behind
outside_behind-Framed s i inside outside in_range =
    let (_, u, _, at_u, _) = get_elem?-Spans s.interval_l s.interval_u i inside in_range in
    rw at_u (elim (Bool-cases (ltb (i + 1) (length s.interval_u))) [
      | inl further ↦
          let (l, _, at_l, _, _) =
            get_elem?-Spans s.interval_l s.interval_u (i + 1) inside (ground (arith, further)) in
          rw (further, at_l)
            (elim (Bool-cases (ltb_ℤ (u +ℤ pos 1) l)) [
              | inl gap ↦
                  let h = ltb_ℤ→lt (u +ℤ pos 1) l gap in
                  rw gap (push_non-Framed s (u +ℤ pos 1) (l -ℤ pos 1) outside (omega (int_laws, h)))
              | inr none_left ↦ rw none_left (same-Framed s outside)
            ])
      | inr last ↦ rw last (elim (Bool-cases (ltb_ℤ u s.upper)) [
        | inl gap ↦
            let h = ltb_ℤ→lt u s.upper gap in
            rw gap (push_non-Framed s (u +ℤ pos 1) s.upper outside (omega (int_laws, h)))
        | inr none_left ↦ rw none_left (same-Framed s outside)
      ])
    ])

set_outside-Framed :
    (count i : ℕ) (s : Skewer)
    → Spans s.interval_l s.interval_u
    → Spans s.non_interval_l s.non_interval_u
    → i + count ≤ length s.interval_u
    → Framed s (set_outside count i s)
unfolding set_outside
set_outside-Framed zero i s inside outside h = same-Framed s outside
set_outside-Framed (suc count) i s inside outside h =
    let a = outside_first-Framed s i inside outside (omega arith) in
    let inside_a = Spans-eq inside a.inside_l a.inside_u in
    let b =
      outside_behind-Framed a.after i inside_a a.outside (omega (arith, ap length a.inside_u)) in
    let inside_b = Spans-eq inside_a b.inside_l b.inside_u in
    let c =
      set_outside-Framed count (suc i) b.after inside_b b.outside
        (omega (arith, ap length a.inside_u, ap length b.inside_u)) in
    record {
      after = c.after;
      returns = rw (a.returns, b.returns) c.returns;
      outside = c.outside;
      inside_l = c.inside_l ∙ b.inside_l ∙ a.inside_l;
      inside_u = c.inside_u ∙ b.inside_u ∙ a.inside_u;
      lower = c.lower ∙ b.lower ∙ a.lower;
      upper = c.upper ∙ b.upper ∙ a.upper;
    }
  where
    Spans-eq : {ls us ls' us' : List ℤ} → Spans ls us → ls' ≡ ls → us' ≡ us → Spans ls' us'
    Spans-eq h el eu = rw (el, eu) h

positive : (a : ℤ) → pos 1 ≤ℤ a → (n : ℕ) × (a ≡ pos (suc n))
positive (pos zero) h = absurd (omega arith)
positive (pos (suc n)) h = (n, refl)
positive (negsuc n) h = absurd (omega arith)

product-positive : (a b : ℤ) → pos 1 ≤ℤ a → pos 1 ≤ℤ b → (n : ℕ) × (a *ℤ b ≡ pos (suc n))
unfolding ◌*ℤ◌
product-positive a b h k =
    let (m, ea) = positive a h in
    let (n, eb) = positive b k in (m * suc n + n, rw (ea, eb) grind arith)

-- An area of at least one percent covers at least one number.
width-positive :
    (a b : ℤ)
    → pos 1 ≤ℤ a
    → pos 1 ≤ℤ b
    → a *ℤ b <ℤ pos (2 ^ 31)
    → (pos 1 ≤ℤ ceil_div (to_int (a *ℤ b)) 100) × (pos 1 ≤ℤ ceil_div (to_int (a *ℤ b)) 200)
width-positive a b h k small =
    let (n, e) = product-positive a b h k in
    let below : pos (suc n) <ℤ pos (2 ^ 31) = subst (λ z. z <ℤ pos (2 ^ 31)) e small in
    let bound : suc n < 2 ^ 31 = omega (arith, below) in
    let exact : to_int (a *ℤ b) ≡ pos (suc n) = ap to_int e ∙ to_int-pos (suc n) bound in
    rw exact (omega arith, omega arith)

-- Intervals are added with some numbers drawn.
abbrev Spotted : {G : Type 0} → Skewer → Result (Skewer × G) → Type 0
Spotted {G = G} s r =
    (added : Result Skewer) × (d : Grown s added) × (g : G) × (r ≡ ok (d.after, g))

module _ {G : Type 0} (source : Source G) where
  one_spot-Grown :
      (s : Skewer) (g : G)
      → Spans s.interval_l s.interval_u
      → s.lower ≤ℤ s.upper
      → pos 1 ≤ℤ s.area
      → (s.upper -ℤ s.lower +ℤ pos 1) *ℤ s.area <ℤ pos (2 ^ 31)
      → Spotted s (one_spot source s g)
  unfolding one_spot
  one_spot-Grown s g spans area percent small =
      let (lower, g1, e1, low, high) = urand-DrawsIn source s.lower s.upper g area in
      let wide =
        width-positive (s.upper -ℤ s.lower +ℤ pos 1) s.area (omega (int_laws, area)) percent
          small in
      let d =
        add_interval-Grown s lower
          (lower +ℤ ceil_div (to_int ((s.upper -ℤ s.lower +ℤ pos 1) *ℤ s.area)) 100) spans high
          (omega (int_laws, wide.0)) in
      (_, d, g1, rw (e1, d.returns) refl)

  two_spots-Grown :
      (s : Skewer) (g : G)
      → Spans s.interval_l s.interval_u
      → s.lower ≤ℤ s.upper
      → pos 1 ≤ℤ s.area
      → (s.upper -ℤ s.lower +ℤ pos 1) *ℤ s.area <ℤ pos (2 ^ 31)
      → Spotted s (two_spots source s g)
  unfolding two_spots regrow
  two_spots-Grown s g spans area percent small =
      let width : ℤ = to_int ((s.upper -ℤ s.lower +ℤ pos 1) *ℤ s.area) in
      let wide =
        width-positive (s.upper -ℤ s.lower +ℤ pos 1) s.area (omega (int_laws, area)) percent
          small in
      let (lower, g1, e1, low, high) = urand-DrawsIn source s.lower s.upper g area in
      let (lower_2, g2, e2, low_2, high_2) = urand-DrawsIn source lower s.upper g1 high in
      let d =
        add_interval-Grown s lower (lower +ℤ ceil_div width 200) spans high
          (omega (int_laws, wide.1)) in
      let d2 =
        add_interval-Grown d.after lower_2 (lower_2 +ℤ ceil_div width 200) d.spans
          (subst (λ u. lower_2 ≤ℤ u) (sym d.upper) high_2) (omega (int_laws, wide.1)) in
      (
        _,
        regrow s d.after d.lower d.upper d.outside_l d.outside_u d2,
        g2,
        rw (e1, e2, d.returns, d2.returns) refl,
      )

  spots-Grown :
      (s : Skewer) (r : ℤ) (g : G)
      → Spans s.interval_l s.interval_u
      → s.lower ≤ℤ s.upper
      → pos 1 ≤ℤ s.area
      → (s.upper -ℤ s.lower +ℤ pos 1) *ℤ s.area <ℤ pos (2 ^ 31)
      → Spotted s ((if ltb_ℤ r (pos 70) then one_spot source s else two_spots source s) g)
  spots-Grown s r g spans area percent small = elim (Bool-cases (ltb_ℤ r (pos 70))) [
    | inl one ↦ rw one (one_spot-Grown s g spans area percent small)
    | inr two ↦ rw two (two_spots-Grown s g spans area percent small)
  ]

  -- For an area that is not empty, a share of at least one percent of it, a product of the two that
  -- is an `int`, and intervals that are not inverted, as those of a skewer just cleared are:
  -- `set_intervals` returns, with at least one interval, in the same area; no interval is inverted,
  -- inside or outside; and what it adds outside are the gaps before, between and behind the
  -- intervals, as they follow each other in their list.
  pub set_intervals-Spans :
      (s : Skewer) (g : G)
      → s.lower ≤ℤ s.upper
      → pos 1 ≤ℤ s.area
      → (s.upper -ℤ s.lower +ℤ pos 1) *ℤ s.area <ℤ pos (2 ^ 31)
      → Spans s.interval_l s.interval_u
      → Spans s.non_interval_l s.non_interval_u
      → (t : Skewer) × (g' : G) × (set_intervals source s g ≡ ok (t, g'))
        × Spans t.interval_l t.interval_u
        × Spans t.non_interval_l t.non_interval_u
        × (0 < length t.interval_u)
        × (t.lower ≡ s.lower)
        × (t.upper ≡ s.upper)
        × (t.non_interval_l
            ≡ s.non_interval_l ++ lows (gaps s.lower s.upper t.interval_l t.interval_u))
        × (t.non_interval_u
            ≡ s.non_interval_u ++ highs (gaps s.lower s.upper t.interval_l t.interval_u))
  unfolding set_intervals
  set_intervals-Spans s g area percent small inside outside =
      let (r, g1, e1, _, _) = urand-DrawsIn source (pos 1) (pos 100) g (omega arith) in
      let (_, d, g2, e2) = spots-Grown s r g1 inside area percent small in
      let outside_d : Spans d.after.non_interval_l d.after.non_interval_u =
        subst (λ us. Spans d.after.non_interval_l us) (sym d.outside_u)
          (subst (λ ls. Spans ls s.non_interval_u) (sym d.outside_l) outside) in
      let f =
        set_outside-Framed (length d.after.interval_u) 0 d.after d.spans outside_d (omega arith) in
      let known = set_outside_lem d.after d.spans d.some_there in
      let same : f.after ≡ push_all d.after (gaps_of d.after) = ok-inj (sym f.returns ∙ known) in
      let between : gaps_of d.after ≡ gaps s.lower s.upper f.after.interval_l f.after.interval_u =
        rw (d.lower, d.upper, f.inside_l, f.inside_u) refl in
      (
        f.after,
        g2,
        rw (e1, e2, f.returns) refl,
        subst (λ us. Spans f.after.interval_l us) (sym f.inside_u)
            (subst (λ ls. Spans ls d.after.interval_u) (sym f.inside_l) d.spans),
        f.outside,
        omega (arith, ap length f.inside_u, d.some_there),
        f.lower ∙ d.lower,
        f.upper ∙ d.upper,
        ap (λ x. x.non_interval_l) same
            ∙ push_all-lows d.after (gaps_of d.after)
            ∙ ap (λ x. x ++ lows (gaps_of d.after)) d.outside_l
            ∙ ap (λ x. s.non_interval_l ++ lows x) between,
        ap (λ x. x.non_interval_u) same
            ∙ push_all-highs d.after (gaps_of d.after)
            ∙ ap (λ x. x ++ highs (gaps_of d.after)) d.outside_u
            ∙ ap (λ x. s.non_interval_u ++ highs x) between,
      )
