-- ===== src/Skewer/Intervals.antt =====
-- The intervals that `set_intervals` builds have their bounds in order.
use zapps.Prelude.{
  ℕ, zero, suc, ◌<◌, ◌≡◌, refl, ◌∙◌, ap, arith, List, [], ◌∷◌, ◌++◌, length, set, Result, ok,
  Bool-cases, inl, inr, ◌&&◌, ◌==◌, length-append, length-set, Bool, true, false,
}
use zapps.Prelude.Int.{ℤ, pos, ◌≤ℤ◌, ◌+ℤ◌, ◌-ℤ◌, ltb_ℤ, eqb_ℤ, int_laws, ltb_ℤ→lt, eqb_ℤ→lt}
use zapps.Skewer.{
  Skewer, push, push_front, push_second, insert_second, wrap_third, wrap, add_interval,
}
use zapps.Skewer.Draws.{Spans, get_elem?-Spans}

length-Spans : (ls us : List ℤ) → Spans ls us → length ls ≡ length us
length-Spans [] [] h = refl
length-Spans [] (u ∷ us) h = absurd h
length-Spans (l ∷ ls) [] h = absurd h
length-Spans (l ∷ ls) (u ∷ us) h = ap suc (length-Spans ls us h.1)

pub append-Spans :
    (ls us : List ℤ) (l u : ℤ) → Spans ls us → l ≤ℤ u → Spans (ls ++ (l ∷ [])) (us ++ (u ∷ []))
append-Spans [] [] l u h e = (e, tt)
append-Spans [] (v ∷ us) l u h e = absurd h
append-Spans (k ∷ ls) [] l u h e = absurd h
append-Spans (k ∷ ls) (v ∷ us) l u h e = (h.0, append-Spans ls us l u h.1 e)

insert_second-Spans :
    (ls us : List ℤ) (l u : ℤ)
    → Spans ls us
    → l ≤ℤ u
    → Spans (insert_second ls l) (insert_second us u)
unfolding insert_second
insert_second-Spans [] [] l u h e = (e, tt)
insert_second-Spans [] (v ∷ us) l u h e = absurd h
insert_second-Spans (k ∷ ls) [] l u h e = absurd h
insert_second-Spans (k ∷ ls) (v ∷ us) l u h e = (h.0, (e, h.1))

length-insert_second : (us : List ℤ) (u : ℤ) → length (insert_second us u) ≡ suc (length us)
unfolding insert_second
length-insert_second [] u = refl
length-insert_second (v ∷ us) u = refl

set-Spans :
    (ls us : List ℤ) (i : ℕ) (l u : ℤ) → Spans ls us → l ≤ℤ u → Spans (set ls i l) (set us i u)
set-Spans [] [] i l u h e = tt
set-Spans [] (v ∷ us) i l u h e = absurd h
set-Spans (k ∷ ls) [] i l u h e = absurd h
set-Spans (k ∷ ls) (v ∷ us) zero l u h e = (e, h.1)
set-Spans (k ∷ ls) (v ∷ us) (suc i) l u h e = (h.0, set-Spans ls us i l u h.1 e)

-- The new intervals are in order, there is one, and all else is as it was.
pub record Grown (s : Skewer) (r : Result Skewer) : Type 0 where
  pub after : Skewer
  pub returns : r ≡ ok after
  pub spans : Spans after.interval_l after.interval_u
  pub some_there : 0 < length after.interval_u
  pub lower : after.lower ≡ s.lower
  pub upper : after.upper ≡ s.upper
  pub outside_l : after.non_interval_l ≡ s.non_interval_l
  pub outside_u : after.non_interval_u ≡ s.non_interval_u

push-Grown :
    (s : Skewer) (l u : ℤ) → Spans s.interval_l s.interval_u → l ≤ℤ u → Grown s (ok (push s l u))
unfolding push
push-Grown s l u spans e = record {
  after = _;
  returns = refl;
  spans = append-Spans s.interval_l s.interval_u l u spans e;
  some_there = omega (arith, length-append s.interval_u (u ∷ []));
  lower = refl;
  upper = refl;
  outside_l = refl;
  outside_u = refl;
}

wrap_third-Grown :
    (s : Skewer) (lower : ℤ)
    → Spans s.interval_l s.interval_u
    → 2 < length s.interval_u
    → lower +ℤ pos 1 ≤ℤ s.upper
    → Grown s (wrap_third s lower)
unfolding wrap_third push
wrap_third-Grown s lower spans three e =
    let (l, u, at_l, at_u, ordered) = get_elem?-Spans s.interval_l s.interval_u 2 spans three in
    rw at_l (elim (Bool-cases (ltb_ℤ l (lower +ℤ pos 1))) [
      | inl before ↦ rw before (push-Grown s (lower +ℤ pos 1) s.upper spans e)
      | inr behind ↦
          rw (behind, at_u)
            record {
              after = _;
              returns = refl;
              spans =
                  set-Spans _ _ 2 _ _ (append-Spans s.interval_l s.interval_u l u spans ordered) e;
              some_there = omega (
                arith,
                length-set (s.interval_u ++ (u ∷ [])) 2 s.upper,
                length-append s.interval_u (u ∷ []),
                three,
              );
              lower = refl;
              upper = refl;
              outside_l = refl;
              outside_u = refl;
            }
    ])

-- What `wrap` starts at the lower boundary.
abbrev rest_of : Skewer → ℤ → ℤ
rest_of s upper = upper -ℤ s.upper -ℤ pos 2 +ℤ s.lower

-- A call that goes on with more intervals.
unfoldable pub regrow :
    (s t : Skewer) {r : Result Skewer}
    → t.lower ≡ s.lower
    → t.upper ≡ s.upper
    → t.non_interval_l ≡ s.non_interval_l
    → t.non_interval_u ≡ s.non_interval_u
    → Grown t r
    → Grown s r
regrow s t lower upper outside_l outside_u g = record {
  after = g.after;
  returns = g.returns;
  spans = g.spans;
  some_there = g.some_there;
  lower = g.lower ∙ lower;
  upper = g.upper ∙ upper;
  outside_l = g.outside_l ∙ outside_l;
  outside_u = g.outside_u ∙ outside_u;
}

wrap-Grown :
    (s : Skewer) (lower upper : ℤ)
    → Spans s.interval_l s.interval_u
    → lower +ℤ pos 1 ≤ℤ s.upper
    → s.lower ≤ℤ rest_of s upper
    → Grown s (wrap s lower upper)
unfolding wrap push push_front push_second
wrap-Grown s lower upper spans below above =
    let rest : ℤ = rest_of s upper in
    let front : Spans (s.lower ∷ s.interval_l) (rest ∷ s.interval_u) = (above, spans) in
    let second = insert_second-Spans s.interval_l s.interval_u s.lower rest spans above in
    let back = append-Spans s.interval_l s.interval_u s.lower rest spans above in
    let same = length-Spans s.interval_l s.interval_u spans in
    elim (Bool-cases (length s.interval_l == 1)) [
      | inl one ↦ rw one (
          regrow s (push_front s s.lower rest) refl refl refl refl
            (push-Grown (push_front s s.lower rest) (lower +ℤ pos 1) s.upper front below))
      | inr more ↦ elim (Bool-cases (length s.interval_l == 2)) [
        | inl two ↦
            let (l0, u0, _, at_u, _) =
              get_elem?-Spans s.interval_l s.interval_u 0 spans (ground (arith, two, same)) in
            rw (more, two, at_u)
              (elim (Bool-cases (ltb_ℤ rest u0)) [
                | inl before ↦ rw before (
                    regrow s (push_front s s.lower rest) refl refl refl refl (
                      wrap_third-Grown (push_front s s.lower rest) lower front
                        (ground (arith, two, same)) below))
                | inr behind ↦ rw behind (
                    regrow s (push_second s s.lower rest) refl refl refl refl (
                      wrap_third-Grown (push_second s s.lower rest) lower second
                        (ground (arith, two, same, length-insert_second s.interval_u rest)) below))
              ])
        | inr other ↦
            rw (more, other)
              (regrow s (push s s.lower rest) refl refl refl refl
                (push-Grown (push s s.lower rest) (lower +ℤ pos 1) s.upper back below))
      ]
    ]

and_right : (a b : Bool) → (a && b) ≡ true → b ≡ true
and_right true b h = h
and_right false b h = cc

and_false : (a b : Bool) → (a && b) ≡ false → b ≡ true → a ≡ false
and_false true b h k = cc
and_false false b h k = refl

-- For a starting point in the area, and an interval that is not empty: an interval is added.
pub add_interval-Grown :
    (s : Skewer) (lower upper : ℤ)
    → Spans s.interval_l s.interval_u
    → lower ≤ℤ s.upper
    → lower +ℤ pos 1 ≤ℤ upper
    → Grown s (add_interval s lower upper)
unfolding add_interval
add_interval-Grown s lower upper spans inside some_wide =
    elim (Bool-cases (eqb_ℤ lower s.upper && ltb_ℤ s.upper (upper -ℤ pos 1))) [
      | inl special ↦
          let over_end =
            ltb_ℤ→lt s.upper (upper -ℤ pos 1)
              (and_right (eqb_ℤ lower s.upper) (ltb_ℤ s.upper (upper -ℤ pos 1)) special) in
          rw special (elim (Bool-cases (ltb_ℤ s.upper (upper -ℤ pos 1 -ℤ pos 1))) [
            | inl over ↦
                let far = ltb_ℤ→lt s.upper (upper -ℤ pos 1 -ℤ pos 1) over in
                rw over (
                  wrap-Grown s (lower -ℤ pos 1) (upper -ℤ pos 1) spans (omega (int_laws, inside))
                    (omega (int_laws, far)))
            | inr fits ↦ rw fits (
                push-Grown s (lower -ℤ pos 1) (upper -ℤ pos 1 -ℤ pos 1) spans
                  (omega (int_laws, inside, over_end)))
          ])
      | inr usual ↦ rw usual (elim (Bool-cases (ltb_ℤ s.upper (upper -ℤ pos 1))) [
        | inl over ↦
            let far = ltb_ℤ→lt s.upper (upper -ℤ pos 1) over in
            let before_end =
              eqb_ℤ→lt lower s.upper
                (and_false (eqb_ℤ lower s.upper) (ltb_ℤ s.upper (upper -ℤ pos 1)) usual over)
                inside in
            rw over (
              wrap-Grown s lower upper spans (omega (int_laws, before_end)) (omega (int_laws, far)))
        | inr fits ↦
            rw fits (push-Grown s lower (upper -ℤ pos 1) spans (omega (int_laws, some_wide)))
      ])
    ]
