-- ===== src/Skewer/Draws.antt =====
-- What `get_input` draws.
use zapps.Prelude.{
  ℕ, zero, suc, ◌+◌, ◌≤◌, ◌<◌, ◌≡◌, refl, arith, false, List, [], ◌∷◌, length, get_elem?, Option,
  some, none, Result, ok, err, Bool-cases, inl, inr, ◌||◌, division_by_zero,
}
use zapps.Prelude.Int.{ℤ, pos, ◌≤ℤ◌, ◌-ℤ◌, ◌*ℤ◌, ltb_ℤ}
use zapps.Random.{Source, DrawsIn, uzrand-DrawsIn, urand-DrawsIn}
use zapps.Skewer.{Skewer, pick, share, pick_outside, choose, settle, get_input}

-- Intervals, each with its lower bound below its upper one.
abbrev pub Spans : List ℤ → List ℤ → Type 0
Spans [] [] = Unit {0}
Spans [] (u ∷ us) = ⊥
Spans (l ∷ ls) [] = ⊥
Spans (l ∷ ls) (u ∷ us) = (l ≤ℤ u) × Spans ls us

pub get_elem?-Spans :
    (ls us : List ℤ) (i : ℕ)
    → Spans ls us
    → i < length us
    → (l : ℤ) × (u : ℤ) × (get_elem? ls i ≡ some l) × (get_elem? us i ≡ some u) × (l ≤ℤ u)
get_elem?-Spans [] [] i spans h = absurd (omega arith)
get_elem?-Spans [] (u ∷ us) i spans h = absurd spans
get_elem?-Spans (l ∷ ls) [] i spans h = absurd spans
get_elem?-Spans (l ∷ ls) (u ∷ us) zero spans h = (l, u, refl, refl, spans.0)
get_elem?-Spans (l ∷ ls) (u ∷ us) (suc i) spans h = get_elem?-Spans ls us i spans.1 (omega arith)

share-ok : (load : ℤ) (n : ℕ) → 0 < n → (part : ℤ) × (share load n ≡ ok part)
unfolding share
share-ok load zero h = absurd (omega arith)
share-ok load (suc n) h = (_, refl)

module _ {G : Type 0} (s : Source G) (uniform : s.zipf_enabled ≡ false) where
  abbrev Draws : {A : Type 0} → Result (A × G) → Type 0
  Draws {A} r = (x : A) × (g : G) × (r ≡ ok (x, g))

  pick-Draws :
      (r load : ℤ) (ls us : List ℤ) (count i : ℕ) (g : G)
      → Spans ls us
      → i + count ≤ length us
      → Draws (pick s r load ls us count i g)
  unfolding pick
  pick-Draws r load ls us zero i g spans h = (none, g, refl)
  pick-Draws r load ls us (suc count) i g spans h =
      elim (Bool-cases (ltb_ℤ r (load *ℤ pos (i + 1)))) [
        | inl here ↦
            let (l, u, lower, upper, ordered) = get_elem?-Spans ls us i spans (omega arith) in
            let (x, g', drawn, _, _) = uzrand-DrawsIn s l u g uniform ordered in
            (some x, g', rw (here, lower, upper, drawn) refl)
        | inr further ↦ rw further (pick-Draws r load ls us count (suc i) g spans (omega arith))
      ]

  settle-DrawsIn :
      (k : Skewer) (x : Option ℤ) (g : G)
      → k.lower ≤ℤ k.upper
      → DrawsIn s (settle s k x g) k.lower k.upper
  unfolding settle
  settle-DrawsIn k none g area = uzrand-DrawsIn s k.lower k.upper g uniform area
  settle-DrawsIn k (some x) g area = elim (Bool-cases (ltb_ℤ x k.lower || ltb_ℤ k.upper x)) [
    | inl outside ↦ rw outside (uzrand-DrawsIn s k.lower k.upper g uniform area)
    | inr inside ↦ (x, g, rw inside refl, ground (arith, inside), ground (arith, inside))
  ]

  pick_outside-Draws :
      (k : Skewer) (r load : ℤ) (x : Option ℤ) (g : G)
      → Spans k.non_interval_l k.non_interval_u
      → Draws (pick_outside s k r load x g)
  unfolding pick_outside
  pick_outside-Draws k r load (some x) g spans = (some x, g, refl)
  pick_outside-Draws k r load none g spans =
      pick-Draws (r -ℤ k.load) load k.non_interval_l k.non_interval_u (length k.non_interval_u) 0 g
        spans (omega arith)

  choose-Draws :
      (k : Skewer) (r : ℤ) (g : G)
      → Spans k.interval_l k.interval_u
      → Spans k.non_interval_l k.non_interval_u
      → 0 < length k.interval_u
      → 0 < length k.non_interval_u
      → Draws (choose s k r g)
  unfolding choose
  choose-Draws k r g inside outside some_inside some_outside =
      let (load, e1) = share-ok k.load (length k.interval_u) some_inside in
      let (load2, e2) = share-ok (pos 100 -ℤ k.load) (length k.non_interval_u) some_outside in
      let (x, g1, e3) =
        pick-Draws r load k.interval_l k.interval_u (length k.interval_u) 0 g inside
          (omega arith) in
      let (y, g2, e4) = pick_outside-Draws k r load2 x g1 outside in (y, g2, rw (e1, e3, e2) e4)

  -- Without Zipf, for an area that is not empty, with some intervals in it and some outside, each
  -- with its bounds in order: `get_input` returns a number of the area.
  pub get_input-DrawsIn :
      (k : Skewer) (g : G)
      → k.lower ≤ℤ k.upper
      → Spans k.interval_l k.interval_u
      → Spans k.non_interval_l k.non_interval_u
      → 0 < length k.interval_u
      → 0 < length k.non_interval_u
      → DrawsIn s (get_input s k g) k.lower k.upper
  unfolding get_input
  get_input-DrawsIn k g area inside outside some_inside some_outside =
      let (r, g1, e1, _, _) = urand-DrawsIn s (pos 1) (pos 100) g (omega arith) in
      let (x, g2, e2) = choose-Draws k r g1 inside outside some_inside some_outside in
      let (y, g3, e3, low, high) = settle-DrawsIn k x g2 area in (y, g3, rw (e1, e2) e3, low, high)

  -- Without Zipf, and with intervals that leave nothing of the area outside: `get_input` divides
  -- by zero, whatever is drawn.
  pub get_input-no_outside :
      (k : Skewer) (g : G)
      → Spans k.interval_l k.interval_u
      → 0 < length k.interval_u
      → k.non_interval_u ≡ []
      → get_input s k g ≡ err division_by_zero
  unfolding get_input choose share
  get_input-no_outside k g inside some_inside none_outside =
      let (r, g1, e1, _, _) = urand-DrawsIn s (pos 1) (pos 100) g (omega arith) in
      let (load, e2) = share-ok k.load (length k.interval_u) some_inside in
      let (x, g2, e3) =
        pick-Draws r load k.interval_l k.interval_u (length k.interval_u) 0 g1 inside
          (omega arith) in
      rw (e1, e2, e3, none_outside) refl
