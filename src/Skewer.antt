-- ===== src/Skewer.antt =====
-- Skewed inputs: src/kits/skewer.h and src/kits/skewer.cpp.
-- Numbers are integers without a bound, but for the `int` product of the width and the area, which
-- wraps; by the standard an overflow is undefined. The areas are rounded up from exact quotients, where the
-- code computes them as doubles.
pub mod Draws
pub mod Intervals
pub mod Gaps
pub mod Outside
use zapps.Prelude.{
  ℕ, zero, suc, ◌+◌, Bool, true, false, List, [], ◌∷◌, ◌++◌, if◌then◌else◌, ◌&&◌, ◌||◌, not, length,
  get_elem?, set, Result, ok, err, deref, ◌==◌, ltb, division_by_zero,
}
use zapps.Prelude as Base
use zapps.Prelude.Int.{to_int, unsigned_div, ℤ, pos, ◌+ℤ◌, ◌-ℤ◌, ◌*ℤ◌, ltb_ℤ, eqb_ℤ, ceil_div}
use zapps.Random.{Source, Draw, urand, pure, lift, ◌>>=◌, uzrand}

pub data SkewType : Type 0 where
  skew_none skew_normal skew_dynamic skew_chaotic : SkewType

pub record Skewer : Type 0 where
  pub area : ℤ
  pub load : ℤ
  pub lower : ℤ
  pub upper : ℤ
  pub interval_l : List ℤ
  pub interval_u : List ℤ
  pub non_interval_l : List ℤ
  pub non_interval_u : List ℤ
  pub used : Bool

unfoldable pub clear : Skewer → Skewer
clear s = record s {
  interval_l = [];
  interval_u = [];
  non_interval_l = [];
  non_interval_u = [];
  used = false;
}

unfoldable pub is_used : Skewer → Bool × Skewer
is_used s = if not s.used then (false, record s { used = true }) else (true, s)

-- push_back on both vectors
push : Skewer → ℤ → ℤ → Skewer
push s l u = record s {
  interval_l = s.interval_l ++ (l ∷ []);
  interval_u = s.interval_u ++ (u ∷ []);
}

-- insert at the beginning of both vectors
push_front : Skewer → ℤ → ℤ → Skewer
push_front s l u = record s { interval_l = l ∷ s.interval_l; interval_u = u ∷ s.interval_u }

insert_second : {A : Type 0} → List A → A → List A
insert_second [] a = a ∷ []
insert_second (x ∷ xs) a = x ∷ a ∷ xs

-- insert behind the first element of both vectors
push_second : Skewer → ℤ → ℤ → Skewer
unfolding insert_second
push_second s l u = record s {
  interval_l = insert_second s.interval_l l;
  interval_u = insert_second s.interval_u u;
}

-- The last of two intervals runs over the upper boundary, and two are there already.
wrap_third : Skewer → ℤ → Result Skewer
unfolding push
wrap_third s lower = Base.◌>>=◌ (deref (get_elem? s.interval_l 2)) (λ l.
    if ltb_ℤ l (lower +ℤ pos 1)
    then ok (push s (lower +ℤ pos 1) s.upper)
    else Base.◌>>=◌ (deref (get_elem? s.interval_u 2)) (λ u.
      let t : Skewer = push s l u in
      ok (record t {
        interval_l = set t.interval_l 2 (lower +ℤ pos 1);
        interval_u = set t.interval_u 2 s.upper;
      })))

-- An interval that runs over the upper boundary goes on at the lower one.
unfoldable pub wrap : Skewer → ℤ → ℤ → Result Skewer
unfolding push push_front push_second wrap_third
wrap s lower upper =
    let rest : ℤ = upper -ℤ s.upper -ℤ pos 2 +ℤ s.lower in
    if length s.interval_l == 1
    then ok (push (push_front s s.lower rest) (lower +ℤ pos 1) s.upper)
    else if length s.interval_l == 2
    then Base.◌>>=◌ (deref (get_elem? s.interval_u 0)) (λ u0.
      if ltb_ℤ rest u0
      then wrap_third (push_front s s.lower rest) lower
      else wrap_third (push_second s s.lower rest) lower)
    else ok (push (push s s.lower rest) (lower +ℤ pos 1) s.upper)

unfoldable pub add_interval : Skewer → ℤ → ℤ → Result Skewer
unfolding push wrap
add_interval s interval_lower interval_upper =
    let special = eqb_ℤ interval_lower s.upper && ltb_ℤ s.upper (interval_upper -ℤ pos 1) in
    let lower : ℤ = if special then interval_lower -ℤ pos 1 else interval_lower in
    let upper : ℤ = if special then interval_upper -ℤ pos 1 else interval_upper in
    if ltb_ℤ s.upper (upper -ℤ pos 1)
    then wrap s lower upper
    else ok (push s lower (upper -ℤ pos 1))

unfoldable pub push_non : Skewer → ℤ → ℤ → Skewer
push_non s l u = record s {
  non_interval_l = s.non_interval_l ++ (l ∷ []);
  non_interval_u = s.non_interval_u ++ (u ∷ []);
}

-- What lies before the first interval.
unfoldable pub outside_first : Skewer → ℕ → Result Skewer
unfolding push_non
outside_first s zero =
    Base.◌>>=◌ (deref (get_elem? s.interval_l 0))
      (λ l. ok (if ltb_ℤ s.lower l then push_non s s.lower (l -ℤ pos 1) else s))
outside_first s (suc i) = ok s

-- What lies behind interval `i`, up to the next one or to the upper boundary.
unfoldable pub outside_behind : Skewer → ℕ → Result Skewer
unfolding push_non
outside_behind s i = Base.◌>>=◌ (deref (get_elem? s.interval_u i)) (λ u.
    if ltb (i + 1) (length s.interval_u)
    then Base.◌>>=◌ (deref (get_elem? s.interval_l (i + 1)))
        (λ l. ok (if ltb_ℤ (u +ℤ pos 1) l then push_non s (u +ℤ pos 1) (l -ℤ pos 1) else s))
    else ok (if ltb_ℤ u s.upper then push_non s (u +ℤ pos 1) s.upper else s))

-- The loop for the outside of the intervals, from interval `i` on; `count` of them are left.
unfoldable pub set_outside : ℕ → ℕ → Skewer → Result Skewer
unfolding outside_first outside_behind
set_outside zero i s = ok s
set_outside (suc count) i s =
    Base.◌>>=◌ (outside_first s i)
      (λ s1. Base.◌>>=◌ (outside_behind s1 i) (λ s2. set_outside count (suc i) s2))

-- A share of the load for each of `n` intervals.
unfoldable pub share : ℤ → ℕ → Result ℤ
share load zero = err division_by_zero
share load (suc n) = ok (unsigned_div load (suc n))

module _ {G : Type 0} (source : Source G) where
  one_spot : Skewer → Draw G Skewer
  unfolding add_interval
  one_spot s = do
    lower ← urand source s.lower s.upper
    lift (
        add_interval s lower
          (lower +ℤ ceil_div (to_int ((s.upper -ℤ s.lower +ℤ pos 1) *ℤ s.area)) 100))

  two_spots : Skewer → Draw G Skewer
  unfolding add_interval
  two_spots s = do
    let interval : ℤ = ceil_div (to_int ((s.upper -ℤ s.lower +ℤ pos 1) *ℤ s.area)) 200
    lower ← urand source s.lower s.upper
    lower_2 ← urand source lower s.upper
    t ← lift (add_interval s lower (lower +ℤ interval))
    lift (add_interval t lower_2 (lower_2 +ℤ interval))

  unfoldable pub set_intervals : Skewer → Draw G Skewer
  unfolding one_spot two_spots set_outside
  set_intervals s = do
    r ← urand source (pos 1) (pos 100)
    t ← (if ltb_ℤ r (pos 70) then one_spot s else two_spots s)
    lift (set_outside (length t.interval_u) 0 t)

  -- `set`, for a skewer that is there already.
  unfoldable pub set_skewer : Skewer → ℤ → ℤ → ℤ → ℤ → Draw G Skewer
  unfolding clear set_intervals
  set_skewer s area lower upper load =
      set_intervals (clear (record s { area = area; lower = lower; upper = upper; load = load }))

  chaotic : SkewType → Skewer → Draw G Skewer
  chaotic skew_chaotic s = do
    load ← urand source (pos 0) (pos 100)
    area ← urand source (pos 1) (pos 100)
    pure (record s { load = load; area = area })
  chaotic type s = pure s

  unfoldable pub reset : SkewType → Skewer → Draw G Skewer
  unfolding clear chaotic set_intervals
  reset type s = do t ← chaotic type (clear s); u ← set_intervals t; pure (record u { used = true })

  -- A loop over the intervals: the first one whose share of the load covers `r`.
  unfoldable pub pick : ℤ → ℤ → List ℤ → List ℤ → ℕ → ℕ → Draw G (Base.Option ℤ)
  pick r load ls us zero i = pure Base.none
  pick r load ls us (suc count) i =
      if ltb_ℤ r (load *ℤ pos (i + 1))
      then (do
        l ← lift (deref (get_elem? ls i))
        u ← lift (deref (get_elem? us i))
        x ← uzrand source l u
        pure (Base.some x))
      else pick r load ls us count (suc i)

  -- The second loop runs only if the first has chosen nothing.
  unfoldable pub pick_outside : Skewer → ℤ → ℤ → Base.Option ℤ → Draw G (Base.Option ℤ)
  unfolding pick
  pick_outside s r load (Base.some x) = pure (Base.some x)
  pick_outside s r load Base.none =
      pick (r -ℤ s.load) load s.non_interval_l s.non_interval_u (length s.non_interval_u) 0

  -- Both shares are computed, also if the first loop has chosen.
  unfoldable pub choose : Skewer → ℤ → Draw G (Base.Option ℤ)
  unfolding pick share pick_outside
  choose s r = do
    load ← lift (share s.load (length s.interval_u))
    x ← pick r load s.interval_l s.interval_u (length s.interval_u) 0
    load2 ← lift (share (pos 100 -ℤ s.load) (length s.non_interval_u))
    pick_outside s r load2 x

  unfoldable pub settle : Skewer → Base.Option ℤ → Draw G ℤ
  settle s Base.none = uzrand source s.lower s.upper
  settle s (Base.some x) =
      if ltb_ℤ x s.lower || ltb_ℤ s.upper x then uzrand source s.lower s.upper else pure x

  unfoldable pub get_input : Skewer → Draw G ℤ
  unfolding choose settle
  get_input s = do r ← urand source (pos 1) (pos 100); x ← choose s r; settle s x
