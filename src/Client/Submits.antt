-- ===== src/Client/Submits.antt =====
-- What a client submits in one batch, and for what it waits.
use mathlib.Core.List.{append-nil}
use zapps.Prelude.{
  ℕ, zero, suc, ◌+◌, ◌%◌, ◌<◌, ◌≡◌, refl, sym, ◌∙◌, ap, subst, arith, Bool, true, false, ◌==◌, ltb,
  lt→ltb, if◌then◌else◌, List, [], ◌∷◌, ◌++◌, Option, some, none, ok, ◌>>=◌,
}
use zapps.Client.{
  CondexPair, please_take_one, take_one, wait, Request, Event, enqueued, waited_on, Client,
  submit_one, submit_from, submit_batch, wait_batch, run_batch, submit_with,
}

-- The numbers of the requests, in the order of their submission.
abbrev pub ids : List Event → List ℕ
ids [] = []
ids (enqueued r wake ∷ es) = r.xct_id ∷ ids es
ids (waited_on i ∷ es) = ids es

-- The numbers from `n` on.
abbrev pub from : ℕ → ℕ → List ℕ
from n zero = []
from n (suc count) = n ∷ from (suc n) count

-- The open batches are those for which the client has not waited, by the numbers of their condexes,
-- the oldest one first. There are never more than two, and two have different condexes.
abbrev open_another : List ℕ → ℕ → Option (List ℕ)
open_another [] i = some (i ∷ [])
open_another (j ∷ []) i = if i == j then none else some (j ∷ i ∷ [])
open_another (j ∷ k ∷ ks) i = none

-- The wait is at the condex of the oldest open batch.
abbrev close_oldest : List ℕ → ℕ → Option (List ℕ)
close_oldest [] i = none
close_oldest (j ∷ js) i = if i == j then some js else none

abbrev change_open : Event → Option (List ℕ) → Option (List ℕ)
change_open e none = none
change_open (enqueued r wake) (some is) = elim r.notify [
  | none ↦ some is
  | some i ↦ open_another is i
]
change_open (waited_on i) (some is) = close_oldest is i

abbrev open_after : Option (List ℕ) → List Event → Option (List ℕ)
open_after o [] = o
open_after o (e ∷ es) = open_after (change_open e o) es

-- The batches that are open after all events, if each event is as above.
abbrev pub open_batches : List Event → Option (List ℕ)
open_batches es = open_after (some []) es

ids-append : (es es' : List Event) → ids (es ++ es') ≡ ids es ++ ids es'
ids-append [] es' = refl
ids-append (enqueued r wake ∷ es) es' = ap (λ x. r.xct_id ∷ x) (ids-append es es')
ids-append (waited_on i ∷ es) es' = ids-append es es'

open_after-append :
    (o : Option (List ℕ)) (es es' : List Event)
    → open_after o (es ++ es') ≡ open_after (open_after o es) es'
open_after-append o [] es' = refl
open_after-append o (e ∷ es) es' = open_after-append (change_open e o) es es'

from-snoc : (n k : ℕ) → from n k ++ ((n + k) ∷ []) ≡ from n (suc k)
from-snoc n zero = let e : n + 0 ≡ n = omega arith in ap (λ x. x ∷ []) e
from-snoc n (suc k) =
    let e : n + suc k ≡ suc n + k = omega arith in
    ap (λ xs. n ∷ xs) (ap (λ x. from (suc n) k ++ (x ∷ [])) e ∙ from-snoc (suc n) k)

-- The condexes of `k` batches, of which the first is batch `n`; the two are taken in turn.
abbrev pub in_turn : ℕ → ℕ → List ℕ
in_turn n zero = []
in_turn n (suc k) = n % 2 ∷ in_turn (suc n) k

-- A client that has submitted the numbers below `n`, with `k` open batches.
pub record Submitted (n k : ℕ) (c : Client) : Type 0 where
  pub wanted : c.cp.wanted ≡ c.cp.requested
  pub requested : c.cp.requested ≡ c.cp.waited + k
  pub opened : open_batches c.events ≡ some (in_turn c.cp.waited k)
  pub numbers : ids c.events ≡ from 0 n

events-numbers :
    (n : ℕ) (es : List Event) (r : Request) (wake : Bool)
    → r.xct_id ≡ n
    → ids es ≡ from 0 n
    → ids (es ++ (enqueued r wake ∷ [])) ≡ from 0 (n + 1)
events-numbers n es r wake same h =
    let first : 0 + n ≡ r.xct_id = omega (arith, same) in
    let next : suc n ≡ n + 1 = omega arith in
    ids-append es (enqueued r wake ∷ [])
    ∙ ap (λ xs. xs ++ (r.xct_id ∷ [])) h
    ∙ ap (λ x. from 0 n ++ (x ∷ [])) (sym first)
    ∙ from-snoc 0 n
    ∙ ap (from 0) next

ltb-same : (a b : ℕ) → a ≡ b → ltb a b ≡ false
ltb-same a b same = ground arith

take_one-none : (cp : CondexPair) → cp.wanted ≡ cp.requested → take_one cp ≡ (none, cp)
unfolding take_one
take_one-none cp same = rw (ltb-same cp.requested cp.wanted (sym same)) refl

pub take_one-asked :
    (cp : CondexPair)
    → cp.wanted ≡ cp.requested
    → take_one (please_take_one cp) ≡ (
      some (cp.requested % 2),
      record cp { wanted = cp.wanted + 1; requested = cp.requested + 1 },
    )
unfolding take_one please_take_one
take_one-asked cp same = rw (lt→ltb cp.requested (cp.wanted + 1) (omega (arith, same))) refl

abbrev event : (n : ℕ) (c : Client) (type : ℕ) (notify : Option ℕ) → Bool → Event
event n c type notify wake =
    enqueued (record { xct_type = type; xct_id = n; selid = c.selid; notify = notify }) wake

submit_one-inner :
    (n k : ℕ) (c : Client) (type : ℕ) → Submitted n k c → Submitted (n + 1) k (submit_one c type n)
unfolding submit_one submit_with
submit_one-inner n k c type h =
    let untaken : take_one c.cp ≡ (none, c.cp) = take_one-none c.cp h.wanted in
    subst (λ t. Submitted (n + 1) k (submit_with c type n t)) (sym untaken)
      (record {
        wanted = h.wanted;
        requested = h.requested;
        opened =
            open_after-append (some []) c.events (event n c type none false ∷ [])
            ∙ ap (change_open (event n c type none false)) h.opened;
        numbers = events-numbers n c.events _ _ refl h.numbers;
      })

open_another-in_turn :
    (n k next : ℕ)
    → k < 2
    → next ≡ n + k
    → open_another (in_turn n k) (next % 2) ≡ some (in_turn n (k + 1))
open_another-in_turn n zero next lt same =
    let e : next ≡ n = omega (arith, same) in ap (λ m. some (m % 2 ∷ [])) e
open_another-in_turn n (suc zero) next lt same =
    let other : (next % 2 == n % 2) ≡ false = ground (arith, same) in
    let e : next ≡ suc n = omega (arith, same) in rw other (ap (λ m. some (n % 2 ∷ m % 2 ∷ [])) e)
open_another-in_turn n (suc (suc k)) next lt same = absurd (omega arith)

close_oldest-in_turn :
    (n k : ℕ) → close_oldest (in_turn n (suc k)) (n % 2) ≡ some (in_turn (n + 1) k)
close_oldest-in_turn n k =
    let same : (n % 2 == n % 2) ≡ true = ground arith in
    let e : suc n ≡ n + 1 = omega arith in rw same (ap (λ m. some (in_turn m k)) e)

-- The last one of a batch, for which a condex was asked.
submit_one-last :
    (n k : ℕ) (c : Client) (type : ℕ)
    → k < 2
    → Submitted n k c
    → Submitted (n + 1) (k + 1) (submit_one (record c { cp = please_take_one c.cp }) type n)
unfolding submit_one submit_with please_take_one
submit_one-last n k c type lt h =
    let taken : take_one (please_take_one c.cp) ≡ (
      some (c.cp.requested % 2),
      record c.cp { wanted = c.cp.wanted + 1; requested = c.cp.requested + 1 },
    ) =
      take_one-asked c.cp h.wanted in
    subst (λ t. Submitted (n + 1) (k + 1) (submit_with c type n t)) (sym taken)
      (record {
        wanted = ap (λ x. x + 1) h.wanted;
        requested = omega (arith, h.requested);
        opened =
            let e = event n c type (some (c.cp.requested % 2)) true in
            open_after-append (some []) c.events (e ∷ [])
            ∙ ap (change_open e) h.opened
            ∙ open_another-in_turn c.cp.waited k c.cp.requested lt h.requested;
        numbers = events-numbers n c.events _ _ refl h.numbers;
      })

pub wait_batch-Submitted :
    (n k : ℕ) (c : Client)
    → Submitted n (suc k) c
    → (c' : Client) × (wait_batch c ≡ ok c') × Submitted n k c'
unfolding wait_batch wait
wait_batch-Submitted n k c h =
    let some_left : c.cp.waited < c.cp.requested = omega (arith, h.requested) in
    (
      record c {
        cp = record c.cp { waited = c.cp.waited + 1 };
        events = c.events ++ (waited_on (c.cp.waited % 2) ∷ []);
      },
      rw (lt→ltb c.cp.waited c.cp.requested some_left) refl,
      record {
        wanted = h.wanted;
        requested = omega (arith, h.requested);
        opened =
            open_after-append (some []) c.events (waited_on (c.cp.waited % 2) ∷ [])
            ∙ ap (change_open (waited_on (c.cp.waited % 2))) h.opened
            ∙ close_oldest-in_turn c.cp.waited k;
        numbers =
            ids-append c.events (waited_on (c.cp.waited % 2) ∷ [])
            ∙ append-nil (ids c.events)
            ∙ h.numbers;
      },
    )

submit_from-Submitted :
    (n k left : ℕ) (c : Client) (type : ℕ)
    → k < 2
    → Submitted n k c
    → Submitted (n + suc left) (k + 1) (submit_from c type n (suc left))
unfolding submit_from
submit_from-Submitted n k zero c type lt h = submit_one-last n k c type lt h
submit_from-Submitted n k (suc left) c type lt h =
    let e : n + 1 + suc left ≡ n + suc (suc left) = omega arith in
    subst (λ m. Submitted m (k + 1) (submit_from (submit_one c type n) type (n + 1) (suc left))) e
      (submit_from-Submitted (n + 1) k left (submit_one c type n) type lt
        (submit_one-inner n k c type h))

pub submit_batch-Submitted :
    (n k size : ℕ) (c : Client) (type : ℕ)
    → k < 2
    → 0 < size
    → Submitted n k c
    → (c' : Client) × (submit_batch c type n size ≡ ok (c', n + size))
      × Submitted (n + size) (suc k) c'
unfolding submit_batch
submit_batch-Submitted n k zero c type lt some_left h = elim some_left [ ]
submit_batch-Submitted n k (suc size) c type lt some_left h =
    let e : k + 1 ≡ suc k = omega arith in
    (
      submit_from c type n (suc size),
      (let some_size : (suc size == 0) ≡ false = ground arith in rw some_size refl),
      subst (λ m. Submitted (n + suc size) m (submit_from c type n (suc size))) e
          (submit_from-Submitted n k size c type lt h),
    )

pub run_batch-Submitted :
    (n size : ℕ) (c : Client) (type : ℕ)
    → 0 < size
    → Submitted n 0 c
    → (c' : Client) × (run_batch c type n size ≡ ok (c', n + size)) × Submitted (n + size) 0 c'
unfolding run_batch
run_batch-Submitted n size c type some_left h =
    let (mid, first, submitted) =
      submit_batch-Submitted n 0 size c type (omega arith) some_left h in
    let (after, second, waited) = wait_batch-Submitted (n + size) 0 mid submitted in
    (
      after,
      ap (λ r. r >>= λ s. (wait_batch s.0 >>= λ w. ok (w, s.1))) first
          ∙ ap (λ r. r >>= λ w. ok (w, n + size)) second,
      waited,
    )
