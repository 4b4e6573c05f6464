-- ===== src/Worker/Orderly.antt =====
-- What holds of a worker and its queue between any two steps.
use mathlib.Core.List.{append_assoc, append-nil}
use zapps.Prelude.{
  ℕ, zero, suc, ◌+◌, ◌≤◌, ◌<◌, ◌≡◌, refl, sym, ◌∙◌, ap, arith, true, false, List, [], ◌∷◌, ◌++◌,
  some, none, Option, length, drop, get_elem?, ok, deref-bind,
}
use zapps.Worker.{recovery, is_control, WorkingState, Condex}
use zapps.Worker.Queue.{Queue, contents, swap, next, push_back, at_end, new_queue, setqueue}
use zapps.Worker.Threads.{
  Pc, top, enter, test_end, spin, control_check, continue_check, fall_asleep, announce, waiting,
  swapping, taking, serving, left, gone, Config, initial,
}

-- The request that the worker has popped and not yet served.
abbrev pub in_hand : Pc → List ℕ
in_hand (serving a) = a ∷ []
in_hand _ = []

-- Where the reader stands in its list: at the end while it waits, before the end where it takes.
abbrev pub Position : Pc → Queue → Type 0
Position top q = q.read_pos ≤ length q.for_readers
Position enter q = q.read_pos ≤ length q.for_readers
Position test_end q = q.read_pos ≤ length q.for_readers
Position (spin n) q = q.read_pos ≡ length q.for_readers
Position (control_check n) q = q.read_pos ≡ length q.for_readers
Position (continue_check n) q = q.read_pos ≡ length q.for_readers
Position fall_asleep q = q.read_pos ≡ length q.for_readers
Position announce q = q.read_pos ≡ length q.for_readers
Position waiting q = q.read_pos ≡ length q.for_readers
Position swapping q = (q.read_pos ≡ length q.for_readers) × (0 < length q.for_writers)
Position taking q = q.read_pos < length q.for_readers
Position (serving a) q = q.read_pos ≤ length q.for_readers
Position left q = q.read_pos ≤ length q.for_readers
Position gone q = q.read_pos ≤ length q.for_readers

-- For a worker at `pc`, which is `c.pc`.
pub record Orderly (pc : Pc) (c : Config) : Type 0 where
  pub history : c.served ++ (in_hand pc ++ contents c.queue) ≡ c.pushed
  pub marked : c.queue.empty ≡ false → 0 < length c.queue.for_writers
  pub position : Position pc c.queue
  pub no_recovery : is_control c.control recovery ≡ false

abbrev pub IsOrderly : Config → Type 0
IsOrderly c = Orderly c.pc c

-- After a step of the worker, if it is not blocked.
abbrev pub AfterRead : Option Config → Type 0
AfterRead none = Unit {0}
AfterRead (some d) = IsOrderly d

pub drop-length : (xs : List ℕ) → drop (length xs) xs ≡ []
drop-length [] = refl
drop-length (x ∷ xs) = drop-length xs

pub drop-get_elem? :
    (xs : List ℕ) (i : ℕ)
    → i < length xs
    → (a : ℕ) × (get_elem? xs i ≡ some a) × (drop i xs ≡ a ∷ drop (i + 1) xs)
drop-get_elem? [] i h = absurd (omega arith)
drop-get_elem? (x ∷ xs) zero h = (x, refl, refl)
drop-get_elem? (x ∷ xs) (suc i) h =
    let (a, there, rest) = drop-get_elem? xs i (omega arith) in
    let same : suc (i + 1) ≡ suc i + 1 = omega arith in
    (a, there, rest ∙ ap (λ n. a ∷ drop n (x ∷ xs)) same)

pub contents-push_back : (q : Queue) (a : ℕ) → contents (push_back q a) ≡ contents q ++ (a ∷ [])
unfolding contents push_back
contents-push_back q a = sym (append_assoc (drop q.read_pos q.for_readers) q.for_writers (a ∷ []))

pub contents-swap : (q : Queue) → q.read_pos ≡ length q.for_readers → contents (swap q) ≡ contents q
unfolding contents swap
contents-swap q e = append-nil q.for_writers ∙ sym (rw (e, drop-length q.for_readers) refl)

pub next_lem :
    (q : Queue)
    → q.read_pos < length q.for_readers
    → (a : ℕ) × (q' : Queue) × (next q ≡ ok (a, q'))
      × (contents q ≡ a ∷ contents q')
      × (q'.for_readers ≡ q.for_readers)
      × (q'.for_writers ≡ q.for_writers)
      × (q'.empty ≡ q.empty)
      × (q'.read_pos ≡ q.read_pos + 1)
unfolding contents next
next_lem q h =
    let (a, there, rest) = drop-get_elem? q.for_readers q.read_pos h in
    (
      a,
      record q { read_pos = q.read_pos + 1 },
      deref-bind _ there,
      ap (λ l. l ++ q.for_writers) rest,
      refl,
      refl,
      refl,
      refl,
    )

pub initial-IsOrderly : (lc : ℕ) → IsOrderly (initial lc)
unfolding initial contents new_queue setqueue
initial-IsOrderly lc = record {
  history = refl;
  marked = λ e. cc;
  position = omega arith;
  no_recovery = refl;
}

pub at_end-eq : (q : Queue) → at_end q ≡ true → q.read_pos ≡ length q.for_readers
unfolding at_end
at_end-eq q e = ground arith

pub at_end-lt :
    (q : Queue)
    → at_end q ≡ false
    → q.read_pos ≤ length q.for_readers
    → q.read_pos < length q.for_readers
unfolding at_end
at_end-lt q e h = ground arith

-- A step that only moves the worker on.
pub moves :
    {pc : Pc} (pc' : Pc) {c : Config} (ws : WorkingState) (n : Condex)
    → Orderly pc c
    → in_hand pc' ≡ in_hand pc
    → Position pc' c.queue
    → IsOrderly (record c { ws = ws; notify = n; pc = pc' })
moves pc' {c} ws n h same position = record {
  history = ap (λ l. c.served ++ (l ++ contents c.queue)) same ∙ h.history;
  marked = h.marked;
  position = position;
  no_recovery = h.no_recovery;
}
