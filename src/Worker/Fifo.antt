-- ===== src/Worker/Fifo.antt =====
-- Over all interleavings, the queue serves each request that was pushed once, in the order of the
-- pushes, and the worker never reads past the end of its list.
use mathlib.Core.List.{append_assoc}
use zapps.Prelude.{
  subst, inl, inr, ℕ, ◌+◌, ◌≡◌, refl, sym, ◌∙◌, ap, arith, false, [], ◌∷◌, ◌++◌, some, none, Option,
  length, Result, ok, err, length-append, Bool, Bool-cases, ltb, assertion, drop, ◌>>=◌, ◌⊎◌, ◌≢◌,
  List,
}
use zapps.Worker.{
  paused, active, stopped, Control, recovery, is_control, WorkingState, Condex, active, dispatch,
  can_continue, set_control, wakes, finished,
}
use zapps.Worker.Queue.{Queue, contents, push_back, at_end}
use zapps.Worker.Threads.{
  Pc, top, enter, test_end, spin, control_check, continue_check, fall_asleep, announce, waiting,
  swapping, taking, serving, left, gone, abort_unserved, Config, initial, reader_at, reader_step,
  enqueue, wake_up, signal_one, command, test_sleeping, Step, Steps, read, push, wake, notify,
  order, test, done, step, Order, stop, start, pause, own_ws, resume, ordered,
}
use zapps.Worker.Orderly.{
  in_hand, Position, IsOrderly, AfterRead, contents-push_back, contents-swap, next_lem,
  initial-IsOrderly, at_end-eq, at_end-lt, moves, Orderly,
}

-- What holds after a step. It fails only where a stopped worker still has requests.
abbrev AfterStep : Pc → Config → Result (Option Config) → Type 0
AfterStep pc c (ok o) = AfterRead o
AfterStep pc c (err fault) =
    (fault ≡ assertion) × (pc ≡ left) × (c.control ≡ stopped) × (contents c.queue ≢ [])

abbrev ReadsOn : Pc → Config → Type 0
ReadsOn pc c = (r : Result (Option Config)) × (reader_at pc c ≡ r) × AfterStep pc c r

reads_on :
    {pc : Pc} (pc' : Pc) (c : Config)
    → Orderly pc c
    → in_hand pc' ≡ in_hand pc
    → reader_at pc c ≡ ok (some (record c { pc = pc' }))
    → Position pc' c.queue
    → ReadsOn pc c
reads_on pc' c h same e position =
    (ok (some (record c { pc = pc' })), e, moves pc' c.ws c.notify h same position)

-- A stopped worker, with the requests of its two lists.
stop-IsOrderly :
    (xs ys : List ℕ) (c : Config)
    → contents c.queue ≡ xs ++ ys
    → c.control ≡ stopped
    → Orderly left c
    → (r : Result (Option Config)) × (abort_unserved xs
          (abort_unserved ys (ok (some (record c { pc = gone }))))
        ≡ r)
      × AfterStep left c r
unfolding abort_unserved
stop-IsOrderly [] [] c held stops h =
    (ok (some (record c { pc = gone })), refl, moves gone c.ws c.notify h refl h.position)
stop-IsOrderly [] (y ∷ ys) c held stops h = (err assertion, refl, (refl, refl, stops, λ e. cc))
stop-IsOrderly (x ∷ xs) ys c held stops h = (err assertion, refl, (refl, refl, stops, λ e. cc))

-- A worker that left its loop goes on as the control says, which is not recovery.
left-IsOrderly :
    (k : Control) (c : Config)
    → c.control ≡ k
    → is_control k recovery ≡ false
    → Orderly left c
    → (r : Result (Option Config)) × ((dispatch k >>= λ w. resume w c) ≡ r) × AfterStep left c r
unfolding dispatch resume contents
left-IsOrderly paused c same known h = (ok none, refl, tt)
left-IsOrderly active c same known h =
    (ok (some (record c { pc = top })), refl, moves top c.ws c.notify h refl h.position)
left-IsOrderly stopped c same known h =
    stop-IsOrderly (drop c.queue.read_pos c.queue.for_readers) c.queue.for_writers c refl same h
left-IsOrderly recovery c same known h = cc

-- The worker's own step.
reader-IsOrderly : (pc : Pc) (c : Config) → Orderly pc c → ReadsOn pc c
unfolding reader_at own_ws
reader-IsOrderly top c h = elim (Bool-cases (is_control c.control active)) [
  | inl e ↦ reads_on enter c h refl (rw e refl) h.position
  | inr e ↦ reads_on left c h refl (rw e refl) h.position
]
reader-IsOrderly enter c h = (_, refl, moves test_end _ _ h refl h.position)
reader-IsOrderly test_end c h = elim (Bool-cases (at_end c.queue)) [
  | inl e ↦ reads_on (spin 0) c h refl (rw e refl) (at_end-eq c.queue e)
  | inr e ↦ reads_on taking c h refl (rw e refl) (at_end-lt c.queue e h.position)
]
reader-IsOrderly (spin n) c h = elim (Bool-cases c.queue.empty) [
  | inl e ↦ reads_on (control_check n) c h refl (rw e refl) h.position
  | inr e ↦ reads_on swapping c h refl (rw e refl) (h.position, h.marked e)
]
reader-IsOrderly (control_check n) c h = elim (Bool-cases (is_control c.control active)) [
  | inl e ↦ reads_on (continue_check n) c h refl (rw e refl) h.position
  | inr e ↦ (
    ok (some (own_ws c finished top)),
    rw e refl,
    moves top _ _ h refl (omega (arith, h.position)),
  )
]
reader-IsOrderly (continue_check n) c h = elim (Bool-cases (can_continue c.ws c.queue.my_ws)) [
  | inl e ↦ elim (Bool-cases (ltb c.queue.loops (n + 1))) [
    | inl f ↦ reads_on fall_asleep c h refl (rw (e, f) refl) h.position
    | inr f ↦ reads_on (spin (n + 1)) c h refl (rw (e, f) refl) h.position
  ]
  | inr e ↦ reads_on top c h refl (rw e refl) (omega (arith, h.position))
]
reader-IsOrderly fall_asleep c h = (_, refl, moves announce _ _ h refl h.position)
reader-IsOrderly announce c h = (_, refl, moves waiting _ _ h refl h.position)
reader-IsOrderly waiting c h = elim (Bool-cases (wakes c.notify)) [
  | inl e ↦ reads_on (spin 1) c h refl (rw e refl) h.position
  | inr e ↦ (ok none, rw e refl, tt)
]
reader-IsOrderly swapping c h = (
  _,
  refl,
  record {
    history = ap (λ l. c.served ++ l) (contents-swap c.queue h.position.0) ∙ h.history;
    marked = λ e. cc;
    position = h.position.1;
    no_recovery = h.no_recovery;
  },
)
reader-IsOrderly taking c h =
    let (a, q', e, taken, fr, fw, em, pos) = next_lem c.queue h.position in
    (
      ok (some (record c { queue = q'; pc = serving a })),
      rw e refl,
      record {
        history = ap (λ l. c.served ++ l) (sym taken) ∙ h.history;
        marked = λ f. omega (arith, ap length fw, h.marked (sym em ∙ f));
        position = omega (arith, ap length fr, pos, h.position);
        no_recovery = h.no_recovery;
      },
    )
reader-IsOrderly (serving a) c h = (
  _,
  refl,
  record {
    history = append_assoc c.served (a ∷ []) (contents c.queue) ∙ h.history;
    marked = h.marked;
    position = h.position;
    no_recovery = h.no_recovery;
  },
)
reader-IsOrderly left c h = left-IsOrderly c.control c refl h.no_recovery h
reader-IsOrderly gone c h = (ok none, refl, tt)

Position-push_back : (pc : Pc) (q : Queue) (a : ℕ) → Position pc q → Position pc (push_back q a)
unfolding push_back
Position-push_back top q a h = h
Position-push_back enter q a h = h
Position-push_back test_end q a h = h
Position-push_back (spin n) q a h = h
Position-push_back (control_check n) q a h = h
Position-push_back (continue_check n) q a h = h
Position-push_back fall_asleep q a h = h
Position-push_back announce q a h = h
Position-push_back waiting q a h = h
Position-push_back swapping q a h = (h.0, omega (arith, length-append q.for_writers (a ∷ [])))
Position-push_back taking q a h = h
Position-push_back (serving b) q a h = h
Position-push_back left q a h = h
Position-push_back gone q a h = h

enqueue-IsOrderly : (c : Config) (a : ℕ) (w : Bool) → IsOrderly c → IsOrderly (enqueue c a w)
unfolding enqueue
enqueue-IsOrderly c a w h = record {
  history =
      ap (λ l. c.served ++ (in_hand c.pc ++ l)) (contents-push_back c.queue a)
      ∙ ap (λ l. c.served ++ l) (sym (append_assoc (in_hand c.pc) (contents c.queue) (a ∷ [])))
      ∙ sym (append_assoc c.served (in_hand c.pc ++ contents c.queue) (a ∷ []))
      ∙ ap (λ l. l ++ (a ∷ [])) h.history;
  marked = λ e. omega (arith, length-append c.queue.for_writers (a ∷ []));
  position = Position-push_back c.pc c.queue a h.position;
  no_recovery = h.no_recovery;
}

set_control-not_recovery :
    (c : Control) (o : Order)
    → is_control c recovery ≡ false
    → is_control (set_control c (ordered o)).0 recovery ≡ false
unfolding set_control
set_control-not_recovery paused stop h = refl
set_control-not_recovery paused start h = refl
set_control-not_recovery paused pause h = refl
set_control-not_recovery active stop h = refl
set_control-not_recovery active start h = refl
set_control-not_recovery active pause h = refl
set_control-not_recovery stopped stop h = refl
set_control-not_recovery stopped start h = refl
set_control-not_recovery stopped pause h = refl
set_control-not_recovery recovery o h = cc

command-IsOrderly : (c : Config) (o : Order) → IsOrderly c → IsOrderly (command c o)
unfolding command
command-IsOrderly c o h = record {
  history = h.history;
  marked = h.marked;
  position = h.position;
  no_recovery = set_control-not_recovery c.control o h.no_recovery;
}

-- The steps of writers and others.
other-IsOrderly :
    (c : Config) (ws : WorkingState) (n : Condex) (wakers signallers testers : ℕ)
    → IsOrderly c
    → IsOrderly (record c {
      ws = ws;
      notify = n;
      wakers = wakers;
      signallers = signallers;
      testers = testers;
    })
other-IsOrderly c ws n wakers signallers testers h = record {
  history = h.history;
  marked = h.marked;
  position = h.position;
  no_recovery = h.no_recovery;
}

Step-IsOrderly : {c d : Config} → Step c d → IsOrderly c → IsOrderly d
unfolding reader_step wake_up signal_one test_sleeping
Step-IsOrderly {c} {d} (read e) h =
    let (r, e', after) = reader-IsOrderly c.pc c h in subst (AfterStep c.pc c) (sym e' ∙ e) after
Step-IsOrderly {c} (push a w) h = enqueue-IsOrderly c a w h
Step-IsOrderly {c} (wake p) h = other-IsOrderly c _ _ _ _ _ h
Step-IsOrderly {c} (notify p) h = other-IsOrderly c _ _ _ _ _ h
Step-IsOrderly {c} (order o) h = command-IsOrderly c o h
Step-IsOrderly {c} (test p) h = other-IsOrderly c _ _ _ _ _ h

pub Steps-IsOrderly : {c d : Config} → Steps c d → IsOrderly c → IsOrderly d
Steps-IsOrderly done h = h
Steps-IsOrderly (step s t) h = Step-IsOrderly t (Steps-IsOrderly s h)

-- The next step returns, or is the failed assertion of a stopped worker that still has requests.
abbrev pub Returns : Config → Type 0
Returns c = (o : Option Config) × (reader_step c ≡ ok o)

abbrev pub StopsUnserved : Config → Type 0
StopsUnserved c =
    (reader_step c ≡ err assertion)
    × (c.pc ≡ left)
    × (c.control ≡ stopped)
    × (contents c.queue ≢ [])

next_step :
    (c : Config) (r : Result (Option Config))
    → reader_at c.pc c ≡ r
    → AfterStep c.pc c r
    → Returns c ⊎ StopsUnserved c
unfolding reader_step
next_step c (ok o) e after = inl (o, e)
next_step c (err fault) e (failed, place, stops, some_left) =
    inr (e ∙ ap err failed, place, stops, some_left)

-- After any steps of a new worker, of writers, and of callers of `stop`, `start` and `pause`, in
-- whatever order: what the worker has served, what it holds, and what is in the queue are
-- together what was pushed, in that order; and the next step of the worker neither fails an
-- assert nor reads outside its list, unless the worker has left its loop, is stopped, and still
-- has requests in its queue, where it fails the assertion on the transaction of the first one.
pub fifo :
    (lc : ℕ) (c : Config)
    → Steps (initial lc) c
    → (c.served ++ (in_hand c.pc ++ contents c.queue) ≡ c.pushed) × (Returns c ⊎ StopsUnserved c)
fifo lc c s =
    let h = Steps-IsOrderly s (initial-IsOrderly lc) in
    let (r, e, after) = reader-IsOrderly c.pc c h in (h.history, next_step c r e after)
