-- ===== src/Worker/Threads.antt =====
-- The threads of one worker: the worker itself, in `_work_ACTIVE_impl`, `pop`, `wait_for_input`
-- and `condex_sleep`; writers in `push`; and others in `stop`, `start` and `pause`.
-- A step is one access to shared memory. The compare-and-swap loops of `set_ws` and `condex_sleep`
-- are one step each, the one in which they succeed. What a request does is not part of the model:
-- it is served in one step. The worker that is next in the
-- list of workers, which a stopped one stops and joins, is left out.
use zapps.Prelude.{
  ℕ, ◌+◌, ◌-◌, ◌<◌, ◌≡◌, Bool, List, [], ◌∷◌, ◌++◌, Option, none, some, ltb, if◌then◌else◌, not,
  Result, ok, err, assertion, drop, ◌>>=◌,
}
use zapps.Worker.{
  Control, active, paused, stopped, Work, work_active, work_paused, work_stopped, dispatch,
  is_control, WorkingState, undef, loop, sleep, input_q, finished, is_ws, set_control, set_ws,
  can_continue, Condex, signal, start_wait, wakes,
}
use zapps.Worker.Queue.{Queue, new_queue, setqueue, at_end, push_back, reaches_thres, swap, next}

-- What the worker does next. `spin`, `control_check` and `continue_check` hold the spins so far.
pub data Pc : Type 0 where
  top : Pc
  enter : Pc
  test_end : Pc
  spin : ℕ → Pc
  control_check : ℕ → Pc
  continue_check : ℕ → Pc
  fall_asleep : Pc
  announce : Pc
  waiting : Pc
  swapping : Pc
  taking : Pc
  serving : ℕ → Pc
  left : Pc
  gone : Pc

-- The three counts are of the writers that are to call `set_ws`, of the threads that are to signal,
-- and of the threads that are to test whether the worker sleeps. `pushed` and `served` keep the
-- history.
pub record Config : Type 0 where
  pub control : Control
  pub ws : WorkingState
  pub notify : Condex
  pub queue : Queue
  pub pc : Pc
  pub wakers : ℕ
  pub signallers : ℕ
  pub testers : ℕ
  pub pushed : List ℕ
  pub served : List ℕ

-- A new worker, `init` with a number of spins, before it is started.
unfoldable pub initial : ℕ → Config
unfolding new_queue setqueue
initial lc = record {
  control = paused;
  ws = undef;
  notify = record { signals = 0; waits = 0 };
  queue = setqueue new_queue input_q 1 lc 0;
  pc = left;
  wakers = 0;
  signallers = 0;
  testers = 0;
  pushed = [];
  served = [];
}

-- The worker sets its own working state; a signal to itself is counted at once.
unfoldable pub own_ws : Config → WorkingState → Pc → Config
unfolding set_ws signal
own_ws c new_ws pc =
    let (ws, woken) = set_ws c.ws new_ws in
    record c { ws = ws; notify = if woken then signal c.notify else c.notify; pc = pc }

-- A loop of `_pre_STOP_impl`. A request that was pushed has no transaction before it is served, so
-- `abort_one_trx` fails its assertion on the first one.
unfoldable pub abort_unserved : {A : Type 0} → List ℕ → Result A → Result A
abort_unserved [] rest = rest
abort_unserved (a ∷ requests) rest = err assertion

-- `work`, out of `_work_ACTIVE_impl`: a paused worker looks again. A stopped one goes over its
-- readers' and its writers' list, in one step, and is gone; it has no transaction of its own.
unfoldable pub resume : Work → Config → Result (Option Config)
unfolding abort_unserved
resume work_active c = ok (some (record c { pc = top }))
resume work_paused c = ok none
resume work_stopped c =
    abort_unserved (drop c.queue.read_pos c.queue.for_readers)
      (abort_unserved c.queue.for_writers (ok (some (record c { pc = gone }))))

-- `none` stands for a worker that is blocked in `wait`, paused, or gone.
unfoldable pub reader_at : Pc → Config → Result (Option Config)
unfolding own_ws at_end can_continue start_wait wakes swap next dispatch resume
reader_at top c = ok (some (record c { pc = if is_control c.control active then enter else left }))
reader_at enter c = ok (some (own_ws c loop test_end))
reader_at test_end c = ok (some (record c { pc = if at_end c.queue then spin 0 else taking }))
reader_at (spin n) c =
    ok (some (record c { pc = if c.queue.empty then control_check n else swapping }))
reader_at (control_check n) c =
    if is_control c.control active
    then ok (some (record c { pc = continue_check n }))
    else ok (some (own_ws c finished top))
reader_at (continue_check n) c = ok (
    some (record c {
      pc =
          if not (can_continue c.ws c.queue.my_ws)
          then top
          else if ltb c.queue.loops (n + 1)
          then fall_asleep
          else spin (n + 1);
    }))
reader_at fall_asleep c = ok (some (record c { ws = sleep; pc = announce }))
reader_at announce c = ok (some (record c { notify = start_wait c.notify; pc = waiting }))
reader_at waiting c = ok (if wakes c.notify then some (record c { pc = spin 1 }) else none)
reader_at swapping c = ok (some (record c { queue = swap c.queue; pc = taking }))
reader_at taking c = do
  (a, queue) ← next c.queue
  ok (some (record c { queue = queue; pc = serving a }))
reader_at (serving a) c = ok (some (record c { pc = top; served = c.served ++ (a ∷ []) }))
reader_at left c = do w ← dispatch c.control; resume w c
reader_at gone c = ok none

unfoldable pub reader_step : Config → Result (Option Config)
unfolding reader_at
reader_step c = reader_at c.pc c

-- The critical section of `push`.
unfoldable pub enqueue : Config → ℕ → Bool → Config
unfolding push_back reaches_thres
enqueue c a wake =
    let queue = push_back c.queue a in
    record c {
      queue = queue;
      pushed = c.pushed ++ (a ∷ []);
      wakers = if reaches_thres queue wake then c.wakers + 1 else c.wakers;
    }

-- A writer calls `set_ws`.
unfoldable pub wake_up : Config → Config
unfolding set_ws
wake_up c =
    let (ws, woken) = set_ws c.ws c.queue.my_ws in
    record c {
      ws = ws;
      wakers = c.wakers - 1;
      signallers = if woken then c.signallers + 1 else c.signallers;
    }

unfoldable pub signal_one : Config → Config
unfolding signal
signal_one c = record c { notify = signal c.notify; signallers = c.signallers - 1 }

pub data Order : Type 0 where
  stop start pause : Order

abbrev pub ordered : Order → Control
ordered stop = stopped
ordered start = active
ordered pause = paused

-- `stop`, `start` and `pause`: the control is set, and the worker woken up if it is sleeping.
unfoldable pub command : Config → Order → Config
unfolding set_control
command c o = record c { control = (set_control c.control (ordered o)).0; testers = c.testers + 1 }

unfoldable pub test_sleeping : Config → Config
test_sleeping c = record c {
  testers = c.testers - 1;
  signallers = if is_ws c.ws sleep then c.signallers + 1 else c.signallers;
}

pub data Step : Config → Config → Type 0 where
  read : {c d : Config} → reader_step c ≡ ok (some d) → Step c d
  push : {c : Config} (a : ℕ) (wake : Bool) → Step c (enqueue c a wake)
  wake : {c : Config} → 0 < c.wakers → Step c (wake_up c)
  notify : {c : Config} → 0 < c.signallers → Step c (signal_one c)
  order : {c : Config} (o : Order) → Step c (command c o)
  test : {c : Config} → 0 < c.testers → Step c (test_sleeping c)

pub data Steps (c : Config) : Config → Type 0 where
  done : Steps c c
  step : {d e : Config} → Steps c d → Step d e → Steps c e
