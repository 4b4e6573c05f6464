-- ===== src/Tests/Workers.antt =====
-- A worker with one request.
use zapps.Prelude.{◌⊎◌, ◌≡◌, refl, false, [], ◌∷◌, ◌++◌, none, ok}
use zapps.Worker.{active, set_control, sleep, loop, dispatch}
use zapps.Worker.Queue.{contents}
use zapps.Worker.Threads.{
  Config, initial, fall_asleep, waiting, top, enqueue, command, start, reader_step, reader_at,
  Steps, step, done, push, order, read, stop, resume, abort_unserved,
}
use zapps.Worker.Fifo.{fifo, Returns, StopsUnserved}
use zapps.Worker.Orderly.{in_hand}
use zapps.Worker.Wakeup.{lost_wakeup, IsFallingAsleep}

abbrev started : Config
unfolding initial enqueue command
started = record (command (enqueue (initial 2) 5 false) start) { pc = top }

started-Steps : Steps (initial 2) started
unfolding initial enqueue command reader_step reader_at set_control
started-Steps = step (step (step done (push 5 false)) (order start)) (read refl)

fifo_example :
    (started.served ++ (in_hand started.pc ++ contents started.queue) ≡ started.pushed)
    × (Returns started ⊎ StopsUnserved started)
fifo_example = fifo 2 started started-Steps

abbrev drowsy : Config
unfolding initial
drowsy = record (initial 2) { control = active; ws = loop; pc = fall_asleep }

drowsy-IsFallingAsleep : IsFallingAsleep drowsy
unfolding initial
drowsy-IsFallingAsleep = record {
  pc = refl;
  ws = refl;
  no_signal = refl;
  no_writer = refl;
  no_signaller = refl;
}

lost_wakeup_example :
    (d : Config) × Steps drowsy d
    × (reader_step d ≡ ok none)
    × (contents d.queue ≡ contents drowsy.queue ++ (9 ∷ []))
    × (d.wakers ≡ 0)
    × (d.signallers ≡ 0)
lost_wakeup_example = lost_wakeup drowsy 9 drowsy-IsFallingAsleep

abbrev asleep : Config
unfolding initial
asleep = record (initial 2) {
  control = active;
  ws = sleep;
  pc = waiting;
  notify = record { signals = 3; waits = 4 };
}

-- A worker that is stopped before it has served a request.
abbrev halted : Config
unfolding initial enqueue command
halted = command (enqueue (initial 2) 5 false) stop

halted-StopsUnserved : StopsUnserved halted
unfolding initial enqueue command reader_step reader_at set_control resume dispatch abort_unserved
    contents
halted-StopsUnserved = (refl, refl, refl, λ e. cc)
