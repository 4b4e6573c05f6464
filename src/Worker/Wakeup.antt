-- ===== src/Worker/Wakeup.antt =====
-- Wake-ups of a sleeping worker: the one that is lost, and the ones that are not.
use zapps.Prelude.{ℕ, ◌+◌, ◌≤◌, ◌≡◌, refl, arith, true, [], ◌∷◌, ◌++◌, some, none, ok}
use zapps.Worker.{loop, sleep, input_q, wakes, set_ws, start_wait}
use zapps.Worker.Queue.{Queue, contents, push_back, reaches_thres}
use zapps.Worker.Orderly.{contents-push_back}
use zapps.Worker.Threads.{
  fall_asleep, announce, waiting, Config, reader_step, enqueue, wake_up, signal_one, Steps, read,
  push, wake, done, step, reader_at, spin,
}

-- A worker that has decided to sleep, while it idles with an empty queue and no call of another
-- thread is under way.
pub record IsFallingAsleep (c : Config) : Type 0 where
  pub pc : c.pc ≡ fall_asleep
  pub ws : c.ws ≡ loop
  pub no_signal : c.notify.signals ≡ c.notify.waits
  pub no_writer : c.wakers ≡ 0
  pub no_signaller : c.signallers ≡ 0

reaches_thres-true : (q : Queue) → reaches_thres q true ≡ true
unfolding reaches_thres
reaches_thres-true q = ground arith

-- For a worker that has decided to sleep, while it idles, no signal is left over, and no call of
-- another thread is under way: there are steps, among them a push of a request, after which the
-- request is in the queue, its writer has nothing more to do, and the worker is blocked.
pub lost_wakeup :
    (c : Config) (a : ℕ)
    → IsFallingAsleep c
    → (d : Config) × Steps c d
      × (reader_step d ≡ ok none)
      × (contents d.queue ≡ contents c.queue ++ (a ∷ []))
      × (d.wakers ≡ 0)
      × (d.signallers ≡ 0)
unfolding reader_step reader_at enqueue wake_up set_ws start_wait wakes reaches_thres
lost_wakeup c a h =
    let c1 = enqueue c a true in
    let c2 = wake_up c1 in
    let c3 : Config = record c2 { ws = sleep; pc = announce } in
    let c4 : Config = record c3 { notify = start_wait c.notify; pc = waiting } in
    (
      c4,
      step
          (step
            (step (step done (push a true))
              (wake (rw (reaches_thres-true (push_back c.queue a)) (omega arith))))
            (read {c = c2} {d = c3} (rw h.pc refl)))
          (read {c = c3} {d = c4} refl),
      ground (arith, h.no_signal),
      contents-push_back c.queue a,
      rw (reaches_thres-true (push_back c.queue a)) (omega (arith, h.no_writer)),
      rw h.ws h.no_signaller,
    )

-- For a worker that waits asleep, with its queue as its input queue, and that one signal more
-- wakes: a writer that pushes a request and asks to wake the worker is to signal once more, and
-- after its signal the worker runs on.
pub push-wakes :
    (c : Config) (a : ℕ)
    → c.pc ≡ waiting
    → c.ws ≡ sleep
    → c.notify.waits ≤ c.notify.signals + 1
    → c.queue.my_ws ≡ input_q
    → ((wake_up (enqueue c a true)).signallers ≡ c.signallers + 1)
      × ((d : Config) × (reader_step (signal_one (wake_up (enqueue c a true))) ≡ ok (some d)))
unfolding reader_step signal_one wake_up enqueue reader_at set_ws
push-wakes c a pc ws waits my_ws = (
  rw (ws, my_ws) refl,
  (record (signal_one (wake_up (enqueue c a true))) { pc = spin 1 }, rw pc (ground (arith, waits))),
)
