-- ===== src/Worker.antt =====
-- src/kits/trx_worker.h, src/kits/trx_worker.cpp, src/kits/shore_worker.cpp, src/kits/reqs.h and
-- src/kits/util/condex.h: the worker threads.
-- This file has the control of a worker and its working state. Worker.Queue is the queue of its
-- requests, Worker.Threads lets the threads run, and the other files prove.
pub mod Queue
pub mod Threads
pub mod Commands
pub mod Orderly
pub mod Fifo
pub mod Wakeup
pub mod Serve
pub mod Served
use zapps.Prelude.{
  ℕ, ◌+◌, Bool, true, false, ◌==◌, if◌then◌else◌, ◌&&◌, ◌||◌, not, leb, Result, ok, err, assertion,
}

-- `eWorkerControl`
pub data Control : Type 0 where
  paused active stopped recovery : Control

abbrev pub control_code : Control → ℕ
control_code paused = 0x1
control_code active = 0x2
control_code stopped = 0x4
control_code recovery = 0x8

abbrev pub is_control : Control → Control → Bool
is_control c d = control_code c == control_code d

-- `eWorkingState`
pub data WorkingState : Type 0 where
  undef loop sleep commit_q input_q finished : WorkingState

abbrev pub ws_code : WorkingState → ℕ
ws_code undef = 0x1
ws_code loop = 0x2
ws_code sleep = 0x4
ws_code commit_q = 0x8
ws_code input_q = 0x10
ws_code finished = 0x20

abbrev pub is_ws : WorkingState → WorkingState → Bool
is_ws s t = ws_code s == ws_code t

-- The control after the call, and whether the change was made.
unfoldable pub set_control : Control → Control → Control × Bool
set_control old awc =
    if is_control old paused && (is_control awc active || is_control awc stopped)
    then (awc, true)
    else if is_control old active && (is_control awc paused || is_control awc stopped)
    then (awc, true)
    else if is_control old recovery || is_control awc recovery
    then (awc, true)
    else (old, false)

-- The working state after the call, and whether it wakes the worker up.
unfoldable pub set_ws : WorkingState → WorkingState → WorkingState × Bool
set_ws old_ws new_ws =
    if is_ws old_ws commit_q && not (is_ws new_ws loop)
    then (old_ws, false)
    else (new_ws, is_ws old_ws sleep && not (is_ws new_ws sleep))

unfoldable pub can_continue : WorkingState → WorkingState → Bool
can_continue ws my_ws = is_ws ws my_ws || is_ws ws loop

-- `condex`: the counters, between calls of its functions.
pub record Condex : Type 0 where
  pub signals : ℕ
  pub waits : ℕ

unfoldable pub signal : Condex → Condex
signal n = record n { signals = n.signals + 1 }

unfoldable pub start_wait : Condex → Condex
start_wait n = record n { waits = n.waits + 1 }

-- The test of the loop in `wait`, turned round.
unfoldable pub wakes : Condex → Bool
wakes n = leb n.waits n.signals

-- Where `work` goes.
pub data Work : Type 0 where
  work_paused work_active work_stopped : Work

unfoldable pub dispatch : Control → Result Work
dispatch paused = ok work_paused
dispatch active = ok work_active
dispatch stopped = ok work_stopped
dispatch recovery = err assertion
