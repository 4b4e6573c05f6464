-- ===== src/Tests/Clients.antt =====
-- Clients that submit a few requests.
use zapps.Prelude.{ℕ, ◌≡◌, ◌↔◌, refl, arith, [], ◌∷◌, ok, some, true}
use zapps.Worker.{wakes, start_wait}
use zapps.Client.{
  run_xcts, mt_num_of_trxs, mt_time_dur, Client, CondexPair, new_client, new_pair, take_one,
  please_take_one, wait,
}
use zapps.Client.Submits.{Submitted}
use zapps.Client.Batches.{run_number-Submitted, run_time-Submitted}
use zapps.Client.Signals.{
  Config, Steps, stay, go, submit, begin_wait, initial, count, end_wait-unserved, at_condex,
}

run_number-Submitted_example :
    (c : Client) × (run_xcts mt_num_of_trxs 0 (new_client 4) 31 7 10 0 ≡ ok c) × Submitted 7 0 c
run_number-Submitted_example = run_number-Submitted 0 4 31 7 10 (omega arith)

run_time-Submitted_example :
    (c : Client) × (run_xcts mt_time_dur 3 (new_client 4) 31 0 10 0 ≡ ok c) × Submitted 50 0 c
run_time-Submitted_example = run_time-Submitted 3 4 31 0 10 (omega arith)

abbrev pair : ℕ → ℕ → CondexPair
pair requested waited = record { wanted = requested; requested = requested; waited = waited }

-- Two batches are open, and the client waits for the first.
abbrev one_open : Config
unfolding initial new_pair
one_open = record initial { cp = pair 1 0; unserved = 0 ∷ [] }

abbrev two_open : Config
unfolding initial new_pair
two_open = record initial { cp = pair 2 0; unserved = 1 ∷ 0 ∷ [] }

abbrev waiting_first : Config
unfolding at_condex start_wait two_open
waiting_first = at_condex 0 start_wait (record two_open { cp = pair 2 1; waiting = some 0 })

to_waiting : Steps initial waiting_first
unfolding initial new_pair take_one please_take_one wait at_condex start_wait two_open one_open
    waiting_first
to_waiting =
    go initial two_open waiting_first
      (go initial one_open two_open
        (go initial initial one_open (stay initial)
          (submit initial 0 (pair 1 0) refl (omega arith) refl refl))
        (submit one_open 1 (pair 2 0) refl (omega arith) refl refl))
      (begin_wait two_open 0 (pair 2 1) refl refl)

end_wait-unserved_example :
    (wakes (waiting_first.condexes 0) ≡ true) ↔ (count 0 waiting_first.unserved ≡ 0)
unfolding waiting_first two_open at_condex
end_wait-unserved_example = end_wait-unserved 0 to_waiting refl
