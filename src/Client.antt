-- ===== src/Client.antt =====
-- The clients, which submit requests in batches and wait for them: src/kits/shore_client.cpp,
-- `submit_one` of src/kits/tpcb/tpcb_client.cpp, and `condex_pair` of src/kits/util/condex.h.
-- The queue of the worker and the clock are outside: a client leaves the sequence of what it
-- submits and waits for. Numbers of transactions are at least zero, and do not overflow.
pub mod Submits
pub mod Batches
pub mod Signals
use zapps.Prelude.{
  ℕ, zero, suc, ◌+◌, ◌-◌, ◌%◌, Bool, ◌==◌, not, true, false, ◌&&◌, ltb, leb, if◌then◌else◌, List,
  [], ◌∷◌, ◌++◌, Option, some, none, Result, ok, err, assertion, assert, ◌>>=◌, ◌>>◌,
}

-- `condex_pair`; a condex is known by its place in the pair.
pub record CondexPair : Type 0 where
  pub wanted : ℕ
  pub requested : ℕ
  pub waited : ℕ

unfoldable pub new_pair : CondexPair
new_pair = record { wanted = 0; requested = 0; waited = 0 }

unfoldable pub please_take_one : CondexPair → CondexPair
please_take_one cp = record cp { wanted = cp.wanted + 1 }

unfoldable pub take_one : CondexPair → Option ℕ × CondexPair
take_one cp =
    if ltb cp.requested cp.wanted
    then (some (cp.requested % 2), record cp { requested = cp.requested + 1 })
    else (none, cp)

-- Which condex is waited on.
unfoldable pub wait : CondexPair → Result (ℕ × CondexPair)
wait cp = do
  assert (ltb cp.waited cp.requested)
  ok (cp.waited % 2, record cp { waited = cp.waited + 1 })

-- What a client hands to its worker.
pub record Request : Type 0 where
  pub xct_type : ℕ
  pub xct_id : ℕ
  pub selid : ℕ
  pub notify : Option ℕ

-- A request is enqueued, where the flag asks to wake the worker; or a condex is waited on.
pub data Event : Type 0 where
  enqueued : Request → Bool → Event
  waited_on : ℕ → Event

pub record Client : Type 0 where
  pub cp : CondexPair
  pub selid : ℕ
  pub events : List Event

unfoldable pub new_client : ℕ → Client
unfolding new_pair
new_client selid = record { cp = new_pair; selid = selid; events = [] }

-- The request, with what `take_one` gave.
unfoldable pub submit_with : Client → (xct_type xct_id : ℕ) → Option ℕ × CondexPair → Client
submit_with c xct_type xct_id (notify, cp) =
    let request : Request = record {
      xct_type = xct_type;
      xct_id = xct_id;
      selid = c.selid;
      notify = notify;
    } in
    let wake : Bool = elim notify [ none ↦ false | some i ↦ true ] in
    record c { cp = cp; events = c.events ++ (enqueued request wake ∷ []) }

unfoldable pub submit_one : Client → (xct_type xct_id : ℕ) → Client
unfolding take_one submit_with
submit_one c xct_type xct_id = submit_with c xct_type xct_id (take_one c.cp)

-- The rounds of the loop that are left; in the last one a condex is asked for.
unfoldable pub submit_from : Client → (xct_type trx_cnt left : ℕ) → Client
unfolding submit_one please_take_one
submit_from c xct_type trx_cnt zero = c
submit_from c xct_type trx_cnt (suc zero) =
    submit_one (record c { cp = please_take_one c.cp }) xct_type trx_cnt
submit_from c xct_type trx_cnt (suc (suc left)) =
    submit_from (submit_one c xct_type trx_cnt) xct_type (trx_cnt + 1) (suc left)

-- The client, and `trx_cnt`.
unfoldable pub submit_batch : Client → (xct_type trx_cnt batch_sz : ℕ) → Result (Client × ℕ)
unfolding submit_from
submit_batch c xct_type trx_cnt batch_sz = do
  assert (not (batch_sz == 0))
  ok (submit_from c xct_type trx_cnt batch_sz, trx_cnt + batch_sz)

unfoldable pub wait_batch : Client → Result Client
unfolding wait
wait_batch c = do
  (i, cp) ← wait c.cp
  ok (record c { cp = cp; events = c.events ++ (waited_on i ∷ []) })

-- A batch, and the wait for it.
unfoldable pub run_batch : Client → (xct_type trx_cnt batch_sz : ℕ) → Result (Client × ℕ)
unfolding submit_batch wait_batch
run_batch c xct_type trx_cnt batch_sz = do
  s ← submit_batch c xct_type trx_cnt batch_sz
  waited ← wait_batch s.0
  ok (waited, s.1)

abbrev pub max_batch : ℕ
max_batch = 100000

-- The size of the next batch.
unfoldable pub next_batch : (submitted num_xct : ℕ) → ℕ
next_batch submitted num_xct =
    if ltb num_xct (submitted + max_batch) then num_xct - submitted else max_batch

-- The loop over batches; `fuel` bounds its rounds.
unfoldable pub run_batches : ℕ → Client → (xct_type trx_cnt submitted num_xct : ℕ) → Result Client
unfolding run_batch next_batch
run_batches zero c xct_type trx_cnt submitted num_xct = ok c
run_batches (suc fuel) c xct_type trx_cnt submitted num_xct = elim (ltb submitted num_xct) [
  | false ↦ ok c
  | true ↦ do
    s ← run_batch c xct_type trx_cnt (next_batch submitted num_xct)
    run_batches fuel s.0 xct_type s.1 (submitted + next_batch submitted num_xct) num_xct
]

-- `run_xcts` in the case MT_NUM_OF_TRXS; a batch takes at least one transaction.
unfoldable pub run_number : Client → (xct_type num_xct : ℕ) → Result Client
unfolding run_batch run_batches
run_number c xct_type num_xct = elim (leb num_xct max_batch) [
  | true ↦ do s ← run_batch c xct_type 0 num_xct; ok s.0
  | false ↦ run_batches num_xct c xct_type 0 0 num_xct
]

-- The main loop of the case MT_TIME_DUR, where the test for the exit fails `rounds` times.
unfoldable pub time_loop : (rounds : ℕ) → Client → (xct_type trx_cnt batchsz : ℕ) → Result Client
unfolding submit_batch wait_batch
time_loop zero c xct_type trx_cnt batchsz = do waited ← wait_batch c; wait_batch waited
time_loop (suc rounds) c xct_type trx_cnt batchsz = do
  waited ← wait_batch c
  s ← submit_batch waited xct_type trx_cnt batchsz
  time_loop rounds s.0 xct_type s.1 batchsz

unfoldable pub run_time : (rounds : ℕ) → Client → (xct_type batchsz : ℕ) → Result Client
unfolding submit_batch time_loop
run_time rounds c xct_type batchsz = do
  s ← submit_batch c xct_type 0 batchsz
  s' ← submit_batch s.0 xct_type s.1 batchsz
  time_loop rounds s'.0 xct_type s'.1 batchsz

pub data MeasurementType : Type 0 where
  mt_undef mt_num_of_trxs mt_time_dur : MeasurementType

-- `rounds` is how often the test for the exit fails; `batchsz` and `think_time` are what the
-- variables of the environment hold.
unfoldable pub run_xcts :
    MeasurementType
    → (rounds : ℕ) → Client
    → (xct_type num_xct batchsz think_time : ℕ) → Result Client
unfolding run_number run_time
run_xcts measure rounds c xct_type num_xct batchsz think_time = do
  assert (not (ltb 0 think_time && ltb 1 batchsz))
  elim measure [
    | mt_undef ↦ err assertion
    | mt_num_of_trxs ↦ run_number c xct_type num_xct
    | mt_time_dur ↦ run_time rounds c xct_type batchsz
  ]
