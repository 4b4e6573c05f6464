-- ===== src/Client/Batches.antt =====
-- What a client submits in all its batches, and for what it waits.
use zapps.Prelude.{
  ℕ, zero, suc, ◌+◌, ◌*◌, ◌≤◌, ◌<◌, ◌≡◌, refl, ◌∙◌, ap, subst, arith, ltb, leb, ltb→lt, ok, ◌>>=◌,
  Bool-cases, inl, inr,
}
use zapps.Client.{
  new_pair, Client, submit_batch, wait_batch, new_client, next_batch, max_batch, run_batches,
  run_number, run_xcts, mt_num_of_trxs, mt_time_dur, time_loop, run_time,
}
use zapps.Client.Submits.{
  Submitted, wait_batch-Submitted, submit_batch-Submitted, run_batch-Submitted,
}

next_batch-fits : (n num : ℕ) → n < num → (0 < next_batch n num) × (n + next_batch n num ≤ num)
unfolding next_batch
next_batch-fits n num more = (ground arith, ground arith)

run_batches-Submitted :
    (fuel n num : ℕ) (c : Client) (type : ℕ)
    → n ≤ num
    → num ≤ n + fuel
    → Submitted n 0 c
    → (c' : Client) × (run_batches fuel c type n n num ≡ ok c') × Submitted num 0 c'
unfolding run_batches
run_batches-Submitted zero n num c type low high h =
    let e : n ≡ num = omega (arith, low, high) in (c, refl, subst (λ m. Submitted m 0 c) e h)
run_batches-Submitted (suc fuel) n num c type low high h = elim (Bool-cases (ltb n num)) [
  | inl more ↦
      let (size, within) = next_batch-fits n num (ltb→lt n num more) in
      let (mid, first, submitted) = run_batch-Submitted n (next_batch n num) c type size h in
      let (after, rest, all) =
        run_batches-Submitted fuel (n + next_batch n num) num mid type within
          (omega (arith, high, size)) submitted in
      (
        after,
        rw (more, run_batches)
            (ap (λ r. r >>= λ s. run_batches fuel s.0 type s.1 (n + next_batch n num) num) first
              ∙ rest),
        all,
      )
  | inr enough ↦
      let e : n ≡ num = ground arith in
      (c, rw (enough, run_batches) refl, subst (λ m. Submitted m 0 c) e h)
]

-- For a positive number of transactions: without thinking time, a new client that runs by number
-- submits the requests with the numbers from zero on, each once and in order. It always has at most
-- two open batches, which have different condexes; it waits only at the condex of the oldest open
-- batch; and in the end it has waited for all.
pub run_number-Submitted :
    (rounds selid type num size : ℕ)
    → 0 < num
    → (c : Client) × (run_xcts mt_num_of_trxs rounds (new_client selid) type num size 0 ≡ ok c)
      × Submitted num 0 c
unfolding run_xcts run_number new_client new_pair
run_number-Submitted rounds selid type num size some_trxs =
    let start : Submitted 0 0 (new_client selid) = record {
      wanted = refl;
      requested = refl;
      opened = refl;
      numbers = refl;
    } in
    elim (Bool-cases (leb num max_batch)) [
      | inl small ↦
          let (c, run, all) = run_batch-Submitted 0 num (new_client selid) type some_trxs start in
          let e : 0 + num ≡ num = omega arith in
          (
            c,
            rw (small, run_number) (ap (λ r. r >>= λ s. ok s.0) run),
            subst (λ m. Submitted m 0 c) e all,
          )
      | inr large ↦
          let (c, run, all) =
            run_batches-Submitted num 0 num (new_client selid) type (omega arith) (omega arith)
              start in
          (c, rw (large, run_number) run, all)
    ]

time_loop-Submitted :
    (rounds n size : ℕ) (c : Client) (type : ℕ)
    → 0 < size
    → Submitted n 2 c
    → (c' : Client) × (time_loop rounds c type n size ≡ ok c') × Submitted (n + rounds * size) 0 c'
unfolding time_loop
time_loop-Submitted zero n size c type some_left h =
    let (one, first, h1) = wait_batch-Submitted n 1 c h in
    let (none_left, second, h0) = wait_batch-Submitted n 0 one h1 in
    let e : n ≡ n + 0 * size = omega arith in
    (
      none_left,
      ap (λ r. r >>= wait_batch) first ∙ second,
      subst (λ m. Submitted m 0 none_left) e h0,
    )
time_loop-Submitted (suc rounds) n size c type some_left h =
    let (one, first, h1) = wait_batch-Submitted n 1 c h in
    let (two, second, h2) = submit_batch-Submitted n 1 size one type (omega arith) some_left h1 in
    let (after, rest, all) = time_loop-Submitted rounds (n + size) size two type some_left h2 in
    let e : n + size + rounds * size ≡ n + suc rounds * size = ground arith in
    (
      after,
      ap (λ r. r >>= λ w. (submit_batch w type n size >>= λ s. time_loop rounds s.0 type s.1 size))
            first
          ∙ ap (λ r. r >>= λ s. time_loop rounds s.0 type s.1 size) second
          ∙ rest,
      subst (λ m. Submitted m 0 after) e all,
    )

-- For a positive batch size and no thinking time: a new client that runs until the test for the
-- exit succeeds for the first time, after any number of rounds, submits two batches and one for
-- each round, with the numbers from zero on. It always has at most two open batches, which have
-- different condexes; it waits only at the condex of the oldest open batch; and in the end it has
-- waited for all.
pub run_time-Submitted :
    (rounds selid type num size : ℕ)
    → 0 < size
    → (c : Client) × (run_xcts mt_time_dur rounds (new_client selid) type num size 0 ≡ ok c)
      × Submitted ((rounds + 2) * size) 0 c
unfolding run_xcts run_time new_client new_pair
run_time-Submitted rounds selid type num size some_left =
    let start : Submitted 0 0 (new_client selid) = record {
      wanted = refl;
      requested = refl;
      opened = refl;
      numbers = refl;
    } in
    let (one, first, h1) =
      submit_batch-Submitted 0 0 size (new_client selid) type (omega arith) some_left start in
    let (two, second, h2) =
      submit_batch-Submitted (0 + size) 1 size one type (omega arith) some_left h1 in
    let (c, rest, all) = time_loop-Submitted rounds (0 + size + size) size two type some_left h2 in
    let e : 0 + size + size + rounds * size ≡ (rounds + 2) * size = ground arith in
    (
      c,
      ap
            (λ r. r >>= λ s.
              (submit_batch s.0 type s.1 size >>= λ s'. time_loop rounds s'.0 type s'.1 size))
            first
          ∙ ap (λ r. r >>= λ s'. time_loop rounds s'.0 type s'.1 size) second
          ∙ rest,
      subst (λ m. Submitted m 0 c) e all,
    )
