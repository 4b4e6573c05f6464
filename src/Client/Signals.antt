-- ===== src/Client/Signals.antt =====
-- A client and the threads that serve it, over all interleavings. The two condexes are those of
-- src/kits/util/condex.h; a thread that has served a request with a condex signals it, as
-- `notify_client` of src/kits/reqs.cpp does.
use zapps.Client.Submits.{take_one-asked}
use zapps.Prelude.{
  suc, ltb, ltb→lt, err, assertion, ok-inj, zero, refl, sym, ◌∙◌, subst, ap, inl, inr, Bool-cases,
  false, ℕ, ◌+◌, ◌<◌, ◌≡◌, ◌%◌, List, [], ◌∷◌, ◌++◌, ◌==◌, if◌then◌else◌, Option, some, none, ok,
  true, ◌≤◌, arith, ◌↔◌,
}
use zapps.Worker.{Condex, signal, start_wait, wakes}
use zapps.Client.{CondexPair, new_pair, please_take_one, take_one, wait}

-- The pair, its condexes, the batches of which the last request is not yet served, and whether the
-- client waits, and for which batch.
pub record Config : Type 0 where
  pub cp : CondexPair
  pub condexes : ℕ → Condex
  pub unserved : List ℕ
  pub waiting : Option ℕ

unfoldable pub at_condex : ℕ → (Condex → Condex) → Config → Config
at_condex i f c = record c { condexes = λ j. if j == i then f (c.condexes i) else c.condexes j }

unfoldable pub initial : Config
unfolding new_pair
initial = record {
  cp = new_pair;
  condexes = λ i. record { signals = 0; waits = 0 };
  unserved = [];
  waiting = none;
}

-- The client submits a batch while fewer than two are open, and waits for the oldest one.
pub data Step : Config → Config → Type 0 where
  submit :
      (c : Config) (batch : ℕ) (cp : CondexPair)
      → c.waiting ≡ none
      → c.cp.requested < c.cp.waited + 2
      → take_one (please_take_one c.cp) ≡ (some (batch % 2), cp)
      → batch ≡ c.cp.requested
      → Step c (record c { cp = cp; unserved = batch ∷ c.unserved })
  serve :
      (c : Config) (before after : List ℕ) (batch : ℕ)
      → c.unserved ≡ before ++ (batch ∷ after)
      → Step c (at_condex (batch % 2) signal (record c { unserved = before ++ after }))
  begin_wait :
      (c : Config) (i : ℕ) (cp : CondexPair)
      → c.waiting ≡ none
      → wait c.cp ≡ ok (i, cp)
      → Step c (at_condex i start_wait (record c { cp = cp; waiting = some c.cp.waited }))
  end_wait :
      (c : Config) (batch : ℕ)
      → c.waiting ≡ some batch
      → wakes (c.condexes (batch % 2)) ≡ true
      → Step c (record c { waiting = none })

pub data Steps : Config → Config → Type 0 where
  stay : (c : Config) → Steps c c
  go : (c d e : Config) → Steps c d → Step d e → Steps c e

-- How many of the first `n` batches have the condex `p`, and how many of a list.
abbrev uses : ℕ → ℕ → ℕ
uses zero p = 0
uses (suc n) p = (if n % 2 == p then 1 else 0) + uses n p

abbrev pub count : ℕ → List ℕ → ℕ
count p [] = 0
count p (b ∷ bs) = (if b % 2 == p then 1 else 0) + count p bs

abbrev Open : Option ℕ → CondexPair → Type 0
Open none cp = cp.requested ≤ cp.waited + 2
Open (some b) cp = (cp.waited ≡ b + 1) × (cp.requested ≤ cp.waited + 1)

-- Each condex was signalled for the batches that used it and are served, and waited on for those
-- for which the client has waited.
record IsCounted (c : Config) : Type 0 where
  wanted : c.cp.wanted ≡ c.cp.requested
  ahead : c.cp.waited ≤ c.cp.requested
  opened : Open c.waiting c.cp
  signalled : (p : ℕ) → (c.condexes p).signals + count p c.unserved ≡ uses c.cp.requested p
  waited : (p : ℕ) → (c.condexes p).waits ≡ uses c.cp.waited p

uses-next : (n p : ℕ) → uses (n + 1) p ≡ (if n % 2 == p then 1 else 0) + uses n p
uses-next n p = let e : n + 1 ≡ suc n = omega arith in ap (λ m. uses m p) e

count-remove :
    (p b : ℕ) (before after : List ℕ)
    → count p (before ++ (b ∷ after)) ≡ (if b % 2 == p then 1 else 0) + count p (before ++ after)
count-remove p b [] after = refl
count-remove p b (x ∷ before) after = let ih = count-remove p b before after in ground arith

initial-IsCounted : IsCounted initial
unfolding initial new_pair
initial-IsCounted = record {
  wanted = refl;
  ahead = omega arith;
  opened = omega arith;
  signalled = λ p. refl;
  waited = λ p. refl;
}

signals-signal :
    (p i : ℕ) (c : Config)
    → ((at_condex i signal c).condexes p).signals
      ≡ (if i == p then 1 else 0) + (c.condexes p).signals
unfolding at_condex signal
signals-signal p i c = elim (Bool-cases (p == i)) [
  | inl e ↦
      let same : i ≡ p = ground arith in
      let back : (i == p) ≡ true = ground arith in
      rw (e, back)
        (subst (λ q. (c.condexes i).signals + 1 ≡ 1 + (c.condexes q).signals) same (omega arith))
  | inr e ↦ let back : (i == p) ≡ false = ground arith in rw (e, back) (omega arith)
]

waits-signal :
    (p i : ℕ) (c : Config) → ((at_condex i signal c).condexes p).waits ≡ (c.condexes p).waits
unfolding at_condex signal
waits-signal p i c = elim (Bool-cases (p == i)) [
  | inl e ↦ let same : i ≡ p = ground arith in rw e (ap (λ q. (c.condexes q).waits) same)
  | inr e ↦ rw e refl
]

signals-start_wait :
    (p i : ℕ) (c : Config)
    → ((at_condex i start_wait c).condexes p).signals ≡ (c.condexes p).signals
unfolding at_condex start_wait
signals-start_wait p i c = elim (Bool-cases (p == i)) [
  | inl e ↦ let same : i ≡ p = ground arith in rw e (ap (λ q. (c.condexes q).signals) same)
  | inr e ↦ rw e refl
]

waits-start_wait :
    (p i : ℕ) (c : Config)
    → ((at_condex i start_wait c).condexes p).waits
      ≡ (if i == p then 1 else 0) + (c.condexes p).waits
unfolding at_condex start_wait
waits-start_wait p i c = elim (Bool-cases (p == i)) [
  | inl e ↦
      let same : i ≡ p = ground arith in
      let back : (i == p) ≡ true = ground arith in
      rw (e, back)
        (subst (λ q. (c.condexes i).waits + 1 ≡ 1 + (c.condexes q).waits) same (omega arith))
  | inr e ↦ let back : (i == p) ≡ false = ground arith in rw (e, back) (omega arith)
]

wait-ok :
    (cp cp' : CondexPair) (i : ℕ)
    → wait cp ≡ ok (i, cp')
    → (cp.waited < cp.requested)
      × (i ≡ cp.waited % 2)
      × (record cp { waited = cp.waited + 1 } ≡ cp')
unfolding wait
wait-ok cp cp' i waits = elim (Bool-cases (ltb cp.waited cp.requested)) [
  | inl some_left ↦
      let done : wait cp ≡ ok (cp.waited % 2, record cp { waited = cp.waited + 1 }) =
        rw some_left refl in
      let same = ok-inj (sym done ∙ waits) in
      (ltb→lt cp.waited cp.requested some_left, ap (λ r. r.0) (sym same), ap (λ r. r.1) same)
  | inr none_left ↦ let stops : wait cp ≡ err assertion = rw none_left refl in cc
]

Step-IsCounted : {c d : Config} → Step c d → IsCounted c → IsCounted d
unfolding at_condex
Step-IsCounted (submit c b cp idle room taken same) h =
    let e = ap (λ t. t.1) (sym (take_one-asked c.cp h.wanted) ∙ taken) in
    subst (λ q. IsCounted (record c { cp = q; unserved = b ∷ c.unserved })) e
      (record {
        wanted = ap (λ n. n + 1) h.wanted;
        ahead = omega (arith, h.ahead);
        opened =
            let room_left : c.cp.requested + 1 ≤ c.cp.waited + 2 = omega (arith, room) in
            subst
              (λ o.
                Open o (record c.cp { wanted = c.cp.wanted + 1; requested = c.cp.requested + 1 }))
              (sym idle) room_left;
        signalled = λ p.
            (let next = uses-next c.cp.requested p in
              let so_far = h.signalled p in
              let newest = ap {B = ℕ} (λ n. if n % 2 == p then 1 else 0) same in
              omega (arith, next, so_far, newest));
        waited = h.waited;
      })
Step-IsCounted (serve c before after b split) h = record {
  wanted = h.wanted;
  ahead = h.ahead;
  opened = h.opened;
  signalled = λ p.
      (let changed = signals-signal p (b % 2) (record c { unserved = before ++ after }) in
        let removed = count-remove p b before after in
        let so_far = h.signalled p in
        let all = ap (count p) split in omega (arith, changed, removed, so_far, all));
  waited = λ p. waits-signal p (b % 2) (record c { unserved = before ++ after }) ∙ h.waited p;
}
Step-IsCounted (begin_wait c i cp idle waits) h =
    let (some_left, at, e) = wait-ok c.cp cp i waits in
    let opened : c.cp.requested ≤ c.cp.waited + 2 = subst (λ o. Open o c.cp) idle h.opened in
    let after : Config = record c {
      cp = record c.cp { waited = c.cp.waited + 1 };
      waiting = some c.cp.waited;
    } in
    let signals-after : (p : ℕ)
        → ((at_condex i start_wait after).condexes p).signals + count p c.unserved
          ≡ uses c.cp.requested p =
      λ p.
        (let kept = signals-start_wait p i after in
          let so_far = h.signalled p in omega (arith, kept, so_far)) in
    let waits-after : (p : ℕ)
        → ((at_condex i start_wait after).condexes p).waits ≡ uses (c.cp.waited + 1) p =
      λ p.
        (let changed = waits-start_wait p i after in
          let so_far = h.waited p in
          let next = uses-next c.cp.waited p in
          let this = ap {B = ℕ} (λ n. if n == p then 1 else 0) at in
          omega (arith, changed, so_far, next, this)) in
    subst
      (λ q. IsCounted (at_condex i start_wait (record c { cp = q; waiting = some c.cp.waited }))) e
      (record {
        wanted = h.wanted;
        ahead = omega (arith, some_left);
        opened = (refl, omega (arith, opened));
        signalled = λ p. signals-after p;
        waited = λ p. waits-after p;
      })
Step-IsCounted (end_wait c b busy ready) h =
    let opened : (c.cp.waited ≡ b + 1) × (c.cp.requested ≤ c.cp.waited + 1) =
      subst (λ o. Open o c.cp) busy h.opened in
    record {
      wanted = h.wanted;
      ahead = h.ahead;
      opened = omega (arith, opened);
      signalled = h.signalled;
      waited = h.waited;
    }

Steps-IsCounted : {c d : Config} → Steps c d → IsCounted c → IsCounted d
Steps-IsCounted (stay c) h = h
Steps-IsCounted (go c d e steps step) h = Step-IsCounted step (Steps-IsCounted steps h)

-- The two batches that may be open have different condexes.
uses-other : (b : ℕ) → uses (b + 2) (b % 2) ≡ uses (b + 1) (b % 2)
uses-other b =
    let next = uses-next (b + 1) (b % 2) in
    let e : b + 2 ≡ b + 1 + 1 = omega arith in
    let other : ((b + 1) % 2 == b % 2) ≡ false = ground arith in
    ap (λ n. uses n (b % 2)) e ∙ next ∙ rw other (omega arith)

uses-open : (b n : ℕ) → b + 1 ≤ n → n ≤ b + 2 → uses n (b % 2) ≡ uses (b + 1) (b % 2)
uses-open b n low high = elim (Bool-cases (n == b + 1)) [
  | inl e ↦ let same : n ≡ b + 1 = ground arith in ap (λ m. uses m (b % 2)) same
  | inr e ↦ let same : n ≡ b + 2 = ground arith in ap (λ m. uses m (b % 2)) same ∙ uses-other b
]

-- After any interleaving of a client and the threads that serve its requests: the wait for a batch
-- may end exactly when no batch with its condex is unserved. So it does not end before its own
-- batch is served, and no signal for it is lost.
pub end_wait-unserved :
    {c : Config} (b : ℕ)
    → Steps initial c
    → c.waiting ≡ some b
    → (wakes (c.condexes (b % 2)) ≡ true) ↔ (count (b % 2) c.unserved ≡ 0)
unfolding wakes
end_wait-unserved {c} b steps busy =
    let h = Steps-IsCounted steps initial-IsCounted in
    let (at, near) : (c.cp.waited ≡ b + 1) × (c.cp.requested ≤ c.cp.waited + 1) =
      subst (λ o. Open o c.cp) busy h.opened in
    let signals = h.signalled (b % 2) in
    let waits = h.waited (b % 2) ∙ ap (λ n. uses n (b % 2)) at in
    let issued =
      uses-open b c.cp.requested (omega (arith, at, h.ahead)) (omega (arith, at, near)) in
    (λ ready. ground arith, λ served. ground arith)
