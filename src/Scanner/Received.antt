-- ===== src/Scanner/Received.antt =====
-- What a handler receives.
use mathlib.Core.List.{append_assoc, append-nil}
use zapps.Prelude.{
  ℕ, ◌≡◌, refl, sym, ◌∙◌, ap, Bool, true, false, ◌||◌, ◌==◌, if◌then◌else◌, List, [], ◌∷◌, ◌++◌,
  some, none,
}
use zapps.Scanner.{
  Logrec, BaseScanner, Call, invoked, finalized, Handled, handled, thrown, invoke_each,
  handlers_for, invoke_typed, handle,
}

abbrev pub only_if : {A : Type 0} → Bool → List A → List A
only_if b rs = if b then rs else []

-- The records that a handler was called with, in order.
abbrev pub received : ℕ → List Call → List Logrec
received h [] = []
received h (invoked g r ∷ calls) = only_if (g == h) (r ∷ []) ++ received h calls
received h (finalized g ∷ calls) = received h calls

-- A record, once for each time that the handler stands in a list.
abbrev pub copies : ℕ → List ℕ → Logrec → List Logrec
copies h [] r = []
copies h (g ∷ gs) r = only_if (g == h) (r ∷ []) ++ copies h gs r

received-append :
    (h : ℕ) (xs ys : List Call) → received h (xs ++ ys) ≡ received h xs ++ received h ys
received-append h [] ys = refl
received-append h (invoked g r ∷ xs) ys =
    ap (λ rest. only_if (g == h) (r ∷ []) ++ rest) (received-append h xs ys)
    ∙ sym (append_assoc (only_if (g == h) (r ∷ [])) (received h xs) (received h ys))
received-append h (finalized g ∷ xs) ys = received-append h xs ys

received-invoke_each :
    (h : ℕ) (hs : List ℕ) (r : Logrec) (calls : List Call)
    → received h (invoke_each hs r calls) ≡ received h calls ++ copies h hs r
unfolding invoke_each
received-invoke_each h [] r calls = sym (append-nil (received h calls))
received-invoke_each h (g ∷ hs) r calls =
    let one : List Logrec = only_if (g == h) (r ∷ []) in
    received-invoke_each h hs r (calls ++ (invoked g r ∷ []))
    ∙ ap (λ rs. rs ++ copies h hs r)
        (received-append h calls (invoked g r ∷ [])
          ∙ ap (λ x. received h calls ++ x) (append-nil one))
    ∙ append_assoc (received h calls) one (copies h hs r)

received-if :
    (h : ℕ) (b : Bool) (hs : List ℕ) (r : Logrec) (calls : List Call)
    → received h (if b then invoke_each hs r calls else calls)
      ≡ received h calls ++ only_if b (copies h hs r)
received-if h true hs r calls = received-invoke_each h hs r calls
received-if h false hs r calls = sym (append-nil (received h calls))

-- What a handler receives of one record: as one for any record, for those of pages, for those of
-- transactions, and for those of its type.
abbrev pub share : BaseScanner → ℕ → Logrec → List Logrec
unfolding handlers_for
share s h r =
    copies h s.any_handlers r
    ++ only_if r.has_pid (copies h s.pid_handlers r)
    ++ only_if (r.single_sys_xct || r.has_tid) (copies h s.transaction_handlers r)
    ++ elim (handlers_for s.type_handlers r.type) [ some hs ↦ copies h hs r | none ↦ [] ]

abbrev pub shares : BaseScanner → ℕ → List Logrec → List Logrec
shares s h [] = []
shares s h (r ∷ rs) = share s h r ++ shares s h rs

-- Every type has a list of handlers, or no type has.
abbrev pub IsServed : BaseScanner → List Logrec → Type 0
IsServed s [] = Unit {0}
IsServed s (r ∷ rs) =
    ((hs : List ℕ) × (handlers_for s.type_handlers r.type ≡ some hs)) × IsServed s rs

abbrev pub continue : Handled → (List Call → Handled) → Handled
continue (handled calls) rest = rest calls
continue (thrown calls) rest = thrown calls

-- The records of a log, one after the other.
abbrev pub handle_all : BaseScanner → List Logrec → List Call → Handled
handle_all s [] calls = handled calls
handle_all s (r ∷ rs) calls = continue (handle s r calls) (handle_all s rs)

regroup :
    (calls any pid transaction typed : List Logrec)
    → calls ++ any ++ pid ++ transaction ++ typed ≡ calls ++ (any ++ pid ++ transaction ++ typed)
regroup calls any pid transaction typed =
    ap (λ x. x ++ typed)
      (ap (λ x. x ++ transaction) (append_assoc calls any pid)
        ∙ append_assoc calls (any ++ pid) transaction)
    ∙ append_assoc calls (any ++ pid ++ transaction) typed

received-handle :
    (s : BaseScanner) (h : ℕ) (r : Logrec) (hs : List ℕ) (calls : List Call)
    → handlers_for s.type_handlers r.type ≡ some hs
    → (after : List Call) × (handle s r calls ≡ handled after)
      × (received h after ≡ received h calls ++ share s h r)
unfolding handle invoke_typed share
received-handle s h r hs calls known =
    let any : List Call = invoke_each s.any_handlers r calls in
    let pid : List Call = if r.has_pid then invoke_each s.pid_handlers r any else any in
    let acts : Bool = r.single_sys_xct || r.has_tid in
    let transaction : List Call = if acts then invoke_each s.transaction_handlers r pid else pid in
    (
      invoke_each hs r transaction,
      ap (λ o. invoke_typed o r transaction) known,
      received-invoke_each h hs r transaction
          ∙ ap (λ x. x ++ copies h hs r)
              (received-if h acts s.transaction_handlers r pid
                ∙ ap (λ x. x ++ only_if acts (copies h s.transaction_handlers r))
                    (received-if h r.has_pid s.pid_handlers r any
                      ∙ ap (λ x. x ++ only_if r.has_pid (copies h s.pid_handlers r))
                          (received-invoke_each h s.any_handlers r calls)))
          ∙ regroup (received h calls) (copies h s.any_handlers r)
              (only_if r.has_pid (copies h s.pid_handlers r))
              (only_if acts (copies h s.transaction_handlers r)) (copies h hs r)
          ∙ ap
              (λ o.
                received h calls
                ++ (copies h s.any_handlers r
                    ++ only_if r.has_pid (copies h s.pid_handlers r)
                    ++ only_if acts (copies h s.transaction_handlers r)
                    ++ elim o [ some gs ↦ copies h gs r | none ↦ [] ]))
              (sym known),
    )

-- If every type of the records has a list of handlers, or no type has: the scanner gives every
-- record to its handlers without an exception, and a handler receives the records for which it is
-- registered, in the order of the log and once for each registration.
pub received-handle_all :
    (s : BaseScanner) (h : ℕ) (rs : List Logrec) (calls : List Call)
    → IsServed s rs
    → (after : List Call) × (handle_all s rs calls ≡ handled after)
      × (received h after ≡ received h calls ++ shares s h rs)
received-handle_all s h [] calls served = (calls, refl, sym (append-nil (received h calls)))
received-handle_all s h (r ∷ rs) calls ((hs, known), served) =
    let (mid, first, got) = received-handle s h r hs calls known in
    let (after, rest, all) = received-handle_all s h rs mid served in
    (
      after,
      ap (λ o. continue o (handle_all s rs)) first ∙ rest,
      all
          ∙ ap (λ x. x ++ shares s h rs) got
          ∙ append_assoc (received h calls) (share s h r) (shares s h rs),
    )
