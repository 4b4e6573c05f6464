-- ===== src/Scanner/Finals.antt =====
-- Which handlers are finalized: none is by what the dispatch of records calls.
use zapps.Prelude.{
  ℕ, ◌≡◌, refl, ◌∙◌, ap, subst, Bool, true, false, ◌||◌, if◌then◌else◌, List, [], ◌∷◌, ◌++◌, Option,
  some, none,
}
use zapps.Scanner.{
  Logrec, BaseScanner, Call, invoked, finalized, Handled, handled, thrown, invoke_each,
  handlers_for, invoke_typed, handle,
}
use zapps.Scanner.Received.{continue, handle_all}

-- The handlers that were finalized.
abbrev pub finals : List Call → List ℕ
finals [] = []
finals (invoked h r ∷ calls) = finals calls
finals (finalized h ∷ calls) = h ∷ finals calls

abbrev pub HasFinals : List ℕ → Handled → Type 0
HasFinals hs (handled calls) = finals calls ≡ hs
HasFinals hs (thrown calls) = finals calls ≡ hs

finals-invoked :
    (h : ℕ) (r : Logrec) (calls : List Call) → finals (calls ++ (invoked h r ∷ [])) ≡ finals calls
finals-invoked h r [] = refl
finals-invoked h r (invoked g q ∷ calls) = finals-invoked h r calls
finals-invoked h r (finalized g ∷ calls) = ap (λ hs. g ∷ hs) (finals-invoked h r calls)

finals-invoke_each :
    (hs : List ℕ) (r : Logrec) (calls : List Call) → finals (invoke_each hs r calls) ≡ finals calls
unfolding invoke_each
finals-invoke_each [] r calls = refl
finals-invoke_each (h ∷ hs) r calls =
    finals-invoke_each hs r (calls ++ (invoked h r ∷ [])) ∙ finals-invoked h r calls

finals-if :
    (b : Bool) (hs : List ℕ) (r : Logrec) (calls : List Call)
    → finals (if b then invoke_each hs r calls else calls) ≡ finals calls
finals-if true hs r calls = finals-invoke_each hs r calls
finals-if false hs r calls = refl

invoke_typed-HasFinals :
    (o : Option (List ℕ)) (r : Logrec) (calls : List Call)
    → HasFinals (finals calls) (invoke_typed o r calls)
unfolding invoke_typed
invoke_typed-HasFinals none r calls = refl
invoke_typed-HasFinals (some hs) r calls = finals-invoke_each hs r calls

handle-HasFinals :
    (s : BaseScanner) (r : Logrec) (calls : List Call) → HasFinals (finals calls) (handle s r calls)
unfolding handle
handle-HasFinals s r calls =
    let any : List Call = invoke_each s.any_handlers r calls in
    let pid : List Call = if r.has_pid then invoke_each s.pid_handlers r any else any in
    let acts : Bool = r.single_sys_xct || r.has_tid in
    let transaction : List Call = if acts then invoke_each s.transaction_handlers r pid else pid in
    subst (λ hs. HasFinals hs (handle s r calls))
      (finals-if acts s.transaction_handlers r pid
        ∙ finals-if r.has_pid s.pid_handlers r any
        ∙ finals-invoke_each s.any_handlers r calls)
      (invoke_typed-HasFinals (handlers_for s.type_handlers r.type) r transaction)

continue-HasFinals :
    (h : Handled) (rest : List Call → Handled) (hs : List ℕ)
    → HasFinals hs h
    → ((calls : List Call) → HasFinals (finals calls) (rest calls))
    → HasFinals hs (continue h rest)
continue-HasFinals (handled calls) rest hs now after =
    subst (λ gs. HasFinals gs (rest calls)) now (after calls)
continue-HasFinals (thrown calls) rest hs now after = now

pub handle_all-HasFinals :
    (s : BaseScanner) (rs : List Logrec) (calls : List Call)
    → HasFinals (finals calls) (handle_all s rs calls)
handle_all-HasFinals s [] calls = refl
handle_all-HasFinals s (r ∷ rs) calls =
    continue-HasFinals (handle s r calls) (handle_all s rs) (finals calls)
      (handle-HasFinals s r calls) (handle_all-HasFinals s rs)
