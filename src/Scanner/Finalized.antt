-- ===== src/Scanner/Finalized.antt =====
-- Which handlers the end of a scan finalizes.
use mathlib.Core.List.{append_assoc, append-nil}
use zapps.Prelude.{
  ℕ, zero, suc, ◌≡◌, ◌⊎◌, inl, inr, refl, sym, ◌∙◌, ap, arith, List, [], ◌∷◌, ◌++◌, length,
}
use zapps.Scanner.{
  BaseScanner, Call, finalized, handled, finalize, finalize_each, finalize_types, finalize_typed,
}

abbrev pub finalizations : List ℕ → List Call
finalizations [] = []
finalizations (h ∷ hs) = finalized h ∷ finalizations hs

abbrev pub flat : List (List ℕ) → List ℕ
flat [] = []
flat (hs ∷ hss) = hs ++ flat hss

-- The handlers of a scanner, once for each list in which they stand.
abbrev pub all_handlers : BaseScanner → List ℕ
all_handlers s =
    s.any_handlers ++ (s.pid_handlers ++ (s.transaction_handlers ++ flat s.type_handlers))

-- There is a list for each of the types, or for none.
abbrev pub IsComplete : ℕ → BaseScanner → Type 0
IsComplete t_max s = (s.type_handlers ≡ []) ⊎ (length s.type_handlers ≡ t_max)

finalizations-append :
    (xs ys : List ℕ) → finalizations (xs ++ ys) ≡ finalizations xs ++ finalizations ys
finalizations-append [] ys = refl
finalizations-append (x ∷ xs) ys = ap (λ calls. finalized x ∷ calls) (finalizations-append xs ys)

finalize_each_lem :
    (hs : List ℕ) (calls : List Call) → finalize_each hs calls ≡ calls ++ finalizations hs
unfolding finalize_each
finalize_each_lem [] calls = sym (append-nil calls)
finalize_each_lem (h ∷ hs) calls =
    finalize_each_lem hs (calls ++ (finalized h ∷ []))
    ∙ append_assoc calls (finalized h ∷ []) (finalizations hs)

-- After the handlers of one list come the others.
then_rest :
    (hs rest : List ℕ) (calls : List Call)
    → finalize_each hs calls ++ finalizations rest ≡ calls ++ finalizations (hs ++ rest)
then_rest hs rest calls =
    ap (λ xs. xs ++ finalizations rest) (finalize_each_lem hs calls)
    ∙ append_assoc calls (finalizations hs) (finalizations rest)
    ∙ ap (λ xs. calls ++ xs) (sym (finalizations-append hs rest))

finalize_typed_lem :
    (t_max : ℕ) (hss : List (List ℕ)) (calls : List Call)
    → length hss ≡ t_max
    → finalize_typed t_max hss calls ≡ handled (calls ++ finalizations (flat hss))
unfolding finalize_typed
finalize_typed_lem zero [] calls same = ap handled (sym (append-nil calls))
finalize_typed_lem zero (hs ∷ hss) calls same = absurd (omega (arith, same))
finalize_typed_lem (suc n) [] calls same = absurd (omega (arith, same))
finalize_typed_lem (suc n) (hs ∷ hss) calls same =
    finalize_typed_lem n hss (finalize_each hs calls) (omega (arith, same))
    ∙ ap handled (then_rest hs (flat hss) calls)

finalize_types_lem :
    (t_max : ℕ) (hss : List (List ℕ)) (calls : List Call)
    → (hss ≡ []) ⊎ (length hss ≡ t_max)
    → finalize_types t_max hss calls ≡ handled (calls ++ finalizations (flat hss))
unfolding finalize_types
finalize_types_lem t_max [] calls complete = ap handled (sym (append-nil calls))
finalize_types_lem t_max (hs ∷ hss) calls (inl none_there) = cc
finalize_types_lem t_max (hs ∷ hss) calls (inr same) =
    finalize_typed_lem t_max (hs ∷ hss) calls same

pub finalize_lem :
    (t_max : ℕ) (s : BaseScanner) (calls : List Call)
    → IsComplete t_max s
    → finalize t_max s calls ≡ handled (calls ++ finalizations (all_handlers s))
unfolding finalize
finalize_lem t_max s calls complete =
    let any : List Call = finalize_each s.any_handlers calls in
    let pid : List Call = finalize_each s.pid_handlers any in
    let typed : List ℕ = flat s.type_handlers in
    finalize_types_lem t_max s.type_handlers (finalize_each s.transaction_handlers pid) complete
    ∙ ap handled (
        then_rest s.transaction_handlers typed pid
        ∙ then_rest s.pid_handlers (s.transaction_handlers ++ typed) any
        ∙ then_rest s.any_handlers (s.pid_handlers ++ (s.transaction_handlers ++ typed)) calls)
