-- ===== src/Scanner.antt =====
-- The dispatch of log records to handlers: `BaseScanner` of src/base/scanner.h and scanner.cpp.
-- Log records belong to the storage manager: a record is what the dispatch reads of it. A handler
-- is a number, and what the handlers do is the sequence of the calls to them.
pub mod Received
pub mod Blocks
pub mod Records
pub mod Finalized
pub mod First
pub mod Reading
pub mod Archives
pub mod Finals
pub mod Chains
use zapps.Prelude.{
  ℕ, zero, suc, Bool, ◌||◌, if◌then◌else◌, List, [], ◌∷◌, ◌++◌, Option, some, none, get_elem?,
}

pub record Logrec : Type 0 where
  pub type : ℕ
  pub has_pid : Bool
  pub single_sys_xct : Bool
  pub has_tid : Bool

pub record BaseScanner : Type 0 where
  pub any_handlers : List ℕ
  pub pid_handlers : List ℕ
  pub transaction_handlers : List ℕ
  pub type_handlers : List (List ℕ)

pub data Call : Type 0 where
  invoked : ℕ → Logrec → Call
  finalized : ℕ → Call

-- `at` throws if there is no such element; the calls until then were made.
pub data Handled : Type 0 where
  handled : List Call → Handled
  thrown : List Call → Handled

unfoldable pub invoke_each : List ℕ → Logrec → List Call → List Call
invoke_each [] r calls = calls
invoke_each (h ∷ hs) r calls = invoke_each hs r (calls ++ (invoked h r ∷ []))

-- The handlers for the type of a record, of which there are none if no type has handlers.
unfoldable pub handlers_for : List (List ℕ) → ℕ → Option (List ℕ)
handlers_for [] type = some []
handlers_for (hs ∷ hss) type = get_elem? (hs ∷ hss) type

unfoldable pub invoke_typed : Option (List ℕ) → Logrec → List Call → Handled
unfolding invoke_each
invoke_typed none r calls = thrown calls
invoke_typed (some hs) r calls = handled (invoke_each hs r calls)

unfoldable pub handle : BaseScanner → Logrec → List Call → Handled
unfolding invoke_each handlers_for invoke_typed
handle s r calls =
    let any = invoke_each s.any_handlers r calls in
    let pid = if r.has_pid then invoke_each s.pid_handlers r any else any in
    let transaction =
      if r.single_sys_xct || r.has_tid then invoke_each s.transaction_handlers r pid else pid in
    invoke_typed (handlers_for s.type_handlers r.type) r transaction

unfoldable pub finalize_each : List ℕ → List Call → List Call
finalize_each [] calls = calls
finalize_each (h ∷ hs) calls = finalize_each hs (calls ++ (finalized h ∷ []))

-- The loop over the types, of which `count` are left: `at` throws if there is no list for one.
unfoldable pub finalize_typed : ℕ → List (List ℕ) → List Call → Handled
unfolding finalize_each
finalize_typed zero hss calls = handled calls
finalize_typed (suc count) [] calls = thrown calls
finalize_typed (suc count) (hs ∷ hss) calls = finalize_typed count hss (finalize_each hs calls)

-- If there are no lists for the types, the loop over the `t_max` types has no round.
unfoldable pub finalize_types : ℕ → List (List ℕ) → List Call → Handled
unfolding finalize_typed
finalize_types t_max [] calls = handled calls
finalize_types t_max (hs ∷ hss) calls = finalize_typed t_max (hs ∷ hss) calls

unfoldable pub finalize : ℕ → BaseScanner → List Call → Handled
unfolding finalize_each finalize_types
finalize t_max s calls = finalize_types t_max s.type_handlers (
    finalize_each s.transaction_handlers
      (finalize_each s.pid_handlers (finalize_each s.any_handlers calls)))
