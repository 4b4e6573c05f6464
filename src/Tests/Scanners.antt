-- ===== src/Tests/Scanners.antt =====
-- A scanner with three handlers: 1 for any record, 2 for those of pages and twice for those of
-- transactions, 3 for the type 1. Then a scan of log files whose blocks have two bytes.
use zapps.Prelude.{
  ◌≡◌, refl, true, false, List, [], ◌∷◌, ℕ, none, arith, ◌+◌, length, Option, if◌then◌else◌, ◌==◌,
  some, inl, inr,
}
use zapps.Scanner.{
  Logrec, BaseScanner, Call, handled, thrown, invoked, handlers_for, finalize, finalized, handle,
  invoke_typed, invoke_each,
}
use zapps.Prelude.Memory.{Bytes}
use zapps.Scanner.Blocks.{
  LogFiles, LogScanner, scan_files, get_next_file, end_run, find_first_file, read_part, run,
}
use zapps.Scanner.Archives.{RunFile, run_archive, hole_found}
use zapps.Scanner.Finals.{finals}
use zapps.Scanner.Chains.{run_archive-until_hole}
use zapps.Scanner.Reading.{run-log_records}
use zapps.Scanner.Received.{received, handle_all, received-handle_all}

abbrev scanner : BaseScanner
scanner = record {
  any_handlers = 1 ∷ [];
  pid_handlers = 2 ∷ [];
  transaction_handlers = 2 ∷ 2 ∷ [];
  type_handlers = [] ∷ (3 ∷ []) ∷ [];
}

abbrev page_record : Logrec
page_record = record { type = 0; has_pid = true; single_sys_xct = false; has_tid = false }

abbrev commit_record : Logrec
commit_record = record { type = 1; has_pid = false; single_sys_xct = false; has_tid = true }

finalized_each :
    finalize 2 scanner []
    ≡ handled (finalized 1 ∷ finalized 2 ∷ finalized 2 ∷ finalized 2 ∷ finalized 3 ∷ [])
unfolding finalize
finalized_each = refl

-- With fewer lists than types the end of the scan throws.
finalized_short :
    finalize 3 scanner []
    ≡ thrown (finalized 1 ∷ finalized 2 ∷ finalized 2 ∷ finalized 2 ∷ finalized 3 ∷ [])
unfolding finalize
finalized_short = refl

received-handle_all_example :
    (after : List Call) × (handle_all scanner (page_record ∷ commit_record ∷ []) [] ≡ handled after)
    × (received 2 after ≡ page_record ∷ commit_record ∷ commit_record ∷ [])
unfolding handlers_for
received-handle_all_example =
    received-handle_all scanner 2 (page_record ∷ commit_record ∷ []) [] ((_, refl), ((_, refl), tt))

-- Each byte of a block is a record of that type.
abbrev record_of_type : ℕ → Logrec
record_of_type b = record { type = b; has_pid = false; single_sys_xct = false; has_tid = false }

abbrev records_of : Bytes → ℕ → List (Logrec × ℕ × ℕ)
records_of [] n = []
records_of (b ∷ bs) n = (record_of_type b, n + 1, 0) ∷ records_of bs (n + 1)

abbrev parser : LogScanner ℕ
parser = record {
  next_logrecs =
      λ l block. record { records = records_of block 0; position = length block; state = 0 };
}

abbrev block_file : ℕ → Option (List Bytes)
block_file n =
    if n == 3
    then some ((0 ∷ 1 ∷ []) ∷ [])
    else if n == 4
    then some ((1 ∷ 9 ∷ []) ∷ (5 ∷ 6 ∷ []) ∷ [])
    else none

abbrev log_files : LogFiles
log_files = record { listed = 7 ∷ 3 ∷ 4 ∷ []; file = block_file; restrict_file = none }

abbrev typed_scanner : BaseScanner
typed_scanner = record {
  any_handlers = 1 ∷ [];
  pid_handlers = [];
  transaction_handlers = [];
  type_handlers = [];
}

-- The files 3 and 4, of which the record of type 9 ends the second.
run-log_records_example :
    run 9 parser typed_scanner 10 3 log_files (0 ∷ 0 ∷ []) 0
    ≡ handled (
        invoked 1 (record_of_type 0)
        ∷ invoked 1 (record_of_type 1)
        ∷ invoked 1 (record_of_type 1)
        ∷ invoked 1 (record_of_type 9)
        ∷ finalized 1
        ∷ [])
unfolding find_first_file handle invoke_typed handlers_for invoke_each finalize read_part
run-log_records_example =
    run-log_records 9 parser typed_scanner 10 3 3 log_files
      (((0 ∷ 1 ∷ []) ∷ []) ∷ ((1 ∷ 9 ∷ []) ∷ (5 ∷ 6 ∷ []) ∷ []) ∷ []) (0 ∷ 0 ∷ []) 0 (omega arith)
      (inl refl) refl
      (record {
        smallest = (omega arith, (omega arith, (omega arith, tt)));
        bounded = omega arith;
        among = inr (inl refl);
      })
      (refl, (refl, refl))

-- In a directory without log files the scan ends without an exception.
no_log_files :
    run 9 parser typed_scanner 10 1
      (record { listed = []; file = λ n. none; restrict_file = none })
      (0 ∷ 0 ∷ [])
      0
    ≡ handled (finalized 1 ∷ [])
unfolding run scan_files get_next_file end_run finalize
no_log_files = refl

abbrev runs : List RunFile
runs =
    record { begin = 1; end = 4; records = record_of_type 0 ∷ record_of_type 1 ∷ [] }
    ∷ record { begin = 4; end = 6; records = record_of_type 2 ∷ [] }
    ∷ record { begin = 7; end = 9; records = record_of_type 3 ∷ [] }
    ∷ []

-- The third run does not begin at the end of the second.
run_archive-until_hole_example :
    (after : List Call) × (run_archive
        (λ files. files)
        typed_scanner
        (record { listed = runs; restrict_file = none })
      ≡ hole_found after)
    × (received 1 after ≡ record_of_type 0 ∷ record_of_type 1 ∷ record_of_type 2 ∷ [])
    × (finals after ≡ [])
unfolding handlers_for
run_archive-until_hole_example =
    run_archive-until_hole (λ files. files) typed_scanner 1
      (record { listed = runs; restrict_file = none })
      (record { begin = 1; end = 4; records = record_of_type 0 ∷ record_of_type 1 ∷ [] })
      (record { begin = 4; end = 6; records = record_of_type 2 ∷ [] }
        ∷ record { begin = 7; end = 9; records = record_of_type 3 ∷ [] }
        ∷ [])
      refl ((_, refl), ((_, refl), ((_, refl), tt)))
