-- ===== src/Scanner/Reading.antt =====
-- The scan of the log against an independent description: the records that the files hold, all of
-- which are read first, and then the handlers.
use zapps.Prelude.{
  ◌++◌, ℕ, zero, suc, ◌≡◌, refl, ◌∙◌, ap, Bool, true, false, ◌==◌, List, [], ◌∷◌, Option, none,
  some, length, ◌<◌, arith, subst, sym,
}
use zapps.Prelude.Memory.{Bytes}
use zapps.Scanner.{Logrec, BaseScanner, Call, Handled, handled, thrown, handle}
use zapps.Scanner.Received.{continue, handle_all}
use zapps.Scanner.Blocks.{
  LogFiles, LogScanner, Scan, scanned, failed, and_then, get_next_file, read_part, scan_records,
  scan_block, scan_parts, scan_files, scan_restricted, end_run, run,
}
use zapps.Scanner.First.{IsFirst, find_first_file-IsFirst}
use zapps.Scanner.Finalized.{IsComplete, finalizations, all_handlers, finalize_lem}
use zapps.Scanner.Records.{
  handing, IsLog, records_until_skip, block_records, file_records, log_records, and_then-append,
}

module _ {L : Type 0} (t_skip : ℕ) (parser : LogScanner L) (s : BaseScanner) where
  -- One record, with what its handlers do and whether it ends the file.
  scan_record :
      (h : Handled) (ends : Bool) (stop last : ℕ × L × Bool) (rs : List (Logrec × ℕ × L))
      → ((calls : List Call)
          → scan_records t_skip parser s rs last calls
            ≡ handing
                (handle_all s (records_until_skip t_skip parser rs last).0 calls)
                (records_until_skip t_skip parser rs last).1)
      → elim h [
        | thrown calls ↦ failed calls
        | handled calls ↦ elim ends [
          | true ↦ scanned stop calls
          | false ↦ scan_records t_skip parser s rs last calls
        ]
      ]
        ≡ handing
            (continue h (
              handle_all s
                (elim ends [ true ↦ [] | false ↦ (records_until_skip t_skip parser rs last).0 ])))
            (elim ends [ true ↦ stop | false ↦ (records_until_skip t_skip parser rs last).1 ])
  scan_record (thrown calls) ends stop last rs same = refl
  scan_record (handled calls) true stop last rs same = refl
  scan_record (handled calls) false stop last rs same = same calls

  scan_records_lem :
      (rs : List (Logrec × ℕ × L)) (last : ℕ × L × Bool) (calls : List Call)
      → scan_records t_skip parser s rs last calls
        ≡ handing
            (handle_all s (records_until_skip t_skip parser rs last).0 calls)
            (records_until_skip t_skip parser rs last).1
  unfolding scan_records
  scan_records_lem [] last calls = refl
  scan_records_lem ((r, bpos, l) ∷ rs) last calls =
      scan_record (handle s r calls) (r.type == t_skip) (bpos, l, true) last rs
        (scan_records_lem rs last)

  scan_block_lem :
      (l : L) (block : Bytes) (calls : List Call)
      → scan_block t_skip parser s l block calls
        ≡ handing
            (handle_all s (block_records t_skip parser l block).0 calls)
            (block_records t_skip parser l block).1
  unfolding scan_block
  scan_block_lem l block calls =
      let parsed = parser.next_logrecs l block in
      scan_records_lem parsed.records (parsed.position, parsed.state, false) calls

  -- What is left of a file after a block, at the end that a record says and otherwise.
  scan_rest :
      (ends : Bool) (parts : List Bytes) (x : Bytes × ℕ × L)
      → ((calls : List Call)
          → scan_parts t_skip parser s parts x calls
            ≡ handing
                (handle_all s (file_records t_skip parser parts x).0 calls)
                (file_records t_skip parser parts x).1)
      → (calls : List Call)
      → elim ends [ true ↦ scanned x calls | false ↦ scan_parts t_skip parser s parts x calls ]
        ≡ handing
            (handle_all s
              (elim ends [ true ↦ [] | false ↦ (file_records t_skip parser parts x).0 ])
              calls)
            (elim ends [ true ↦ x | false ↦ (file_records t_skip parser parts x).1 ])
  scan_rest true parts x same calls = refl
  scan_rest false parts x same calls = same calls

  scan_parts_lem :
      (parts : List Bytes) (x : Bytes × ℕ × L) (calls : List Call)
      → scan_parts t_skip parser s parts x calls
        ≡ handing
            (handle_all s (file_records t_skip parser parts x).0 calls)
            (file_records t_skip parser parts x).1
  unfolding scan_parts
  scan_parts_lem [] x calls = refl
  scan_parts_lem (part ∷ parts) (block, bpos, l) calls =
      let block' = read_part part block in
      let y = block_records t_skip parser l block' in
      let x : Bytes × ℕ × L = (block', y.1.0, y.1.1) in
      let rest = file_records t_skip parser parts x in
      let onward : (ℕ × L × Bool) → List Call → Scan (Bytes × ℕ × L) = λ z calls'. elim z.2 [
        | true ↦ scanned (block', z.0, z.1) calls'
        | false ↦ scan_parts t_skip parser s parts (block', z.0, z.1) calls'
      ] in
      ap (λ scan. and_then scan onward) (scan_block_lem l block' calls)
      ∙ and_then-append s y.0 (elim y.1.2 [ true ↦ [] | false ↦ rest.0 ]) y.1 onward
          (elim y.1.2 [ true ↦ x | false ↦ rest.1 ]) calls
          (scan_rest y.1.2 parts x (scan_parts_lem parts x))

  scan_files-opened :
      (fuel : ℕ) (fs : LogFiles) (before : Option ℕ) (x : Bytes × ℕ × L) (calls : List Call)
      (opened : Option (List Bytes))
      → fs.file (get_next_file fs before) ≡ opened
      → scan_files t_skip parser s (suc fuel) fs before x calls ≡ elim opened [
        | none ↦ scanned (some (get_next_file fs before), x.1) calls
        | some parts ↦ and_then (scan_parts t_skip parser s parts x calls) (λ y calls'.
            scan_files t_skip parser s fuel fs (some (get_next_file fs before)) y calls')
      ]
  unfolding scan_files
  scan_files-opened fuel fs before x calls opened eq =
      ap
        (λ o. elim o [
          | none ↦ scanned (some (get_next_file fs before), x.1) calls
          | some parts ↦ and_then (scan_parts t_skip parser s parts x calls) (λ y calls'.
              scan_files t_skip parser s fuel fs (some (get_next_file fs before)) y calls')
        ])
        eq

  -- The files from one on, of which the first missing one ends the scan.
  scan_files_lem :
      (fs : LogFiles) (before : Option ℕ) (files : List (List Bytes)) (rounds : ℕ)
      (x : Bytes × ℕ × L)
      → length files < rounds
      → IsLog fs (get_next_file fs before) files
      → (last : ℕ) × (bpos : ℕ) × ((calls : List Call)
          → scan_files t_skip parser s rounds fs before x calls
            ≡ handing (handle_all s (log_records t_skip parser files x) calls) (some last, bpos))
  unfolding get_next_file
  scan_files_lem fs before files zero x enough log = absurd (omega arith)
  scan_files_lem fs before [] (suc rounds) x enough missing = (
    get_next_file fs before,
    x.1,
    λ calls. scan_files-opened rounds fs before x calls none missing,
  )
  scan_files_lem fs before (parts ∷ files) (suc rounds) x enough (found, after) =
      let y = file_records t_skip parser parts x in
      let next = get_next_file fs before in
      let onward : (Bytes × ℕ × L) → List Call → Scan (Option ℕ × ℕ) =
        λ z calls'. scan_files t_skip parser s rounds fs (some next) z calls' in
      let (last, bpos, same) = scan_files_lem fs (some next) files rounds y.1 (omega arith) after in
      (
        last,
        bpos,
        λ calls.
            scan_files-opened rounds fs before x calls (some parts) found
            ∙ ap (λ scan. and_then scan onward) (scan_parts_lem parts x calls)
            ∙ and_then-append s y.0 (log_records t_skip parser files y.1) y.1 onward
                (some last, bpos) calls same,
      )

  end_run-handing :
      (t_max : ℕ) (h : Handled) (last bpos : ℕ)
      → IsComplete t_max s
      → end_run t_skip parser s t_max (handing h (some last, bpos))
        ≡ continue h (λ calls. handled (calls ++ finalizations (all_handlers s)))
  unfolding end_run
  end_run-handing t_max (handled calls) last bpos complete = finalize_lem t_max s calls complete
  end_run-handing t_max (thrown calls) last bpos complete = refl

  -- If the scan is not restricted to a file; if there is a list of handlers for each type, or for
  -- none; and if the files from the one with the smallest listed number on, or from the largest
  -- int if none is listed, are these, until one is missing: enough rounds give the handlers all the
  -- records of these files, each file up to the end that a record says, and then finalize every
  -- handler, once for each list in which it stands, unless a record of an unknown type throws. No
  -- other exception is thrown, also if there is no file at all.
  pub run-log_records :
      (t_max first rounds : ℕ) (fs : LogFiles) (files : List (List Bytes)) (block : Bytes) (l : L)
      → length files < rounds
      → IsComplete t_max s
      → fs.restrict_file ≡ none
      → IsFirst first fs.listed
      → IsLog fs first files
      → run t_skip parser s t_max rounds fs block l
        ≡ continue
            (handle_all s (log_records t_skip parser files (block, 0, l)) [])
            (λ calls. handled (calls ++ finalizations (all_handlers s)))
  unfolding run get_next_file
  run-log_records t_max first rounds fs files block l enough complete free smallest log =
      let x : Bytes × ℕ × L = (block, 0, l) in
      let found = find_first_file-IsFirst first fs.listed smallest in
      let (last, bpos, same) =
        scan_files_lem fs none files rounds x enough
          (subst (λ n. IsLog fs n files) (sym found) log) in
      ap
        (λ o. end_run t_skip parser s t_max (elim o [
          | none ↦ scan_files t_skip parser s rounds fs none x []
          | some file ↦ scan_restricted t_skip parser s file x []
        ]))
        free
      ∙ ap (end_run t_skip parser s t_max) (same [])
      ∙ end_run-handing t_max (handle_all s (log_records t_skip parser files x) []) last bpos
          complete
