-- ===== src/Scanner/Archives.antt =====
-- The scanner of the log archive: `LogArchiveScanner` of src/base/scanner.cpp.
-- The directory and the reader of a run belong to the storage manager, and so does the parser of a
-- file name: a run is the two numbers that its name holds, and the records that its reader gives.
use zapps.Prelude.{ℕ, true, false, ◌==◌, List, [], ◌∷◌, Option, some, none}
use zapps.Scanner.{Logrec, BaseScanner, Call, Handled, handled, thrown, handle}

pub record RunFile : Type 0 where
  pub begin : ℕ
  pub end : ℕ
  pub records : List Logrec

-- The runs that the directory lists, and the run to which the scan is restricted.
pub record Archive : Type 0 where
  pub listed : List RunFile
  pub restrict_file : Option RunFile

-- How a scan ends: normally, with an exception of a handler's list, with the exception for a hole
-- between two runs, or with an access to the first of no runs.
pub data ArchiveScan : Type 0 where
  completed : List Call → ArchiveScan
  threw : List Call → ArchiveScan
  hole_found : List Call → ArchiveScan
  bad_access : ArchiveScan

unfoldable pub handle_run : BaseScanner → List Logrec → List Call → Handled
unfolding handle
handle_run s [] calls = handled calls
handle_run s (r ∷ rs) calls = elim (handle s r calls) [
  | handled calls' ↦ handle_run s rs calls'
  | thrown calls' ↦ thrown calls'
]

-- The runs after one that ends at `run_end`.
unfoldable pub scan_runs : BaseScanner → ℕ → List RunFile → List Call → ArchiveScan
unfolding handle_run
scan_runs s run_end [] calls = completed calls
scan_runs s run_end (file ∷ files) calls = elim (file.begin == run_end) [
  | false ↦ hole_found calls
  | true ↦ elim (handle_run s file.records calls) [
    | thrown calls' ↦ threw calls'
    | handled calls' ↦ scan_runs s file.end files calls'
  ]
]

-- The runs in their order.
unfoldable pub scan_sorted : BaseScanner → List RunFile → ArchiveScan
unfolding handle_run scan_runs
scan_sorted s [] = bad_access
scan_sorted s (file ∷ files) = elim (handle_run s file.records []) [
  | thrown calls ↦ threw calls
  | handled calls ↦ scan_runs s file.end files calls
]

-- `run`; `sort` is `std::sort` by the begins of the runs.
unfoldable pub run_archive : (List RunFile → List RunFile) → BaseScanner → Archive → ArchiveScan
unfolding scan_sorted
run_archive sort s archive =
    scan_sorted s
      (elim archive.restrict_file [ none ↦ sort archive.listed | some file ↦ file ∷ [] ])
