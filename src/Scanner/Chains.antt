-- ===== src/Scanner/Chains.antt =====
-- The scan of the archive: up to which run it goes, what a handler receives, and what it does not.
use mathlib.Core.List.{append_assoc, append-nil}
use zapps.Prelude.{
  ℕ, ◌≡◌, refl, sym, ◌∙◌, ap, subst, Bool, true, false, ◌&&◌, ◌==◌, if◌then◌else◌, List, [], ◌∷◌,
  ◌++◌, some, none,
}
use zapps.Scanner.{Logrec, BaseScanner, Call, Handled, handled, thrown, handle}
use zapps.Scanner.Received.{
  received, share, shares, IsServed, continue, handle_all, received-handle_all,
}
use zapps.Scanner.Finals.{finals, HasFinals, handle_all-HasFinals}
use zapps.Scanner.Archives.{
  RunFile, Archive, ArchiveScan, completed, threw, hole_found, handle_run, scan_runs, scan_sorted,
  run_archive,
}

-- Each run begins where the one before it ends.
abbrev pub chained : ℕ → List RunFile → Bool
chained run_end [] = true
chained run_end (file ∷ files) = (file.begin == run_end) && chained file.end files

-- The records of the runs before the first hole.
abbrev pub until_hole : ℕ → List RunFile → List Logrec
until_hole run_end [] = []
until_hole run_end (file ∷ files) =
    let rest = until_hole file.end files in
    if file.begin == run_end then file.records ++ rest else []

rest_run :
    (h : Handled) (f g : List Call → Handled)
    → ((calls : List Call) → f calls ≡ g calls)
    → elim h [ handled calls ↦ f calls | thrown calls ↦ thrown calls ] ≡ continue h g
rest_run (handled calls) f g same = same calls
rest_run (thrown calls) f g same = refl

handle_run_lem :
    (s : BaseScanner) (rs : List Logrec) (calls : List Call)
    → handle_run s rs calls ≡ handle_all s rs calls
unfolding handle_run
handle_run_lem s [] calls = refl
handle_run_lem s (r ∷ rs) calls =
    rest_run (handle s r calls) (handle_run s rs) (handle_all s rs) (handle_run_lem s rs)

-- The handler has received these records more, and no other handler was finalized.
abbrev Received : BaseScanner → ℕ → List Logrec → List Call → List Call → Type 0
Received s h rs calls after =
    (received h after ≡ received h calls ++ shares s h rs) × (finals after ≡ finals calls)

handle_run-Received :
    (s : BaseScanner) (h : ℕ) (rs : List Logrec) (calls : List Call)
    → IsServed s rs
    → (after : List Call) × (handle_run s rs calls ≡ handled after) × Received s h rs calls after
handle_run-Received s h rs calls served =
    let (after, all, got) = received-handle_all s h rs calls served in
    (
      after,
      handle_run_lem s rs calls ∙ all,
      (got, subst (HasFinals (finals calls)) all (handle_all-HasFinals s rs calls)),
    )

IsServed-append :
    (s : BaseScanner) (xs ys : List Logrec) → IsServed s (xs ++ ys) → IsServed s xs × IsServed s ys
IsServed-append s [] ys served = (tt, served)
IsServed-append s (r ∷ xs) ys (now, served) =
    let (left, right) = IsServed-append s xs ys served in ((now, left), right)

shares-append :
    (s : BaseScanner) (h : ℕ) (xs ys : List Logrec)
    → shares s h (xs ++ ys) ≡ shares s h xs ++ shares s h ys
shares-append s h [] ys = refl
shares-append s h (r ∷ xs) ys =
    ap (λ rs. share s h r ++ rs) (shares-append s h xs ys)
    ∙ sym (append_assoc (share s h r) (shares s h xs) (shares s h ys))

Received-append :
    (s : BaseScanner) (h : ℕ) (xs ys : List Logrec) (calls mid after : List Call)
    → Received s h xs calls mid
    → Received s h ys mid after
    → Received s h (xs ++ ys) calls after
Received-append s h xs ys calls mid after (first, kept) (ys_got, kept') = (
  ys_got
      ∙ ap (λ rs. rs ++ shares s h ys) first
      ∙ append_assoc (received h calls) (shares s h xs) (shares s h ys)
      ∙ ap (λ rs. received h calls ++ rs) (sym (shares-append s h xs ys)),
  kept' ∙ kept,
)

-- The end of a scan whose runs have no hole, or have one.
abbrev pub ended : Bool → List Call → ArchiveScan
ended true calls = completed calls
ended false calls = hole_found calls

abbrev Scanned : BaseScanner → ℕ → List Logrec → Bool → List Call → ArchiveScan → Type 0
Scanned s h rs whole calls scan =
    (after : List Call) × (scan ≡ ended whole after) × Received s h rs calls after

-- A run, with what is left after it.
Scanned-run :
    (s : BaseScanner) (h : ℕ) (rs rest : List Logrec) (whole : Bool) (calls : List Call)
    (k : List Call → ArchiveScan)
    → IsServed s (rs ++ rest)
    → ((calls' : List Call) → IsServed s rest → Scanned s h rest whole calls' (k calls'))
    → Scanned s h
        (rs ++ rest)
        whole
        calls
        (elim (handle_run s rs calls) [ thrown calls' ↦ threw calls' | handled calls' ↦ k calls' ])
Scanned-run s h rs rest whole calls k served onward =
    let (now, later) = IsServed-append s rs rest served in
    let (mid, run, got) = handle_run-Received s h rs calls now in
    let (after, all, more) = onward mid later in
    (
      after,
      ap (λ o. elim o [ thrown calls' ↦ threw calls' | handled calls' ↦ k calls' ]) run ∙ all,
      Received-append s h rs rest calls mid after got more,
    )

-- A run that begins at the end of the one before, or does not.
Scanned-if :
    (s : BaseScanner) (h : ℕ) (joins : Bool) (rs : List Logrec) (whole : Bool) (calls : List Call)
    (scan : ArchiveScan)
    → IsServed s (if joins then rs else [])
    → (IsServed s rs → Scanned s h rs whole calls scan)
    → Scanned s h
        (if joins then rs else [])
        (joins && whole)
        calls
        (elim joins [ false ↦ hole_found calls | true ↦ scan ])
Scanned-if s h true rs whole calls scan served run = run served
Scanned-if s h false rs whole calls scan served run =
    (calls, refl, (sym (append-nil (received h calls)), refl))

scan_runs-Scanned :
    (s : BaseScanner) (h run_end : ℕ) (files : List RunFile) (calls : List Call)
    → IsServed s (until_hole run_end files)
    → Scanned s h
        (until_hole run_end files)
        (chained run_end files)
        calls
        (scan_runs s run_end files calls)
unfolding scan_runs
scan_runs-Scanned s h run_end [] calls served =
    (calls, refl, (sym (append-nil (received h calls)), refl))
scan_runs-Scanned s h run_end (file ∷ files) calls served =
    let rest = until_hole file.end files in
    Scanned-if s h (file.begin == run_end) (file.records ++ rest) (chained file.end files) calls
      (elim (handle_run s file.records calls) [
        | thrown calls' ↦ threw calls'
        | handled calls' ↦ scan_runs s file.end files calls'
      ])
      served
      (λ served'.
        Scanned-run s h file.records rest (chained file.end files) calls
          (scan_runs s file.end files) served' (scan_runs-Scanned s h file.end files))

-- The runs that are scanned, in their order.
abbrev pub run_files : (List RunFile → List RunFile) → Archive → List RunFile
run_files sort archive = elim archive.restrict_file [
  | none ↦ sort archive.listed
  | some file ↦ file ∷ []
]

-- If there is a run, and every type of the records up to the first hole has a list of handlers, or
-- no type has: the scan ends normally exactly when each run in the order of the sort begins where
-- the one before it ends, and with the exception for a hole otherwise; a handler has received the
-- records of the runs before the first hole for which it is registered, in their order; and no
-- handler is finalized, also after the last run.
pub run_archive-until_hole :
    (sort : List RunFile → List RunFile) (s : BaseScanner) (h : ℕ) (archive : Archive)
    (file : RunFile) (files : List RunFile)
    → run_files sort archive ≡ file ∷ files
    → IsServed s (file.records ++ until_hole file.end files)
    → (after : List Call) × (run_archive sort s archive ≡ ended (chained file.end files) after)
      × (received h after ≡ shares s h (file.records ++ until_hole file.end files))
      × (finals after ≡ [])
unfolding run_archive scan_sorted
run_archive-until_hole sort s h archive file files listed served =
    let rest = until_hole file.end files in
    let (after, all, (got, kept)) =
      Scanned-run s h file.records rest (chained file.end files) [] (scan_runs s file.end files)
        served (λ calls served'. scan_runs-Scanned s h file.end files calls served') in
    (after, ap (scan_sorted s) listed ∙ all, got, kept)
