-- ===== src/Scanner/Blocks.antt =====
-- The scanner of the recovery log: `BlockScanner` of src/base/scanner.cpp.
-- The parser of the storage manager and the file system are parameters. A file is the list of the
-- parts that are read from it, of which the last may be shorter than a block.
-- Errors of the directory and of the streams are left out, and so is the callback on opening a
-- file.
use zapps.Prelude.{
  ℕ, zero, suc, ◌+◌, ◌-◌, ◌^◌, Bool, true, false, ◌==◌, ltb, if◌then◌else◌, List, [], ◌∷◌, ◌++◌,
  drop, length, Option, none, some,
}
use zapps.Prelude.Memory.{Bytes}
use zapps.Scanner.{Logrec, BaseScanner, Call, Handled, handled, thrown, handle, finalize}

-- The directory, with the numbers of the files named as logs; the files; and the file to which the
-- scan is restricted, which may be missing.
pub record LogFiles : Type 0 where
  pub listed : List ℕ
  pub file : ℕ → Option (List Bytes)
  pub restrict_file : Option (Option (List Bytes))

-- What the calls of `nextLogrec` give for a block: each record with the position and the state of
-- the parser after it, and both after the call that gives none.
pub record Parsed (L : Type 0) : Type 0 where
  pub records : List (Logrec × ℕ × L)
  pub position : ℕ
  pub state : L

pub record LogScanner (L : Type 0) : Type 0 where
  pub next_logrecs : L → Bytes → Parsed L

-- What is left of a scan, with the calls to the handlers; or an exception of a handler's list.
pub data Scan (X : Type 0) : Type 0 where
  scanned : X → List Call → Scan X
  failed : List Call → Scan X

abbrev pub and_then : {X Y : Type 0} → Scan X → (X → List Call → Scan Y) → Scan Y
and_then (scanned x calls) rest = rest x calls
and_then (failed calls) rest = failed calls

abbrev pub int_max : ℕ
int_max = 2 ^ 31 - 1

-- `findFirstFile`
unfoldable pub find_first_file : List ℕ → ℕ → ℕ
find_first_file [] pnum = pnum
find_first_file (p ∷ ps) pnum = find_first_file ps (if ltb p pnum then p else pnum)

-- `getNextFile`; a negative number is `none`.
unfoldable pub get_next_file : LogFiles → Option ℕ → ℕ
unfolding find_first_file
get_next_file fs none = find_first_file fs.listed int_max
get_next_file fs (some pnum) = pnum + 1

-- `in.read` into the block, which keeps what stands behind the part that is read.
unfoldable pub read_part : Bytes → Bytes → Bytes
read_part part block = part ++ drop (length part) block

module _ {L : Type 0} (t_skip : ℕ) (parser : LogScanner L) (s : BaseScanner) where
  -- The records of a block: the position, the parser, and whether a record ends the file.
  unfoldable pub scan_records :
      List (Logrec × ℕ × L) → ℕ × L × Bool → List Call → Scan (ℕ × L × Bool)
  unfolding handle
  scan_records [] last calls = scanned last calls
  scan_records ((r, bpos, l) ∷ rs) last calls = elim (handle s r calls) [
    | thrown calls' ↦ failed calls'
    | handled calls' ↦ elim (r.type == t_skip) [
      | true ↦ scanned (bpos, l, true) calls'
      | false ↦ scan_records rs last calls'
    ]
  ]

  unfoldable pub scan_block : L → Bytes → List Call → Scan (ℕ × L × Bool)
  unfolding scan_records
  scan_block l block calls =
      let parsed = parser.next_logrecs l block in
      scan_records parsed.records (parsed.position, parsed.state, false) calls

  -- The parts of a file that are left: the block, the position, and the parser.
  unfoldable pub scan_parts : List Bytes → Bytes × ℕ × L → List Call → Scan (Bytes × ℕ × L)
  unfolding scan_block read_part
  scan_parts [] x calls = scanned x calls
  scan_parts (part ∷ parts) (block, bpos, l) calls =
      and_then (scan_block l (read_part part block) calls) (λ y calls'. elim y.2 [
        | true ↦ scanned (read_part part block, y.0, y.1) calls'
        | false ↦ scan_parts parts (read_part part block, y.0, y.1) calls'
      ])

  -- The loop over the files, of which `fuel` bounds the rounds: the last number, and the position.
  unfoldable pub scan_files :
      ℕ → LogFiles → Option ℕ → Bytes × ℕ × L → List Call → Scan (Option ℕ × ℕ)
  unfolding get_next_file scan_parts
  scan_files zero fs pnum x calls = scanned (pnum, x.1) calls
  scan_files (suc fuel) fs pnum x calls =
      let next = get_next_file fs pnum in
      elim (fs.file next) [
        | none ↦ scanned (some next, x.1) calls
        | some parts ↦
            and_then (scan_parts parts x calls)
              (λ y calls'. scan_files fuel fs (some next) y calls')
      ]

  unfoldable pub scan_restricted :
      Option (List Bytes) → Bytes × ℕ × L → List Call → Scan (Option ℕ × ℕ)
  unfolding scan_parts
  scan_restricted none x calls = scanned (none, x.1) calls
  scan_restricted (some parts) x calls =
      and_then (scan_parts parts x calls) (λ y calls'. scanned (none, y.1) calls')

  -- The end of `run`: the exception if no number was drawn and no byte was read. There are `t_max`
  -- types.
  unfoldable pub end_run : (t_max : ℕ) → Scan (Option ℕ × ℕ) → Handled
  unfolding finalize
  end_run t_max (failed calls) = thrown calls
  end_run t_max (scanned (some pnum, bpos) calls) = finalize t_max s calls
  end_run t_max (scanned (none, bpos) calls) =
      if bpos == 0 then thrown calls else finalize t_max s calls

  -- `run` of a scanner that has not run before.
  unfoldable pub run : (t_max rounds : ℕ) → LogFiles → Bytes → L → Handled
  unfolding scan_files scan_restricted end_run
  run t_max rounds fs block l = end_run t_max (elim fs.restrict_file [
    | none ↦ scan_files rounds fs none (block, 0, l) []
    | some file ↦ scan_restricted file (block, 0, l) []
  ])
