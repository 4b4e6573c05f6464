-- ===== src/Scanner/Records.antt =====
-- What the blocks, the files and the log hold: the records, read without calls to the handlers.
use zapps.Prelude.{
  ℕ, ◌+◌, ◌≡◌, refl, sym, ◌∙◌, ap, Bool, true, false, ◌==◌, List, [], ◌∷◌, ◌++◌, none, some,
}
use zapps.Prelude.Memory.{Bytes}
use zapps.Scanner.{Logrec, BaseScanner, Call, Handled, handled, thrown, handle}
use zapps.Scanner.Received.{continue, handle_all}
use zapps.Scanner.Blocks.{LogFiles, LogScanner, Scan, scanned, failed, and_then, read_part}

-- The records with what is left after them.
abbrev pub Read : Type 0 → Type 0
Read X = List Logrec × X

-- The handlers get the records that were read.
abbrev pub handing : {X : Type 0} → Handled → X → Scan X
handing (handled calls) x = scanned x calls
handing (thrown calls) x = failed calls

-- The files from a number on are these, and the next one is missing.
abbrev pub IsLog : LogFiles → ℕ → List (List Bytes) → Type 0
IsLog fs pnum [] = fs.file pnum ≡ none
IsLog fs pnum (parts ∷ files) = (fs.file pnum ≡ some parts) × IsLog fs (pnum + 1) files

module _ {L : Type 0} (t_skip : ℕ) (parser : LogScanner L) where
  -- The records of a block up to the first that says that the file ends.
  abbrev pub records_until_skip : List (Logrec × ℕ × L) → ℕ × L × Bool → Read (ℕ × L × Bool)
  records_until_skip [] last = ([], last)
  records_until_skip ((r, bpos, l) ∷ rs) last =
      let rest = records_until_skip rs last in
      (
        r ∷ elim (r.type == t_skip) [ true ↦ [] | false ↦ rest.0 ],
        elim (r.type == t_skip) [ true ↦ (bpos, l, true) | false ↦ rest.1 ],
      )

  abbrev pub block_records : L → Bytes → Read (ℕ × L × Bool)
  block_records l block =
      let parsed = parser.next_logrecs l block in
      records_until_skip parsed.records (parsed.position, parsed.state, false)

  -- The records of a file up to the end that a record says.
  abbrev pub file_records : List Bytes → Bytes × ℕ × L → Read (Bytes × ℕ × L)
  unfolding read_part
  file_records [] x = ([], x)
  file_records (part ∷ parts) (block, bpos, l) =
      let y = block_records l (read_part part block) in
      let x : Bytes × ℕ × L = (read_part part block, y.1.0, y.1.1) in
      let rest = file_records parts x in
      (y.0 ++ elim y.1.2 [ true ↦ [] | false ↦ rest.0 ], elim y.1.2 [ true ↦ x | false ↦ rest.1 ])

  abbrev pub log_records : List (List Bytes) → Bytes × ℕ × L → List Logrec
  log_records [] x = []
  log_records (parts ∷ files) x = let y = file_records parts x in y.0 ++ log_records files y.1

continue_assoc :
    (h : Handled) (f g : List Call → Handled) (fg : List Call → Handled)
    → ((calls : List Call) → fg calls ≡ continue (f calls) g)
    → continue h fg ≡ continue (continue h f) g
continue_assoc (handled calls) f g fg same = same calls
continue_assoc (thrown calls) f g fg same = refl

pub handle_all-append :
    (s : BaseScanner) (xs ys : List Logrec) (calls : List Call)
    → handle_all s (xs ++ ys) calls ≡ continue (handle_all s xs calls) (handle_all s ys)
handle_all-append s [] ys calls = refl
handle_all-append s (r ∷ xs) ys calls =
    continue_assoc (handle s r calls) (handle_all s xs) (handle_all s ys) (handle_all s (xs ++ ys))
      (handle_all-append s xs ys)

and_then-handing :
    {X Y : Type 0} (h : Handled) (x : X) (k : X → List Call → Scan Y) (g : List Call → Handled)
    (z : Y)
    → ((calls : List Call) → k x calls ≡ handing (g calls) z)
    → and_then (handing h x) k ≡ handing (continue h g) z
and_then-handing (handled calls) x k g z same = same calls
and_then-handing (thrown calls) x k g z same = refl

pub and_then-append :
    {X Y : Type 0} (s : BaseScanner) (xs ys : List Logrec) (x : X) (k : X → List Call → Scan Y)
    (z : Y) (calls : List Call)
    → ((calls' : List Call) → k x calls' ≡ handing (handle_all s ys calls') z)
    → and_then (handing (handle_all s xs calls) x) k ≡ handing (handle_all s (xs ++ ys) calls) z
and_then-append s xs ys x k z calls same =
    and_then-handing (handle_all s xs calls) x k (handle_all s ys) z same
    ∙ ap (λ h. handing h z) (sym (handle_all-append s xs ys calls))
