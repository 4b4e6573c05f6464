-- ===== src/Tests/Logs.antt =====
-- Logs at concrete inputs.
use zapps.Prelude.{
  ◌≡◌, ◌↔◌, refl, Bool, true, false, ℕ, ◌+◌, List, [], ◌∷◌, length, ok, err, assertion,
}
use zapps.Prelude.Memory.{Bytes}
use zapps.Verify.{Logrec, VerifyHandler, new_handler, new_file, invoke}
use zapps.Verify.Order.{invoke_all, IsOrdered, AllWithin, invoke_all-IsOrdered}

-- The range from 10 to 20.
abbrev parse_lsn : Bytes → Bool → ℕ
parse_lsn fname false = 10
parse_lsn fname true = 20

abbrev record_at : ℕ → ℕ → Logrec
record_at page lsn = record { valid_header = true; lsn = lsn; page = page }

abbrev log : List Logrec
log = record_at 1 12 ∷ record_at 1 19 ∷ record_at 4 11 ∷ []

abbrev handler : VerifyHandler
unfolding new_handler
handler = new_handler 0 0 parse_lsn false

abbrev opened : VerifyHandler
unfolding new_file
opened = new_file 0 0 parse_lsn handler []

-- Two records of a page in the wrong order.
swapped : invoke_all opened (record_at 1 19 ∷ record_at 1 12 ∷ []) ≡ err assertion
unfolding invoke opened handler
swapped = refl

-- A record that lies behind the end of its file.
behind_end : invoke_all opened (record_at 1 21 ∷ []) ≡ err assertion
unfolding invoke opened handler
behind_end = refl

invoke_all-IsOrdered_example :
    ((h' : VerifyHandler) × (invoke_all (new_file 0 0 parse_lsn handler []) log ≡ ok h')
      × (h'.count ≡ handler.count + length log))
    ↔ (IsOrdered 0 0 log × AllWithin handler.merge (parse_lsn [] false) (parse_lsn [] true) log)
invoke_all-IsOrdered_example = invoke_all-IsOrdered 0 0 parse_lsn handler [] log

accepted : invoke_all opened log ≡ ok (record opened { last_lsn = 11; last_page = 4; count = 3 })
unfolding invoke opened handler
accepted = refl
