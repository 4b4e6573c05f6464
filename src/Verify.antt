-- ===== src/Verify.antt =====
-- Verification of a log: `VerifyHandler` of src/loginspect/verifylog.h and verifylog.cpp.
-- Log records belong to the storage manager: a record is what the handler reads of it, and a log
-- sequence number is a number that gives its place in the order.
pub mod Order
use zapps.Prelude.{
  ℕ, ◌+◌, Bool, true, false, ◌||◌, ◌==◌, leb, ltb, if◌then◌else◌, Result, ok, assert, ◌>>=◌, ◌>>◌,
}
use zapps.Prelude.Memory.{Bytes}

pub record Logrec : Type 0 where
  pub valid_header : Bool
  pub lsn : ℕ
  pub page : ℕ

pub record VerifyHandler : Type 0 where
  pub min_lsn : ℕ
  pub max_lsn : ℕ
  pub last_lsn : ℕ
  pub last_page : ℕ
  pub count : ℕ
  pub merge : Bool

-- The null values, and the first or the last sequence number that the name of a file tells, are
-- the storage manager's.
module _ (null_lsn null_page : ℕ) (parse_lsn : Bytes → Bool → ℕ) where
  unfoldable pub new_handler : Bool → VerifyHandler
  new_handler merge = record {
    min_lsn = null_lsn;
    max_lsn = null_lsn;
    last_lsn = null_lsn;
    last_page = null_page;
    count = 0;
    merge = merge;
  }

  unfoldable pub new_file : VerifyHandler → Bytes → VerifyHandler
  new_file h fname = record h {
    min_lsn = parse_lsn fname false;
    max_lsn = parse_lsn fname true;
    last_lsn = null_lsn;
    last_page = null_page;
  }

unfoldable pub invoke : VerifyHandler → Logrec → Result VerifyHandler
invoke h r = do
  assert r.valid_header
  assert (leb h.last_page r.page)
  assert (if r.page == h.last_page then ltb h.last_lsn r.lsn else true)
  assert (h.merge || leb h.min_lsn r.lsn)
  assert (h.merge || leb r.lsn h.max_lsn)
  ok (record h { last_lsn = r.lsn; last_page = r.page; count = h.count + 1 })
