-- ===== src/Tpcb.antt =====
-- The TPC-B benchmark: src/kits/tpcb.
pub mod Input
pub mod Loader
pub mod Batches
pub mod Coverage
pub mod Ranges
pub mod Stats
pub mod Sums
pub mod Throughput
pub mod Run
pub mod Accounts
pub mod Mix
pub mod Imbalance
pub mod Update
pub mod Balances
pub mod Schema
pub mod Names
use zapps.Prelude.{ℕ}

abbrev pub tellers_per_branch : ℕ
tellers_per_branch = 10

abbrev pub accounts_per_branch : ℕ
accounts_per_branch = 100000

abbrev pub accounts_created_per_pop_xct : ℕ
accounts_created_per_pop_xct = 10000
