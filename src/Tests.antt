-- ===== src/Tests.antt =====
-- The theorems at concrete inputs.
pub mod Fields
pub mod Records
pub mod Tables
pub mod Keys
pub mod Indexes
pub mod Workers
pub mod Managers
pub mod Skewers
pub mod Tpcbs
pub mod EnvVars
pub mod Logs
pub mod Runs
pub mod Shores
pub mod Updates
pub mod Aggregates
pub mod Scanners
pub mod Clients
pub mod Serving
