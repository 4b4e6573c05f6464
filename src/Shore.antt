-- ===== src/Shore.antt =====
-- The environment of a benchmark: `ShoreEnv` of src/kits/shore_env.h and src/kits/shore_env.cpp.
pub mod Settings
pub mod Lifecycle
pub mod Starts
pub mod Restarts
pub mod Stuck
