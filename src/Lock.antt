-- ===== src/Lock.antt =====
-- transaction/concurrency/lock_manager.h and lock_manager.cpp, with the lock ids and abort reasons
-- of transaction/txn_defs.h: `LockManager`, multi-granularity locks without waiting. The latch
-- makes `lock` and `unlock` one step each.
pub mod Modes
pub mod Defs
pub mod Queue
pub mod Upgrade
pub mod Invariant
pub mod Answers
pub mod Tables
pub mod Histories
pub mod Exclusion
