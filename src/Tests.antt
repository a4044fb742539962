-- ===== src/Tests.antt =====
-- Runs of the definitions on small inputs, and the theorems at inputs that meet their hypotheses.
mod Replacers
mod Pools
mod Records
mod Locks
mod Logs
mod Trees
mod Transactions
mod Scans
