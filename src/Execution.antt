-- ===== src/Execution.antt =====
-- execution/: the executors of a plan, each over the tuples of the ones below it.
pub mod Rows
pub mod Compare
pub mod Executor
pub mod SeqScan
pub mod ScanRows
pub mod Run
