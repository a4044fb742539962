-- ===== src/Recovery.antt =====
-- recovery/: log records, the log buffer, and recovery from the log.
pub mod Words
pub mod Log
pub mod Parts
pub mod RoundTrip
pub mod Buffer
pub mod Redo
pub mod AtStart
pub mod Replay
pub mod Rollback
