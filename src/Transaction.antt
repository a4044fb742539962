-- ===== src/Transaction.antt =====
-- transaction/transaction_manager.cpp: transactions over the tables, the indexes, the locks and the
-- log.
pub mod Defs
pub mod Ends
pub mod Abort
