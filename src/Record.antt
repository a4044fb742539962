-- ===== src/Record.antt =====
-- record/: the record manager.
pub mod Bitmap
pub mod BitLaws
pub mod Search
pub mod Defs
pub mod Pages
pub mod Invariant
pub mod Create
pub mod Insert
pub mod Delete
pub mod Access
pub mod Scan
pub mod Contents
pub mod Manager
pub mod Restore
