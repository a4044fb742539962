-- ===== src/Storage.antt =====
-- storage/: pages, the disk manager and the buffer pool.
pub mod Disk
pub mod Page
pub mod Pool
