-- ===== src/Storage/Pool.antt =====
-- storage/buffer_pool_manager.h and buffer_pool_manager.cpp: `BufferPoolManager`, over any
-- replacement policy that meets the interface `Replacer`. The latch makes each public operation
-- one step.
pub mod Defs
pub mod Invariant
pub mod Update
pub mod Pin
pub mod Fetch
pub mod Start
pub mod Unpin
pub mod NewPage
pub mod Faults
pub mod Completion
