-- ===== src/Index.antt =====
-- index/: the B+ tree of an index.
pub mod Order
pub mod Header
pub mod HeaderBytes
pub mod Node
pub mod Tree
pub mod Search
pub mod Change
pub mod Insert
pub mod Remove
pub mod Contents
pub mod Route
pub mod Lookup
pub mod Grow
pub mod Shrink
pub mod Split
pub mod SplitLeaf
pub mod Merge
pub mod MergeEntries
