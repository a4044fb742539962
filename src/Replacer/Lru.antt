-- ===== src/Replacer/Lru.antt =====
-- replacer/lru_replacer.h and lru_replacer.cpp: `LRUReplacer`. The list of the class is a list of
-- nodes, each with an address of its own, and the hash table maps a frame to the address of its
-- node, as the C++ table maps it to a list iterator. The latch makes each operation one step.
pub mod Defs
pub mod Invariant
pub mod Refinement
pub mod Instance
