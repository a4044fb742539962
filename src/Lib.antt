-- ===== src/Lib.antt =====
-- RMDB (db2024/rmdb/src): a relational database kernel in C++. This library models its core as pure
-- functions on explicit states and proves what makes each part correct.
--
-- The parts and how they interact. The buffer pool (storage/buffer_pool_manager.cpp) keeps pages of
-- the disk (storage/disk_manager.cpp) in frames and asks a replacement policy (replacer/) for a
-- frame to evict. The record manager (record/) keeps the rows of a table in slotted pages of the
-- pool, linked in a list of pages with free space. The lock manager (transaction/concurrency/lock_manager.cpp) grants locks on tables
-- and records to transactions, which give them back in TransactionManager::commit and abort. An index (index/) is a B+ tree
-- of nodes on pages of the pool that leads from keys to places of rows. The log manager (recovery/log_manager.cpp) numbers
-- the log records and writes them through a buffer; after a crash the recovery manager
-- (recovery/log_recovery.cpp) replays them on the record files and reverts what did not commit.
--
-- Files, by the paths below db2024/rmdb/src:
--   Prelude        shared lists, tests, maps, integers and the result type of calls that may throw
--   Replacer       replacer/replacer.h: the abstract class as an interface with laws;
--                  Lru: replacer/lru_replacer.cpp, its invariant, its refinement of a queue, and
--                  the instance of the interface
--   Storage        Page: storage/page.h; Disk: page reads and writes of storage/disk_manager.cpp;
--                  Pool: storage/buffer_pool_manager.cpp over any policy that meets the interface
--   Record         record/: Bitmap, Search and BitLaws: bitmap.h; Defs: rm_defs.h and
--                  rm_file_handle; Create, Insert, Delete, Access and Restore: what the operations
--                  do; Scan and Contents: rm_scan.cpp; Manager: the header of a new file (rm_manager.h)
--   Lock           Modes: compatible and upgrade_group; Defs: lock, unlock and the six public calls;
--                  Histories and Exclusion: interleavings of any number of transactions
--   Recovery       Log, Parts and RoundTrip: the log records of recovery/log_manager.h and their
--                  bytes (Words); Buffer: log_manager.cpp; Redo, AtStart, Replay and Rollback:
--                  redo and undo of log_recovery.cpp
--   Index          index/: Order: ix_compare; Header and HeaderBytes: the file header of ix_defs.h;
--                  Node, Search, Change, Insert and Remove: IxNodeHandle; Tree, Grow and Shrink:
--                  IxIndexHandle and IxScan; Contents, Route and Lookup: search trees and get_value;
--                  Split and SplitLeaf: the split of a leaf; Merge and MergeEntries: coalesce
--   Transaction    Defs: begin, commit and abort of transaction/transaction_manager.cpp; Ends and
--                  Abort: what they leave
--   Execution      execution/: Rows: common.h and the columns of sm_meta.h; Compare: the tests of rows of
--                  the scan and the join; Executor: executor_abstract.h as an interface with laws;
--                  SeqScan and ScanRows: executor_seq_scan.h and the tuples that it yields; Run:
--                  the loop of select_from in execution_manager.cpp
--   Tests          runs on concrete inputs
--
-- The record manager and the index see the buffer pool as the contents and the pins of their files' pages, as the
-- theorems on the pool justify, and the pool is taken to have a frame for each page asked for.
--
-- State and operations. Each C++ class is a record and each method a function that returns the new
-- state with its result. A method that may throw returns `done` or `raised`, with the state that the
-- exception leaves. Every method of these classes holds its latch from start to end, so a history
-- of threads is a list of calls.
--
-- Bounds. Frame, page and transaction numbers are natural numbers. The int offset page_no * PAGE_SIZE
-- overflows from page 2 ^ 19 on, which is undefined; there a read or a write does not return. INVALID_PAGE_ID is `none`. Words in a log record are
-- 32-bit patterns. The loops over the log take the length of the log as fuel, which is enough since
-- each round moves on by at least a header. The climbs and descents in a B+ tree take a bound on
-- its levels; a search needs no more than the height of the tree. Every other loop runs over a list or a counted range.
--
-- Not modelled: the SQL front end (parser/, analyze/, optimizer/), most executors (execution/), the
-- locks of a sequential scan and the block loops of the join, the throws of abort for a table or an
-- index that is gone, the
-- catalogue (system/), the reading and the removal of the log file (analyze and truncate_log), the
-- server loop (rmdb.cpp, portal.h), the client, and the vendored googletest.
pub mod Prelude
pub mod Replacer
pub mod Storage
pub mod Record
pub mod Recovery
pub mod Lock
pub mod Tests
pub mod Index
pub mod Transaction
pub mod Execution
