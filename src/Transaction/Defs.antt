-- ===== src/Transaction/Defs.antt =====
-- transaction/transaction_manager.cpp, transaction.h and txn_defs.h: `begin`, `commit` and `abort`.
-- A table file and an index stand for their pages; what the disk holds of them is kept beside them,
-- and a flush makes the two the same. The indexes of a table stand with their metadata, as
-- `get_table` and `ihs_` give them. `fuel` bounds the levels of the indexes.
use whu_db_practice.Prelude.{
  ℕ, ◌+◌, Bool, true, false, List, [], ◌∷◌, ◌++◌, Option, none, some, take, drop, replicate, update,
  nat_eq, Outcome, done, raised,
}
use whu_db_practice.Storage.Page.{Bytes}
use whu_db_practice.Record.Defs.{
  RmFile, Rid, insert_record_at, delete_record, update_record, get_record,
}
use whu_db_practice.Index.Order.{ColType, ix_compare}
use whu_db_practice.Index.Tree.{Tree}
use whu_db_practice.Index.Grow.{insert_entry}
use whu_db_practice.Index.Shrink.{delete_entry}
use whu_db_practice.Lock.Defs.{LockDataId, LockTable}
use whu_db_practice.Lock.Histories.{release_locks}
use whu_db_practice.Recovery.Log.{
  LogRecord, begin_log, commit_log, abort_log, invalid, new_begin, new_commit, new_abort,
}
use whu_db_practice.Recovery.Buffer.{LogManager, add_log_to_buffer, flush_log_to_disk}
use whu_db_practice.Recovery.Redo.{Tables, bytes_equal, bytes_eq}

pub data TransactionState : Type 0 where
  initial : TransactionState
  growing : TransactionState
  shrinking : TransactionState
  committed : TransactionState
  aborted : TransactionState

-- `WriteRecord`: the table, the place and the bytes, and the new place of an update that has one.
pub data WriteRecord : Type 0 where
  insert_tuple : Bytes → Rid → Bytes → WriteRecord
  delete_tuple : Bytes → Rid → Bytes → WriteRecord
  update_tuple : Bytes → Rid → Bytes → Option Rid → WriteRecord

-- `write_set` has the last write first.
pub record Transaction : Type 0 where
  pub txn_id : ℕ
  pub state : TransactionState
  pub prev_lsn : ℕ
  pub lock_set : List LockDataId
  pub write_set : List WriteRecord

-- A column of an index: its type, its length, and where it stands in a row.
pub record IndexCol : Type 0 where
  pub col_type : ColType
  pub len : ℕ
  pub offset : ℕ

pub record TabIndex : Type 0 where
  pub cols : List IndexCol
  pub handle : Tree Bytes

pub record Database : Type 0 where
  pub fhs : Tables
  pub indexes : Bytes → List TabIndex
  pub open_files : List Bytes
  pub open_indexes : List Bytes
  pub disk_files : Tables
  pub disk_indexes : Bytes → List TabIndex
  pub locks : LockTable
  pub log_manager : Option LogManager
  pub next_txn_id : ℕ
  pub txn_map : ℕ → Option Transaction

-- The loop that copies the columns of a row into a key.
unfoldable pub key_of : List IndexCol → Bytes → Bytes
key_of [] rec = []
key_of (c ∷ cols) rec = take c.len (drop c.offset rec) ++ key_of cols rec

abbrev pub col_tot_len : List IndexCol → ℕ
col_tot_len [] = 0
col_tot_len (c ∷ cols) = c.len + col_tot_len cols

abbrev pub col_list : List IndexCol → List (ColType × ℕ)
col_list [] = []
col_list (c ∷ cols) = (c.col_type, c.len) ∷ col_list cols

-- A record is logged for the transaction, behind its last one.
abbrev pub linked_to : ℕ → LogRecord → LogRecord
linked_to lsn (begin_log h) = begin_log (record h { prev_lsn = lsn })
linked_to lsn (commit_log h) = commit_log (record h { prev_lsn = lsn })
linked_to lsn (abort_log h) = abort_log (record h { prev_lsn = lsn })
linked_to lsn r = r

-- The file of a table is changed in place, also where the change throws.
unfoldable pub on_file :
    Bytes → (RmFile → Outcome RmFile (Unit {0})) → Database → Outcome Database (Unit {0})
on_file name f db = elim (db.fhs name) [
  | none ↦ raised db
  | some fh ↦ elim (f fh) [
    | raised fh' ↦ raised (record db { fhs = update db.fhs name (some fh') })
    | done _ fh' ↦ done tt (record db { fhs = update db.fhs name (some fh') })
  ]
]

-- A row that is read; the reading pins and unpins the page.
unfoldable pub read_row : Bytes → Rid → Database → Outcome Database Bytes
read_row name rid db = elim (db.fhs name) [
  | none ↦ raised db
  | some fh ↦ elim (get_record rid fh) [
    | raised fh' ↦ raised (record db { fhs = update db.fhs name (some fh') })
    | done row fh' ↦ done row (record db { fhs = update db.fhs name (some fh') })
  ]
]

infixl 5 ◌then_do◌
abbrev pub ◌then_do◌ :
    Outcome Database (Unit {0})
    → (Database → Outcome Database (Unit {0}))
    → Outcome Database (Unit {0})
o then_do f = elim o [ raised db ↦ raised db | done _ db ↦ f db ]

-- `begin`, with no transaction and with one.
unfoldable pub begin : Option Transaction → Database → Transaction × Database
begin (some txn) db = (txn, db)
begin none db =
    let id = db.next_txn_id in
    let txn : Transaction = record {
      txn_id = id;
      state = growing;
      prev_lsn = invalid;
      lock_set = [];
      write_set = [];
    } in
    elim db.log_manager [
      | none ↦ (txn, record db { next_txn_id = id + 1; txn_map = update db.txn_map id (some txn) })
      | some log ↦
          let (lsn, log') = add_log_to_buffer (linked_to invalid (new_begin id)) log in
          let txn' = record txn { prev_lsn = lsn } in
          (
            txn',
            record db {
              next_txn_id = id + 1;
              txn_map = update db.txn_map id (some txn');
              log_manager = some log';
            },
          )
    ]

-- The end of `commit` and `abort`: a record is logged and flushed, if there is a log.
unfoldable pub log_end : LogRecord → Option LogManager → Option LogManager
log_end r none = none
log_end r (some log) = some (flush_log_to_disk (add_log_to_buffer r log).1)

abbrev pub is_finished : TransactionState → Bool
is_finished committed = true
is_finished aborted = true
is_finished _ = false

abbrev pub is_aborted : TransactionState → Bool
is_aborted aborted = true
is_aborted _ = false

-- The loops over `fhs_` and `ihs_`: the pages and the header of each open file are written to its
-- copy on the disk, each write in full.
unfoldable pub flush_all : {V : Type 0} → List Bytes → (Bytes → V) → (Bytes → V) → Bytes → V
flush_all [] memory disk = disk
flush_all (name ∷ names) memory disk = flush_all names memory (update disk name (memory name))

unfoldable pub commit : Transaction → Database → Database
commit txn db = elim (is_finished txn.state) [
  | true ↦ db
  | false ↦ record db {
    locks = release_locks txn.txn_id txn.lock_set db.locks;
    log_manager = log_end (linked_to txn.prev_lsn (new_commit txn.txn_id)) db.log_manager;
    disk_files = flush_all db.open_files db.fhs db.disk_files;
    disk_indexes = flush_all db.open_indexes db.indexes db.disk_indexes;
    txn_map = update db.txn_map txn.txn_id none;
  }
]

-- The indexes of a table are changed in place, also where the change throws.
unfoldable pub on_indexes :
    Bytes
    → (List TabIndex → Outcome (List TabIndex) (Unit {0}))
    → Database
    → Outcome Database (Unit {0})
on_indexes name f db = elim (f (db.indexes name)) [
  | raised xs ↦ raised (record db { indexes = update db.indexes name xs })
  | done _ xs ↦ done tt (record db { indexes = update db.indexes name xs })
]

module _ (fuel : ℕ) where
  -- The loop that takes the key of a row out of every index of a table.
  unfoldable pub delete_entries : Bytes → List TabIndex → Outcome (List TabIndex) (Unit {0})
  delete_entries rec [] = done tt []
  delete_entries rec (x ∷ xs) =
      elim (delete_entry (ix_compare (col_list x.cols)) fuel (key_of x.cols rec) x.handle) [
        | raised t ↦ raised (record x { handle = t } ∷ xs)
        | done _ t ↦ elim (delete_entries rec xs) [
          | raised ys ↦ raised (record x { handle = t } ∷ ys)
          | done _ ys ↦ done tt (record x { handle = t } ∷ ys)
        ]
      ]

  -- The loop that puts the key of a row into every index of a table.
  unfoldable pub insert_entries : Bytes → Rid → List TabIndex → Outcome (List TabIndex) (Unit {0})
  insert_entries rec rid [] = done tt []
  insert_entries rec rid (x ∷ xs) =
      elim (insert_entry bytes_equal (ix_compare (col_list x.cols))
        (replicate (col_tot_len x.cols) 0) fuel (key_of x.cols rec) rid x.handle) [
          | raised t ↦ raised (record x { handle = t } ∷ xs)
          | done _ t ↦ elim (insert_entries rec rid xs) [
            | raised ys ↦ raised (record x { handle = t } ∷ ys)
            | done _ ys ↦ done tt (record x { handle = t } ∷ ys)
          ]
        ]

  -- One round of the loop of `abort`.
  unfoldable pub undo_write : WriteRecord → Database → Outcome Database (Unit {0})
  undo_write (insert_tuple name rid rec) db = elim (db.fhs name) [
    | none ↦ raised db
    | some fh ↦ on_indexes name (delete_entries rec) db then_do on_file name (delete_record rid)
  ]
  undo_write (delete_tuple name rid rec) db =
      on_file name (insert_record_at rid rec) db then_do on_indexes name (insert_entries rec rid)
  undo_write (update_tuple name rid rec (some new_rid)) db = elim (read_row name new_rid db) [
    | raised db' ↦ raised db'
    | done new_rec db' ↦
        on_indexes name (delete_entries new_rec) db'
        then_do on_file name (delete_record new_rid)
        then_do on_indexes name (insert_entries rec rid)
  ]
  undo_write (update_tuple name rid rec none) db = elim (read_row name rid db) [
    | raised db' ↦ raised db'
    | done cur_rec db' ↦
        on_indexes name (delete_entries cur_rec) db'
        then_do on_file name (update_record rid rec)
        then_do on_indexes name (insert_entries rec rid)
  ]

  unfoldable pub undo_writes : List WriteRecord → Database → Outcome Database (Unit {0})
  undo_writes [] db = done tt db
  undo_writes (w ∷ ws) db = elim (undo_write w db) [
    | raised db' ↦ raised db'
    | done _ db' ↦ undo_writes ws db'
  ]

  unfoldable pub abort : Transaction → Database → Outcome Database (Unit {0})
  abort txn db = elim (is_aborted txn.state) [
    | true ↦ done tt db
    | false ↦ elim (undo_writes txn.write_set db) [
      | raised db' ↦ raised db'
      | done _ db' ↦ done tt (record db' {
        locks = release_locks txn.txn_id txn.lock_set db'.locks;
        log_manager = log_end (linked_to txn.prev_lsn (new_abort txn.txn_id)) db'.log_manager;
        txn_map = update db'.txn_map txn.txn_id none;
      })
    ]
  ]
