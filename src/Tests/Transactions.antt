-- ===== src/Tests/Transactions.antt =====
-- Transaction 1 has a lock and one insertion into a table with one page.
use whu_db_practice.Prelude.{
  ◌≡◌, ◌⊎◌, refl, [], ◌∷◌, ◌++◌, none, some, arith, done, raised, if◌then◌else◌,
}
use whu_db_practice.Storage.Page.{Bytes}
use whu_db_practice.Record.Defs.{RmFile}
use whu_db_practice.Lock.Modes.{exclusive}
use whu_db_practice.Lock.Defs.{table_id}
use whu_db_practice.Lock.Histories.{System, locks, run, start, IsOrderly, start-IsOrderly}
use whu_db_practice.Lock.Exclusion.{run-IsOrderly}
use whu_db_practice.Recovery.Log.{new_abort, serialize}
use whu_db_practice.Recovery.Buffer.{LogManager, IsValid, logged, with_lsn}
use whu_db_practice.Recovery.Redo.{bytes_equal}
use whu_db_practice.Transaction.Defs.{
  Transaction, growing, Database, insert_tuple, linked_to, undo_writes, abort,
}
use whu_db_practice.Transaction.Ends.{IsTracked, IsReleased}
use whu_db_practice.Transaction.Abort.{abort_lem}

abbrev table : Bytes
table = 116 ∷ []

abbrev rows : RmFile
rows = record {
  file_hdr = record {
    record_size = 2;
    num_pages = 2;
    num_records_per_page = 3;
    first_free_page_no = some 1;
    bitmap_size = 1;
  };
  pages = λ _. record {
    next_free_page_no = none;
    num_records = 1;
    bitmap = 128 ∷ [];
    slots = λ _. 7 ∷ 8 ∷ [];
  };
  pin_count = λ _. 0;
  fd2pageno = 2;
}

abbrev locked : System
locked = run (locks 1 (table_id 3) exclusive ∷ []) start

abbrev txn : Transaction
txn = record {
  txn_id = 1;
  state = growing;
  prev_lsn = 0;
  lock_set = (locked.txns 1).lock_set;
  write_set = insert_tuple table (record { page_no = 1; slot_no = 0 }) (7 ∷ 8 ∷ []) ∷ [];
}

abbrev log : LogManager
log = record { global_lsn = 1; buffer = []; offset = 0; persist_lsn = 0; log_file = [] }

abbrev db : Database
db = record {
  fhs = λ name. if bytes_equal name table then some rows else none;
  indexes = λ _. [];
  open_files = table ∷ [];
  open_indexes = [];
  disk_files = λ _. none;
  disk_indexes = λ _. [];
  locks = locked.table;
  log_manager = some log;
  next_txn_id = 2;
  txn_map = λ _. some txn;
}

locked-IsOrderly : IsOrderly locked
locked-IsOrderly = run-IsOrderly (locks 1 (table_id 3) exclusive ∷ []) start start-IsOrderly

txn-IsTracked : IsTracked txn locked.table
txn-IsTracked = locked-IsOrderly.tracked 1

log-IsValid : IsValid log
log-IsValid = record { filled = refl; bounded = omega arith }

abort_lem_example :
    ((db1 : Database) × (db' : Database) × (undo_writes 9 txn.write_set db ≡ done tt db1)
      × (abort 9 txn db ≡ done tt db')
      × IsReleased 1 db.locks db'.locks
      × ((log' : LogManager) × (db'.log_manager ≡ some log')
          × (log'.log_file ≡ logged log ++ serialize (with_lsn 1 (linked_to 0 (new_abort 1)))))
      × (db'.fhs ≡ db1.fhs)
      × (db'.indexes ≡ db1.indexes)
      × (db'.txn_map 1 ≡ none))
    ⊎ ((db1 : Database) × (undo_writes 9 txn.write_set db ≡ raised db1)
        × (abort 9 txn db ≡ raised db1)
        × (db1.locks ≡ db.locks)
        × (db1.log_manager ≡ db.log_manager)
        × (db1.txn_map ≡ db.txn_map))
abort_lem_example =
    abort_lem 9 txn db log refl locked-IsOrderly.sound txn-IsTracked refl log-IsValid
