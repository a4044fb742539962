-- ===== src/Transaction/Abort.antt =====
-- transaction/transaction_manager.cpp: what `abort` leaves, whether or not its rollback throws.
use whu_db_practice.Prelude.{
  ℕ, ◌≡◌, ◌⊎◌, inl, inr, refl, sym, ap, subst, ◌∙◌, false, ==_self, List, [], ◌∷◌, ◌++◌, none, some,
  arith, update, nat_eq, Outcome, done, raised, Option-cases,
}
use whu_db_practice.Storage.Page.{Bytes}
use whu_db_practice.Record.Defs.{RmFile, Rid, insert_record_at, delete_record, update_record}
use whu_db_practice.Lock.Tables.{AreSound}
use whu_db_practice.Lock.Histories.{release_locks}
use whu_db_practice.Recovery.Log.{new_abort, serialize}
use whu_db_practice.Recovery.Buffer.{LogManager, IsValid, logged, with_lsn}
use whu_db_practice.Transaction.Defs.{
  Transaction, Database, WriteRecord, insert_tuple, delete_tuple, update_tuple, TabIndex, linked_to,
  log_end, is_aborted, undo_write, undo_writes, abort, on_file, read_row, on_indexes,
  delete_entries, insert_entries, ◌then_do◌,
}
use whu_db_practice.Transaction.Ends.{
  IsTracked, IsReleased, log_end_lem, abort-IsSized, abort_small, release-IsReleased,
}

-- What a rollback leaves alone.
abbrev Keeps : Database → Database → Type 0
Keeps db db' =
    (db'.locks ≡ db.locks)
    × (db'.log_manager ≡ db.log_manager)
    × (db'.txn_map ≡ db.txn_map)
    × (db'.disk_files ≡ db.disk_files)

abbrev OutcomeKeeps : {A : Type 0} → Database → Outcome Database A → Type 0
OutcomeKeeps db (raised db') = Keeps db db'
OutcomeKeeps db (done a db') = Keeps db db'

on_file-Keeps :
    (name : Bytes) (f : RmFile → Outcome RmFile (Unit {0})) (db : Database)
    → OutcomeKeeps db (on_file name f db)
unfolding on_file
on_file-Keeps name f db = ground arith

read_row-Keeps : (name : Bytes) (rid : Rid) (db : Database) → OutcomeKeeps db (read_row name rid db)
unfolding read_row
read_row-Keeps name rid db = ground arith

on_indexes-Keeps :
    (name : Bytes) (f : List TabIndex → Outcome (List TabIndex) (Unit {0})) (db : Database)
    → OutcomeKeeps db (on_indexes name f db)
unfolding on_indexes
on_indexes-Keeps name f db = ground arith

Keeps-trans :
    {A : Type 0} (a b : Database) (o : Outcome Database A)
    → Keeps a b
    → OutcomeKeeps b o
    → OutcomeKeeps a o
Keeps-trans a b (raised c) h k = (k.0 ∙ h.0, k.1 ∙ h.1, k.2 ∙ h.2, k.3 ∙ h.3)
Keeps-trans a b (done x c) h k = (k.0 ∙ h.0, k.1 ∙ h.1, k.2 ∙ h.2, k.3 ∙ h.3)

then_do-Keeps :
    (db : Database) (o : Outcome Database (Unit {0})) (f : Database → Outcome Database (Unit {0}))
    → OutcomeKeeps db o
    → ((db1 : Database) → OutcomeKeeps db1 (f db1))
    → OutcomeKeeps db (o then_do f)
then_do-Keeps db (raised db1) f h k = h
then_do-Keeps db (done tt db1) f h k = Keeps-trans db db1 (f db1) h (k db1)

-- A row is read first.
read_then-Keeps :
    (db : Database) (o : Outcome Database Bytes)
    (f : Bytes → Database → Outcome Database (Unit {0}))
    → OutcomeKeeps db o
    → ((row : Bytes) (db1 : Database) → OutcomeKeeps db1 (f row db1))
    → OutcomeKeeps db (elim o [ raised db1 ↦ raised db1 | done row db1 ↦ f row db1 ])
read_then-Keeps db (raised db1) f h k = h
read_then-Keeps db (done row db1) f h k = Keeps-trans db db1 (f row db1) h (k row db1)

outcome_cases :
    (o : Outcome Database (Unit {0}))
    → ((db : Database) × (o ≡ raised db)) ⊎ ((db : Database) × (o ≡ done tt db))
outcome_cases (raised db) = inl (db, refl)
outcome_cases (done tt db) = inr (db, refl)

module _ (fuel : ℕ) where
  rewritten-Keeps :
      (name row rec : Bytes) (rid : Rid) (f : RmFile → Outcome RmFile (Unit {0})) (db : Database)
      → OutcomeKeeps db (
          on_indexes name (delete_entries fuel row) db
          then_do on_file name f
          then_do on_indexes name (insert_entries fuel rec rid))
  rewritten-Keeps name row rec rid f db =
      then_do-Keeps db (on_indexes name (delete_entries fuel row) db then_do on_file name f)
        (on_indexes name (insert_entries fuel rec rid))
        (then_do-Keeps db (on_indexes name (delete_entries fuel row) db) (on_file name f)
          (on_indexes-Keeps name (delete_entries fuel row) db) (on_file-Keeps name f))
        (on_indexes-Keeps name (insert_entries fuel rec rid))

  undo_write-Keeps : (w : WriteRecord) (db : Database) → OutcomeKeeps db (undo_write fuel w db)
  unfolding undo_write
  undo_write-Keeps (insert_tuple name rid rec) db = elim (Option-cases (db.fhs name)) [
    | inl e ↦ rw (e, OutcomeKeeps) (refl, refl, refl, refl)
    | inr (fh, e) ↦
        rw (e, OutcomeKeeps)
          (then_do-Keeps db (on_indexes name (delete_entries fuel rec) db)
            (on_file name (delete_record rid)) (on_indexes-Keeps name (delete_entries fuel rec) db)
            (on_file-Keeps name (delete_record rid)))
  ]
  undo_write-Keeps (delete_tuple name rid rec) db =
      then_do-Keeps db (on_file name (insert_record_at rid rec) db)
        (on_indexes name (insert_entries fuel rec rid))
        (on_file-Keeps name (insert_record_at rid rec) db)
        (on_indexes-Keeps name (insert_entries fuel rec rid))
  undo_write-Keeps (update_tuple name rid rec (some new_rid)) db =
      read_then-Keeps db (read_row name new_rid db)
        (λ row db1.
          on_indexes name (delete_entries fuel row) db1
          then_do on_file name (delete_record new_rid)
          then_do on_indexes name (insert_entries fuel rec rid))
        (read_row-Keeps name new_rid db)
        (λ row db1. rewritten-Keeps name row rec rid (delete_record new_rid) db1)
  undo_write-Keeps (update_tuple name rid rec none) db =
      read_then-Keeps db (read_row name rid db)
        (λ row db1.
          on_indexes name (delete_entries fuel row) db1
          then_do on_file name (update_record rid rec)
          then_do on_indexes name (insert_entries fuel rec rid))
        (read_row-Keeps name rid db)
        (λ row db1. rewritten-Keeps name row rec rid (update_record rid rec) db1)

  undo_writes-Keeps :
      (ws : List WriteRecord) (db : Database) → OutcomeKeeps db (undo_writes fuel ws db)
  unfolding undo_writes
  undo_writes-Keeps [] db = (refl, refl, refl, refl)
  undo_writes-Keeps (w ∷ ws) db =
      then_do-Keeps db (undo_write fuel w db) (undo_writes fuel ws) (undo_write-Keeps w db)
        (undo_writes-Keeps ws)

  -- An abort of a transaction that is not aborted yet. If its rollback returns, its locks are given
  -- back and those of the others are kept, its abort record is the last of the log file and follows
  -- all that was logged, the tables and indexes are those that the rollback leaves, and the
  -- transaction leaves the table of transactions. If its rollback throws, the abort throws, and the
  -- locks, the log and the table of transactions are as they were.
  pub abort_lem :
      (txn : Transaction) (db : Database) (log : LogManager)
      → is_aborted txn.state ≡ false
      → AreSound db.locks
      → IsTracked txn db.locks
      → db.log_manager ≡ some log
      → IsValid log
      → ((db1 : Database) × (db' : Database) × (undo_writes fuel txn.write_set db ≡ done tt db1)
          × (abort fuel txn db ≡ done tt db')
          × IsReleased txn.txn_id db.locks db'.locks
          × ((log' : LogManager) × (db'.log_manager ≡ some log')
              × (log'.log_file
                  ≡ logged log
                    ++ serialize
                        (with_lsn log.global_lsn (linked_to txn.prev_lsn (new_abort txn.txn_id)))))
          × (db'.fhs ≡ db1.fhs)
          × (db'.indexes ≡ db1.indexes)
          × (db'.txn_map txn.txn_id ≡ none))
        ⊎ ((db1 : Database) × (undo_writes fuel txn.write_set db ≡ raised db1)
            × (abort fuel txn db ≡ raised db1)
            × (db1.locks ≡ db.locks)
            × (db1.log_manager ≡ db.log_manager)
            × (db1.txn_map ≡ db.txn_map))
  unfolding abort
  abort_lem txn db log live sound tracked has_log v =
      elim (outcome_cases (undo_writes fuel txn.write_set db)) [
        | inl (db1, e) ↦
            let k = subst (OutcomeKeeps db) e (undo_writes-Keeps txn.write_set db) in
            inr (db1, e, rw (abort, live, e) refl, k.0, k.1, k.2)
        | inr (db1, e) ↦
            let k = subst (OutcomeKeeps db) e (undo_writes-Keeps txn.write_set db) in
            let r = linked_to txn.prev_lsn (new_abort txn.txn_id) in
            let (log', logs, _, file) =
              log_end_lem r log v (abort-IsSized txn.prev_lsn txn.txn_id)
                (abort_small txn.prev_lsn txn.txn_id) in
            let self = ==_self txn.txn_id in
            inl (
              db1,
              record db1 {
                locks = release_locks txn.txn_id txn.lock_set db1.locks;
                log_manager = log_end r db1.log_manager;
                txn_map = update db1.txn_map txn.txn_id none;
              },
              e,
              rw (abort, live, e) refl,
              subst (λ t. IsReleased txn.txn_id db.locks (release_locks txn.txn_id txn.lock_set t))
                  (sym k.0) (release-IsReleased txn db.locks sound tracked),
              (log', ap (log_end r) (k.1 ∙ has_log) ∙ logs, file),
              refl,
              refl,
              rw self refl,
            )
      ]
