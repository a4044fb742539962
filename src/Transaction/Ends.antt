-- ===== src/Transaction/Ends.antt =====
-- transaction/transaction_manager.cpp: what `commit` and `abort` leave of a transaction in the locks,
-- in the log and in the table of transactions.
use whu_db_practice.Prelude.{
  ℕ, ◌≤◌, ◌≡◌, ◌≢◌, inl, inr, refl, ◌∙◌, Bool, ◌||◌, List, [], ◌∷◌, true, false, ◌==◌, ==_self,
  ◌++◌, none, some, arith, nat_eq, Option-cases,
}
use whu_db_practice.Lock.Modes.{LockMode}
use whu_db_practice.Lock.Defs.{LockDataId, LockTable}
use whu_db_practice.Lock.Invariant.{holds}
use whu_db_practice.Lock.Answers.{has_lock}
use whu_db_practice.Lock.Tables.{AreSound}
use whu_db_practice.Lock.Histories.{release_locks, holds-release_locks}
use whu_db_practice.Recovery.Log.{LogRecord, header_of, new_abort, serialize}
use whu_db_practice.Recovery.Parts.{length-serialize_header}
use whu_db_practice.Recovery.RoundTrip.{IsSized}
use whu_db_practice.Recovery.Buffer.{
  LogManager, IsValid, logged, log_buffer_size, with_lsn, add_log_to_buffer, flush_log_to_disk,
  add_log_to_buffer_lem, flush_log_to_disk_lem,
}
use whu_db_practice.Storage.Page.{Bytes}
use whu_db_practice.Recovery.Redo.{bytes_equal, bytes_eq}
use whu_db_practice.Transaction.Defs.{Transaction, linked_to, log_end}

-- The record that ends a transaction is the last of the log file.
pub log_end_lem :
    (r : LogRecord) (log : LogManager)
    → IsValid log
    → IsSized r
    → (header_of r).log_tot_len ≤ log_buffer_size
    → (log' : LogManager) × (log_end r (some log) ≡ some log')
      × IsValid log'
      × (log'.log_file ≡ logged log ++ serialize (with_lsn log.global_lsn r))
unfolding log_end
log_end_lem r log v sized small =
    let (v1, e, _) = add_log_to_buffer_lem r log v sized small in
    let (v2, _, file, _) = flush_log_to_disk_lem (add_log_to_buffer r log).1 v1 in
    (flush_log_to_disk (add_log_to_buffer r log).1, refl, v2, file ∙ e)

pub abort-IsSized : (lsn id : ℕ) → IsSized (linked_to lsn (new_abort id))
unfolding new_abort serialize
abort-IsSized lsn id = length-serialize_header _ _

-- The transaction's lock set names every lock that it holds.
abbrev pub IsTracked : Transaction → LockTable → Type 0
IsTracked txn t =
    (l : LockDataId) (m : LockMode) → holds t txn.txn_id l ≡ some m → has_lock l txn.lock_set ≡ true

-- The transaction holds no lock, and the others hold theirs.
abbrev pub IsReleased : ℕ → LockTable → LockTable → Type 0
IsReleased u t t' =
    ((l : LockDataId) → holds t' u l ≡ none)
    × ((w : ℕ) (l : LockDataId) → w ≢ u → holds t' w l ≡ holds t w l)

pub release-IsReleased :
    (txn : Transaction) (t : LockTable)
    → AreSound t
    → IsTracked txn t
    → IsReleased txn.txn_id t (release_locks txn.txn_id txn.lock_set t)
release-IsReleased txn t sound tracked =
    let u = txn.txn_id in
    (
      λ l. holds-release_locks u txn.lock_set t sound u l ∙ elim (Option-cases (holds t u l)) [
        | inl e ↦ rw e (ground arith)
        | inr (m, e) ↦ rw (tracked l m e, ==_self u) refl
      ],
      λ w l ne.
          let other : (w == u) ≡ false = ground arith in
          holds-release_locks u txn.lock_set t sound w l ∙ ground arith,
    )

pub abort_small :
    (lsn id : ℕ) → (header_of (linked_to lsn (new_abort id))).log_tot_len ≤ log_buffer_size
unfolding new_abort
abort_small lsn id = omega arith

abbrev pub is_in : Bytes → List Bytes → Bool
is_in name [] = false
is_in name (n ∷ names) = bytes_equal name n || is_in name names
