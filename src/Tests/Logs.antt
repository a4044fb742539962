-- ===== src/Tests/Logs.antt =====
-- Small logs.
use whu_db_practice.Prelude.{
  ℕ, ◌<◌, ◌≤◌, ◌≡◌, refl, List, [], ◌∷◌, ◌++◌, none, some, arith, length, All, if◌then◌else◌,
}
use whu_db_practice.Storage.Page.{Bytes}
use whu_db_practice.Recovery.Words.{le4, le8}
use whu_db_practice.Recovery.Log.{
  LogHeader, Place, LogRecord, commit_log, abort_log, insert_log, update_log, header_of, serialize,
  serialize_header, serialize_value, serialize_target,
}
use whu_db_practice.Recovery.RoundTrip.{IsSized, deserialize, deserialize-serialize}
use whu_db_practice.Recovery.Buffer.{
  LogManager, flush_log_to_disk, add_all, logged, serialize_all, add_all-flush, log_buffer_size,
}
use whu_db_practice.Recovery.AtStart.{IsLogged, bytes_of}
use whu_db_practice.Recovery.Replay.{replay, redo-bytes_of}
use whu_db_practice.Recovery.Rollback.{lost, undo-bytes_of, undo_deletes_reused}
use whu_db_practice.Recovery.Redo.{
  Tables, redo, undo, redo_record, undo_record, on_table, rid_of, bytes_equal,
}
use whu_db_practice.Record.Defs.{RmFile, delete_record}

-- A table named by one byte.
abbrev table : Bytes
table = 116 ∷ []

abbrev place : Place
place = record { page_no = 1; slot_no = 2 }

abbrev header : ℕ → ℕ → ℕ → LogHeader
header lsn len tid = record { lsn = lsn; log_tot_len = len; log_tid = tid; prev_lsn = 4294967295 }

-- Transaction 1 inserts and aborts; then transaction 2 inserts at the same place and commits.
abbrev history : List LogRecord
history =
    insert_log (header 0 43 1) (7 ∷ 8 ∷ []) place table
    ∷ abort_log (header 1 20 1)
    ∷ insert_log (header 2 43 2) (9 ∷ 9 ∷ []) place table
    ∷ commit_log (header 3 20 2)
    ∷ []

-- The table has a page, with the place of the two insertions.
abbrev rows : RmFile
rows = record {
  file_hdr = record {
    record_size = 2;
    num_pages = 2;
    num_records_per_page = 3;
    first_free_page_no = some 1;
    bitmap_size = 1;
  };
  pages = λ _. record {
    next_free_page_no = none;
    num_records = 0;
    bitmap = 0 ∷ [];
    slots = λ _. 0 ∷ 0 ∷ [];
  };
  pin_count = λ _. 0;
  fd2pageno = 2;
}

abbrev tables : Tables
tables name = if bytes_equal name table then some rows else none

deserialize-serialize_example :
    deserialize
      (update_log (header 5 47 3) (1 ∷ []) (2 ∷ []) place table)
      (serialize (update_log (header 5 47 3) (1 ∷ []) (2 ∷ []) place table) ++ 0 ∷ [])
    ≡ update_log (header 5 47 3) (1 ∷ []) (2 ∷ []) place table
deserialize-serialize_example =
    deserialize-serialize (update_log (header 5 47 3) (1 ∷ []) (2 ∷ []) place table) (0 ∷ [])
      (omega arith)

abbrev empty : LogManager
empty = record { global_lsn = 0; buffer = []; offset = 0; persist_lsn = 0; log_file = [] }

history-IsSized : All (λ l. IsSized l × ((header_of l).log_tot_len ≤ log_buffer_size)) history
unfolding serialize serialize_header serialize_value serialize_target le4 le8
history-IsSized = omega arith

add_all-flush_example :
    (flush_log_to_disk (add_all history empty)).log_file ≡ logged empty ++ serialize_all 0 history
add_all-flush_example =
    add_all-flush history empty (record { filled = refl; bounded = omega arith }) history-IsSized

history-IsLogged : All IsLogged history
unfolding serialize serialize_header serialize_value serialize_target le4 le8
history-IsLogged = omega arith

short : length (bytes_of history) < 2147483648
unfolding serialize serialize_header serialize_value serialize_target le4 le8
short = omega arith

redo-bytes_of_example : redo (bytes_of history) tables ≡ replay redo_record history tables
redo-bytes_of_example = redo-bytes_of history tables history-IsLogged short

undo-bytes_of_example :
    undo (bytes_of history) tables ≡ replay undo_record (lost history history) tables
undo-bytes_of_example = undo-bytes_of history tables history-IsLogged short

undo_deletes_reused_example :
    undo (bytes_of history) tables ≡ on_table table (delete_record (rid_of place)) tables
undo_deletes_reused_example =
    undo_deletes_reused (header 0 43 1) (header 1 20 1) (header 2 43 2) (header 3 20 2) (7 ∷ 8 ∷ [])
      (9 ∷ 9 ∷ []) place table tables history-IsLogged short refl refl
