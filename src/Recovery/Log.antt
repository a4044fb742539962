-- ===== src/Recovery/Log.antt =====
-- recovery/log_manager.h: the log records, their constructors and their bytes.
use whu_db_practice.Prelude.{ℕ, ◌+◌, ◌++◌, length, take, drop}
use whu_db_practice.Storage.Page.{Bytes}
use whu_db_practice.Recovery.Words.{le4, read4, le8, read8}

pub data LogType : Type 0 where
  update : LogType
  insert : LogType
  delete : LogType
  begin : LogType
  commit : LogType
  abort : LogType

abbrev pub code : LogType → ℕ
code update = 0
code insert = 1
code delete = 2
code begin = 3
code commit = 4
code abort = 5

-- `INVALID_LSN` and `INVALID_TXN_ID`, -1.
abbrev pub invalid : ℕ
invalid = 4294967295

-- The fields of `LogRecord`; the type is that of the class.
pub record LogHeader : Type 0 where
  pub lsn : ℕ
  pub log_tot_len : ℕ
  pub log_tid : ℕ
  pub prev_lsn : ℕ

pub record Place : Type 0 where
  pub page_no : ℕ
  pub slot_no : ℕ

-- `BeginLogRecord`, `CommitLogRecord`, `AbortLogRecord`, `InsertLogRecord`, `DeleteLogRecord` and
-- `UpdateLogRecord`, with the values, the place and the table name of the last three.
pub data LogRecord : Type 0 where
  begin_log : LogHeader → LogRecord
  commit_log : LogHeader → LogRecord
  abort_log : LogHeader → LogRecord
  insert_log : LogHeader → Bytes → Place → Bytes → LogRecord
  delete_log : LogHeader → Bytes → Place → Bytes → LogRecord
  update_log : LogHeader → Bytes → Bytes → Place → Bytes → LogRecord

abbrev pub header_of : LogRecord → LogHeader
header_of (begin_log h) = h
header_of (commit_log h) = h
header_of (abort_log h) = h
header_of (insert_log h v r t) = h
header_of (delete_log h v r t) = h
header_of (update_log h o n r t) = h

-- `LOG_HEADER_SIZE`: five words.
abbrev pub log_header_size : ℕ
log_header_size = 20

abbrev pub fresh_header : ℕ → ℕ → LogHeader
fresh_header txn_id len = record {
  lsn = invalid;
  log_tot_len = len;
  log_tid = txn_id;
  prev_lsn = invalid;
}

-- The constructors.
unfoldable pub new_begin : ℕ → LogRecord
new_begin txn_id = begin_log (fresh_header txn_id log_header_size)

unfoldable pub new_commit : ℕ → LogRecord
new_commit txn_id = commit_log (fresh_header txn_id log_header_size)

unfoldable pub new_abort : ℕ → LogRecord
new_abort txn_id = abort_log (fresh_header txn_id log_header_size)

unfoldable pub new_insert : ℕ → Bytes → Place → Bytes → LogRecord
new_insert txn_id value rid table_name =
    insert_log
      (fresh_header txn_id (log_header_size + 4 + length value + 8 + (8 + length table_name))) value
      rid table_name

unfoldable pub new_delete : ℕ → Bytes → Place → Bytes → LogRecord
new_delete txn_id value rid table_name =
    delete_log
      (fresh_header txn_id (log_header_size + (4 + length value + 8) + (8 + length table_name)))
      value rid table_name

unfoldable pub new_update : ℕ → Bytes → Bytes → Place → Bytes → LogRecord
new_update txn_id old new rid table_name =
    update_log
      (fresh_header txn_id
        (log_header_size + (4 + length old + 4 + length new + 8) + (8 + length table_name)))
      old new rid table_name

-- `LogRecord::serialize`.
unfoldable pub serialize_header : LogType → LogHeader → Bytes
serialize_header t h =
    le4 (code t) ++ (le4 h.lsn ++ (le4 h.log_tot_len ++ (le4 h.log_tid ++ le4 h.prev_lsn)))

-- A value, with its size before it.
unfoldable pub serialize_value : Bytes → Bytes
serialize_value v = le4 (length v) ++ v

-- The place and the table name, which end a record.
unfoldable pub serialize_target : Place → Bytes → Bytes
serialize_target r t = le4 r.page_no ++ (le4 r.slot_no ++ (le8 (length t) ++ t))

-- `serialize`: each `memcpy` goes to where the last one ended.
unfoldable pub serialize : LogRecord → Bytes
serialize (begin_log h) = serialize_header begin h
serialize (commit_log h) = serialize_header commit h
serialize (abort_log h) = serialize_header abort h
serialize (insert_log h v r t) =
    serialize_header insert h ++ (serialize_value v ++ serialize_target r t)
serialize (delete_log h v r t) =
    serialize_header delete h ++ (serialize_value v ++ serialize_target r t)
serialize (update_log h o n r t) =
    serialize_header update h ++ (serialize_value o ++ (serialize_value n ++ serialize_target r t))

-- `LogRecord::deserialize`, but for the type.
unfoldable pub deserialize_header : Bytes → LogHeader
deserialize_header src = record {
  lsn = read4 (drop 4 src);
  log_tot_len = read4 (drop 8 src);
  log_tid = read4 (drop 12 src);
  prev_lsn = read4 (drop 16 src);
}

-- A value whose size stands at offset `off`.
unfoldable pub size_at : Bytes → ℕ → ℕ
size_at src off = read4 (drop off src)

unfoldable pub value_at : Bytes → ℕ → Bytes
value_at src off = take (size_at src off) (drop (off + 4) src)

unfoldable pub place_at : Bytes → ℕ → Place
place_at src off = record { page_no = read4 (drop off src); slot_no = read4 (drop (off + 4) src) }

unfoldable pub name_at : Bytes → ℕ → Bytes
name_at src off = take (read8 (drop off src)) (drop (off + 8) src)

-- `deserialize` of the three classes with data.
unfoldable pub deserialize_insert : Bytes → LogRecord
deserialize_insert src =
    let value = value_at src log_header_size in
    let off = log_header_size + size_at src log_header_size + 4 in
    insert_log (deserialize_header src) value (place_at src off) (name_at src (off + 8))

unfoldable pub deserialize_delete : Bytes → LogRecord
deserialize_delete src =
    let value = value_at src log_header_size in
    let off = log_header_size + size_at src log_header_size + 4 in
    delete_log (deserialize_header src) value (place_at src off) (name_at src (off + 8))

unfoldable pub deserialize_update : Bytes → LogRecord
deserialize_update src =
    let old = value_at src log_header_size in
    let off = log_header_size + size_at src log_header_size + 4 in
    let new = value_at src off in
    let off' = off + (size_at src off + 4) in
    update_log (deserialize_header src) old new (place_at src off') (name_at src (off' + 8))
