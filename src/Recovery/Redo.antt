-- ===== src/Recovery/Redo.antt =====
-- recovery/log_recovery.cpp: `redo` and `undo`, over the bytes of the log that `analyze` has read.
-- The table files are a map from names; a name that is not there throws (`fhs_.at`). An offset is
-- the 32-bit pattern of an `int`; where it is negative the source reads outside of the log, and the
-- model stops.
use whu_db_practice.Prelude.{
  ℕ, zero, suc, ◌+◌, ◌-◌, ◌%◌, ◌≡◌, ◌↔◌, Bool, true, false, ◌&&◌, ◌||◌, List, [], ◌∷◌, Option, none,
  some, arith, ◌==◌, ltb, leb, if◌then◌else◌, length, drop, contains, update, Eq, Outcome, done,
  raised,
}
use whu_db_practice.Storage.Page.{Bytes}
use whu_db_practice.Record.Defs.{
  RmFile, Rid, create_new_page_handle, unpin_page, insert_record_at, delete_record, update_record,
}
use whu_db_practice.Recovery.Words.{two32, read4}
use whu_db_practice.Recovery.Log.{
  Place, LogRecord, insert_log, delete_log, update_log, log_header_size, deserialize_insert,
  deserialize_delete, deserialize_update,
}

abbrev pub bytes_equal : Bytes → Bytes → Bool
bytes_equal [] [] = true
bytes_equal (a ∷ xs) (b ∷ ys) = a == b && bytes_equal xs ys
bytes_equal _ _ = false

pub bytes_equal_iff : (a b : Bytes) → (bytes_equal a b ≡ true) ↔ (a ≡ b)
bytes_equal_iff [] [] = ground arith
bytes_equal_iff [] (b ∷ ys) = ground arith
bytes_equal_iff (a ∷ xs) [] = ground arith
bytes_equal_iff (a ∷ xs) (b ∷ ys) = ground (arith, bytes_equal_iff xs ys)

instance abbrev pub bytes_eq : Eq Bytes
bytes_eq = record { beq = bytes_equal; beq_iff = bytes_equal_iff }

-- `fhs_`: the open table files by their names.
abbrev pub Tables : Type 0
Tables = Bytes → Option RmFile

abbrev pub type_at : Bytes → ℕ → ℕ
type_at log off = read4 (drop off log)

abbrev pub len_at : Bytes → ℕ → ℕ
len_at log off = read4 (drop (off + 8) log)

abbrev pub tid_at : Bytes → ℕ → ℕ
tid_at log off = read4 (drop (off + 12) log)

-- `(int)log_len` is negative from 2 ^ 31 on, and then the last test of the source passes.
unfoldable pub validate_log_boundary : Bytes → ℕ → Bool
validate_log_boundary log off =
    let len = len_at log off in
    if ltb (length log) (off + log_header_size)
    then false
    else if ltb len log_header_size
    then false
    else if ltb len 2147483648
    then leb (off + len) (length log)
    else true

unfoldable pub is_valid_log_type : ℕ → Bool
is_valid_log_type ty = ltb ty 6

abbrev pub is_dml : ℕ → Bool
is_dml ty = ty == 1 || (ty == 2 || ty == 0)

-- The offsets at which the loop of `redo` applies a record. Each round moves on by a record's
-- length, which is at least that of a header.
unfoldable pub redo_offsets : ℕ → Bytes → ℕ → List ℕ
redo_offsets zero log off = []
redo_offsets (suc fuel) log off =
    let rest = redo_offsets fuel log ((off + len_at log off) % two32) in
    if ltb off (length log)
      && (validate_log_boundary log off && is_valid_log_type (type_at log off))
    then off ∷ rest
    else []

-- The offsets that the two scans of `undo` visit: the type is not checked there.
unfoldable pub undo_offsets : ℕ → Bytes → ℕ → List ℕ
undo_offsets zero log off = []
undo_offsets (suc fuel) log off =
    let rest = undo_offsets fuel log ((off + len_at log off) % two32) in
    if ltb off (length log) && validate_log_boundary log off then off ∷ rest else []

abbrev pub rid_of : Place → Rid
rid_of p = record { page_no = p.page_no; slot_no = p.slot_no }

-- The file of a table is changed in place, also where the change throws.
unfoldable pub on_table :
    Bytes → (RmFile → Outcome RmFile (Unit {0})) → Tables → Outcome Tables (Unit {0})
on_table name f db = elim (db name) [
  | none ↦ raised db
  | some fh ↦ elim (f fh) [
    | raised fh' ↦ raised (update db name (some fh'))
    | done _ fh' ↦ done tt (update db name (some fh'))
  ]
]

-- Pages are created until the file has as many as are needed; `rounds` are left.
unfoldable pub grow : ℕ → RmFile → Outcome RmFile (Unit {0})
grow zero fh = done tt fh
grow (suc rounds) fh = elim (create_new_page_handle fh) [
  | raised fh' ↦ raised fh'
  | done p fh' ↦ grow rounds (unpin_page p fh')
]

unfoldable pub grow_to : ℕ → RmFile → Outcome RmFile (Unit {0})
grow_to needed fh = grow (needed - fh.file_hdr.num_pages) fh

unfoldable pub redo_record : LogRecord → Tables → Outcome Tables (Unit {0})
redo_record (insert_log _ value place name) db =
    on_table name
      (λ fh. elim (grow_to (place.page_no + 1) fh) [
        | raised fh' ↦ raised fh'
        | done _ fh' ↦ insert_record_at (rid_of place) value fh'
      ])
      db
redo_record (delete_log _ value place name) db = on_table name (delete_record (rid_of place)) db
redo_record (update_log _ old new place name) db =
    on_table name
      (λ fh. elim (grow_to (place.page_no + 1) fh) [
        | raised fh' ↦ raised fh'
        | done _ fh' ↦ update_record (rid_of place) new fh'
      ])
      db
redo_record _ db = done tt db

unfoldable pub undo_record : LogRecord → Tables → Outcome Tables (Unit {0})
undo_record (insert_log _ value place name) db = on_table name (delete_record (rid_of place)) db
undo_record (delete_log _ value place name) db =
    on_table name (insert_record_at (rid_of place) value) db
undo_record (update_log _ old new place name) db =
    on_table name (update_record (rid_of place) old) db
undo_record _ db = done tt db

-- The record at an offset, by its type; `begin`, `commit` and `abort` records are not read.
unfoldable pub record_at : Bytes → ℕ → Option LogRecord
record_at log off =
    let ty = type_at log off in
    if ty == 1
    then some (deserialize_insert (drop off log))
    else if ty == 2
    then some (deserialize_delete (drop off log))
    else if ty == 0
    then some (deserialize_update (drop off log))
    else none

unfoldable pub apply_at :
    (LogRecord → Tables → Outcome Tables (Unit {0}))
    → Bytes
    → ℕ
    → Tables
    → Outcome Tables (Unit {0})
apply_at f log off db = elim (record_at log off) [ none ↦ done tt db | some r ↦ f r db ]

unfoldable pub apply_all :
    (LogRecord → Tables → Outcome Tables (Unit {0}))
    → Bytes
    → List ℕ
    → Tables
    → Outcome Tables (Unit {0})
apply_all f log [] db = done tt db
apply_all f log (off ∷ offs) db = elim (apply_at f log off db) [
  | raised db' ↦ raised db'
  | done _ db' ↦ apply_all f log offs db'
]

-- The log has fewer records than bytes.
unfoldable pub redo : Bytes → Tables → Outcome Tables (Unit {0})
redo log db = apply_all redo_record log (redo_offsets (length log) log 0) db

-- What the first scan of `undo` does with a record: a change of a transaction that has not
-- committed so far makes the transaction active, and a commit completes it.
abbrev pub note_active : ℕ → ℕ → List ℕ → List ℕ → List ℕ
note_active ty tid active completed =
    if is_dml ty && (if contains tid completed then false else true) then tid ∷ active else active

abbrev pub note_completed : ℕ → ℕ → List ℕ → List ℕ
note_completed ty tid completed = if ty == 4 then tid ∷ completed else completed

-- The first scan of `undo`: the active and the completed transactions.
unfoldable pub scan_txns : Bytes → List ℕ → List ℕ → List ℕ → List ℕ × List ℕ
scan_txns log [] active completed = (active, completed)
scan_txns log (off ∷ offs) active completed =
    let ty = type_at log off in
    let tid = tid_at log off in
    scan_txns log offs (note_active ty tid active completed) (note_completed ty tid completed)

-- The second scan, from the last offset to the first, with the check of the third loop.
unfoldable pub to_undo : Bytes → List ℕ → List ℕ → List ℕ → List ℕ → List ℕ
to_undo log active completed [] acc = acc
to_undo log active completed (off ∷ offs) acc =
    let tid = tid_at log off in
    to_undo log active completed offs (
      if contains tid active
        && (is_dml (type_at log off) && (if contains tid completed then false else true))
      then off ∷ acc
      else acc)

unfoldable pub undo : Bytes → Tables → Outcome Tables (Unit {0})
undo log db =
    let offs = undo_offsets (length log) log 0 in
    let (active, completed) = scan_txns log offs [] [] in
    apply_all undo_record log (to_undo log active completed offs []) db
