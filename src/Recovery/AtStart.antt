-- ===== src/Recovery/AtStart.antt =====
-- recovery/log_recovery.cpp: what the loops of `redo` and `undo` read where a record starts.
use mathlib.Core.List.{append_assoc, append-nil}
use whu_db_practice.Prelude.{
  ℕ, ◌+◌, ◌%◌, ◌≤◌, ◌<◌, ◌≡◌, refl, ap, sym, subst, ◌∙◌, true, List, [], ◌∷◌, ◌++◌, Option, none,
  some, arith, ltb, length, drop, length-append, All,
}
use whu_db_practice.Storage.Page.{Bytes}
use whu_db_practice.Recovery.Words.{two32, le4, read4, read4-le4, drop-append}
use whu_db_practice.Recovery.Log.{
  LogType, update, insert, delete, begin, commit, abort, code, LogHeader, LogRecord, begin_log,
  commit_log, abort_log, insert_log, delete_log, update_log, header_of, log_header_size,
  serialize_header, serialize_value, serialize_target, serialize, deserialize_header,
}
use whu_db_practice.Recovery.Parts.{IsWordHeader, length-serialize_header, header-serialize_header}
use whu_db_practice.Recovery.RoundTrip.{IsSized, IsWordRecord, deserialize, deserialize-serialize}
use whu_db_practice.Recovery.Redo.{
  type_at, len_at, tid_at, validate_log_boundary, is_valid_log_type, record_at,
}

abbrev pub type_of : LogRecord → LogType
type_of (begin_log h) = begin
type_of (commit_log h) = commit
type_of (abort_log h) = abort
type_of (insert_log h v r t) = insert
type_of (delete_log h v r t) = delete
type_of (update_log h o n r t) = update

abbrev body : LogRecord → Bytes
body (begin_log h) = []
body (commit_log h) = []
body (abort_log h) = []
body (insert_log h v r t) = serialize_value v ++ serialize_target r t
body (delete_log h v r t) = serialize_value v ++ serialize_target r t
body (update_log h o n r t) = serialize_value o ++ (serialize_value n ++ serialize_target r t)

serialize_split :
    (l : LogRecord) → serialize l ≡ serialize_header (type_of l) (header_of l) ++ body l
unfolding serialize
serialize_split (begin_log h) = sym (append-nil _)
serialize_split (commit_log h) = sym (append-nil _)
serialize_split (abort_log h) = sym (append-nil _)
serialize_split (insert_log h v r t) = refl
serialize_split (delete_log h v r t) = refl
serialize_split (update_log h o n r t) = refl

pub word_header : (l : LogRecord) → IsWordRecord l → IsWordHeader (header_of l)
word_header (begin_log h) w = w
word_header (commit_log h) w = w
word_header (abort_log h) w = w
word_header (insert_log h v r t) w = w.0
word_header (delete_log h v r t) w = w.0
word_header (update_log h o n r t) w = w.0

code_small : (t : LogType) → code t < 6
code_small update = omega arith
code_small insert = omega arith
code_small delete = omega arith
code_small begin = omega arith
code_small commit = omega arith
code_small abort = omega arith

code_read : (t : LogType) (h : LogHeader) (x : Bytes) → read4 (serialize_header t h ++ x) ≡ code t
unfolding serialize_header le4
code_read t h x =
    read4-le4 (code t)
      (le4 h.lsn ++ (le4 h.log_tot_len ++ (le4 h.log_tid ++ (le4 h.prev_lsn ++ x))))
      (omega (arith, code_small t))

module _ (l : LogRecord) (rest : Bytes) (w : IsWordRecord l) where
  split_rest : serialize l ++ rest ≡ serialize_header (type_of l) (header_of l) ++ (body l ++ rest)
  split_rest =
      ap (λ x. x ++ rest) (serialize_split l)
      ∙ append_assoc (serialize_header (type_of l) (header_of l)) (body l) rest

  header_read : deserialize_header (serialize l ++ rest) ≡ header_of l
  header_read =
      ap deserialize_header split_rest
      ∙ header-serialize_header (type_of l) (header_of l) (body l ++ rest) (word_header l w)

  len_read : read4 (drop 8 (serialize l ++ rest)) ≡ (header_of l).log_tot_len
  unfolding deserialize_header
  len_read = ap (λ (h : LogHeader). h.log_tot_len) header_read

  tid_read : read4 (drop 12 (serialize l ++ rest)) ≡ (header_of l).log_tid
  unfolding deserialize_header
  tid_read = ap (λ (h : LogHeader). h.log_tid) header_read

  type_read : read4 (serialize l ++ rest) ≡ code (type_of l)
  type_read = ap read4 split_rest ∙ code_read (type_of l) (header_of l) (body l ++ rest)

abbrev pub bytes_of : List LogRecord → Bytes
bytes_of [] = []
bytes_of (l ∷ ls) = serialize l ++ bytes_of ls

-- A record that `serialize` writes and `deserialize` reads back.
abbrev pub IsLogged : LogRecord → Type 0
IsLogged l = IsWordRecord l × IsSized l

pub long_enough : (l : LogRecord) → log_header_size ≤ length (serialize l)
long_enough l = omega (
  arith,
  ap length (serialize_split l),
  length-append (serialize_header (type_of l) (header_of l)) (body l),
  length-serialize_header (type_of l) (header_of l),
)

-- What the loops read at the start of a record.
module _ (pre : Bytes) (l : LogRecord) (rest : Bytes) (logged : IsLogged l) where
  at_start :
      (k : ℕ) → drop (length pre + k) (pre ++ (serialize l ++ rest)) ≡ drop k (serialize l ++ rest)
  at_start k = drop-append pre (serialize l ++ rest) k

  from_start : drop (length pre) (pre ++ (serialize l ++ rest)) ≡ serialize l ++ rest
  from_start =
      let e : length pre ≡ length pre + 0 = omega arith in
      ap (λ n. drop n (pre ++ (serialize l ++ rest))) e ∙ at_start 0

  type_at_start : type_at (pre ++ (serialize l ++ rest)) (length pre) ≡ code (type_of l)
  type_at_start = ap read4 from_start ∙ type_read l rest logged.0

  len_at_start : len_at (pre ++ (serialize l ++ rest)) (length pre) ≡ length (serialize l)
  len_at_start = ap read4 (at_start 8) ∙ (len_read l rest logged.0 ∙ sym logged.1)

  tid_at_start : tid_at (pre ++ (serialize l ++ rest)) (length pre) ≡ (header_of l).log_tid
  tid_at_start = ap read4 (at_start 12) ∙ tid_read l rest logged.0

  whole_length :
      length (pre ++ (serialize l ++ rest)) ≡ length pre + (length (serialize l) + length rest)
  whole_length =
      omega (arith, length-append pre (serialize l ++ rest), length-append (serialize l) rest)

  pub boundary_ok :
      length (pre ++ (serialize l ++ rest)) < 2147483648
      → validate_log_boundary (pre ++ (serialize l ++ rest)) (length pre) ≡ true
  unfolding validate_log_boundary
  boundary_ok small = ground (arith, len_at_start, whole_length, long_enough l)

  -- Both loops take the record and move on to its end.
  pub step_ok :
      length (pre ++ (serialize l ++ rest)) < 2147483648
      → let log = pre ++ (serialize l ++ rest) in
        (ltb (length pre) (length log) ≡ true)
        × (is_valid_log_type (type_at log (length pre)) ≡ true)
        × ((length pre + len_at log (length pre)) % two32 ≡ length (pre ++ serialize l))
  unfolding is_valid_log_type
  step_ok small =
      let size = whole_length in
      let long = long_enough l in
      (
        ground arith,
        rw type_at_start (ground (arith, code_small (type_of l))),
        rw len_at_start (omega (arith, length-append pre (serialize l))),
      )

-- The record, if it has data; the marks of a transaction are not read.
abbrev pub data_of : LogRecord → Option LogRecord
data_of (begin_log h) = none
data_of (commit_log h) = none
data_of (abort_log h) = none
data_of (insert_log h v r t) = some (insert_log h v r t)
data_of (delete_log h v r t) = some (delete_log h v r t)
data_of (update_log h o n r t) = some (update_log h o n r t)

read_at_start :
    (pre : Bytes) (l : LogRecord) (rest : Bytes)
    → IsLogged l
    → record_at (pre ++ (serialize l ++ rest)) (length pre) ≡ data_of l
unfolding record_at deserialize
read_at_start pre (begin_log h) rest w = rw (type_at_start pre (begin_log h) rest w) refl
read_at_start pre (commit_log h) rest w = rw (type_at_start pre (commit_log h) rest w) refl
read_at_start pre (abort_log h) rest w = rw (type_at_start pre (abort_log h) rest w) refl
read_at_start pre (insert_log h v r t) rest w =
    let l = insert_log h v r t in
    rw (type_at_start pre l rest w, from_start pre l rest w)
      (ap some (deserialize-serialize l rest w.0))
read_at_start pre (delete_log h v r t) rest w =
    let l = delete_log h v r t in
    rw (type_at_start pre l rest w, from_start pre l rest w)
      (ap some (deserialize-serialize l rest w.0))
read_at_start pre (update_log h o n r t) rest w =
    let l = update_log h o n r t in
    rw (type_at_start pre l rest w, from_start pre l rest w)
      (ap some (deserialize-serialize l rest w.0))

-- The log reads as the record at the offset.
abbrev pub Reads : Bytes → ℕ × LogRecord → Type 0
Reads log (off, l) =
    (type_at log off ≡ code (type_of l))
    × (tid_at log off ≡ (header_of l).log_tid)
    × (record_at log off ≡ data_of l)

-- The records with their offsets.
abbrev pub located : ℕ → List LogRecord → List (ℕ × LogRecord)
located off [] = []
located off (l ∷ ls) = (off, l) ∷ located (off + length (serialize l)) ls

abbrev pub offsets : List (ℕ × LogRecord) → List ℕ
offsets [] = []
offsets ((off, l) ∷ ps) = off ∷ offsets ps

abbrev pub records : List (ℕ × LogRecord) → List LogRecord
records [] = []
records ((off, l) ∷ ps) = l ∷ records ps

pub records-located : (off : ℕ) (ls : List LogRecord) → records (located off ls) ≡ ls
records-located off [] = refl
records-located off (l ∷ ls) = ap (λ x. l ∷ x) (records-located (off + length (serialize l)) ls)

pub located-Reads :
    (ls : List LogRecord) (pre : Bytes)
    → All IsLogged ls
    → All (Reads (pre ++ bytes_of ls)) (located (length pre) ls)
located-Reads [] pre h = tt
located-Reads (l ∷ ls) pre h =
    let rest = bytes_of ls in
    let log = pre ++ (serialize l ++ rest) in
    let ih = located-Reads ls (pre ++ serialize l) h.1 in
    let moved : All (Reads log) (located (length (pre ++ serialize l)) ls) =
      subst (λ x. All (Reads x) (located (length (pre ++ serialize l)) ls))
        (append_assoc pre (serialize l) rest) ih in
    (
      (type_at_start pre l rest h.0, tid_at_start pre l rest h.0, read_at_start pre l rest h.0),
      subst (λ n. All (Reads log) (located n ls)) (length-append pre (serialize l)) moved,
    )
