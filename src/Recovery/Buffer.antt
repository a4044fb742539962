-- ===== src/Recovery/Buffer.antt =====
-- recovery/log_manager.cpp: `LogManager` and its buffer. `buffer` is what was written to the buffer
-- so far, and `log_file` the contents of the log file on disk, which takes every write.
use whu_db_practice.Prelude.{
  ℕ, ◌+◌, ◌-◌, ◌≤◌, ◌≡◌, refl, ap, sym, ◌∙◌, inl, inr, Bool, List, [], ◌∷◌, ◌++◌, arith, ◌==◌, ltb,
  if◌then◌else◌, Bool-cases, length, take, length-append, All,
}
use mathlib.Core.List.{append_assoc, append-nil}
use whu_db_practice.Storage.Page.{Bytes}
use whu_db_practice.Recovery.Words.{take-append}
use whu_db_practice.Recovery.Log.{
  LogRecord, begin_log, commit_log, abort_log, insert_log, delete_log, update_log, header_of,
  serialize,
}
use whu_db_practice.Recovery.Parts.{length-serialize_header}
use whu_db_practice.Recovery.RoundTrip.{IsSized}

-- 1024 pages.
abbrev pub log_buffer_size : ℕ
log_buffer_size = 4194304

pub record LogManager : Type 0 where
  pub global_lsn : ℕ
  pub buffer : Bytes
  pub offset : ℕ
  pub persist_lsn : ℕ
  pub log_file : Bytes

unfoldable pub is_full : LogManager → ℕ → Bool
is_full m append_size = ltb log_buffer_size (m.offset + append_size)

-- `write_log` appends to the file; the buffer is empty afterwards.
unfoldable pub flush_log_to_disk : LogManager → LogManager
flush_log_to_disk m = if m.offset == 0 then m else record m {
  log_file = m.log_file ++ take m.offset m.buffer;
  persist_lsn = m.global_lsn - 1;
  offset = 0;
  buffer = [];
}

-- The record gets its number.
unfoldable pub with_lsn : ℕ → LogRecord → LogRecord
with_lsn n (begin_log h) = begin_log (record h { lsn = n })
with_lsn n (commit_log h) = commit_log (record h { lsn = n })
with_lsn n (abort_log h) = abort_log (record h { lsn = n })
with_lsn n (insert_log h v r t) = insert_log (record h { lsn = n }) v r t
with_lsn n (delete_log h v r t) = delete_log (record h { lsn = n }) v r t
with_lsn n (update_log h o v r t) = update_log (record h { lsn = n }) o v r t

unfoldable pub add_log_to_buffer : LogRecord → LogManager → ℕ × LogManager
add_log_to_buffer l m =
    let numbered = with_lsn m.global_lsn l in
    let len = (header_of numbered).log_tot_len in
    let m1 = record m { global_lsn = m.global_lsn + 1 } in
    let m2 = if is_full m1 len then flush_log_to_disk m1 else m1 in
    (
      m.global_lsn,
      record m2 {
        buffer = take m2.offset m2.buffer ++ serialize numbered;
        offset = m2.offset + len;
      },
    )

-- The log as a whole: what is on disk, and what is in the buffer.
abbrev pub logged : LogManager → Bytes
logged m = m.log_file ++ take m.offset m.buffer

pub record IsValid (m : LogManager) : Type 0 where
  pub filled : length m.buffer ≡ m.offset
  pub bounded : m.offset ≤ log_buffer_size

-- A flush puts the whole log on disk, and leaves it as it is.
pub flush_log_to_disk_lem :
    (m : LogManager)
    → IsValid m
    → IsValid (flush_log_to_disk m)
      × (logged (flush_log_to_disk m) ≡ logged m)
      × ((flush_log_to_disk m).log_file ≡ logged m)
      × ((flush_log_to_disk m).offset ≡ 0)
unfolding flush_log_to_disk
flush_log_to_disk_lem m v = elim (Bool-cases (m.offset == 0)) [
  | inl empty ↦
      let e : m.offset ≡ 0 = ground arith in
      rw (empty, flush_log_to_disk)
        (v, refl, sym (ap (λ n. m.log_file ++ take n m.buffer) e ∙ append-nil _), e)
  | inr some_bytes ↦
      rw (some_bytes, flush_log_to_disk)
        (record { filled = refl; bounded = omega arith }, append-nil _, refl, refl)
]

with_lsn-IsSized : (n : ℕ) (l : LogRecord) → IsSized l → IsSized (with_lsn n l)
unfolding with_lsn serialize
with_lsn-IsSized n (begin_log h) s =
    length-serialize_header _ _ ∙ (sym (length-serialize_header _ h) ∙ s)
with_lsn-IsSized n (commit_log h) s =
    length-serialize_header _ _ ∙ (sym (length-serialize_header _ h) ∙ s)
with_lsn-IsSized n (abort_log h) s =
    length-serialize_header _ _ ∙ (sym (length-serialize_header _ h) ∙ s)
with_lsn-IsSized n (insert_log h v r t) s =
    omega (arith, length-append {0}, length-serialize_header)
with_lsn-IsSized n (delete_log h v r t) s =
    omega (arith, length-append {0}, length-serialize_header)
with_lsn-IsSized n (update_log h o v r t) s =
    omega (arith, length-append {0}, length-serialize_header)

with_lsn_length :
    (n : ℕ) (l : LogRecord) → (header_of (with_lsn n l)).log_tot_len ≡ (header_of l).log_tot_len
unfolding with_lsn
with_lsn_length n (begin_log h) = refl
with_lsn_length n (commit_log h) = refl
with_lsn_length n (abort_log h) = refl
with_lsn_length n (insert_log h v r t) = refl
with_lsn_length n (delete_log h v r t) = refl
with_lsn_length n (update_log h o v r t) = refl

-- Bytes are written at the offset of a buffer that has room for them.
write_lem :
    (m : LogManager) (bs : Bytes) (len : ℕ)
    → IsValid m
    → length bs ≡ len
    → m.offset + len ≤ log_buffer_size
    → let m' = record m { buffer = take m.offset m.buffer ++ bs; offset = m.offset + len } in
      IsValid m' × (logged m' ≡ logged m ++ bs)
write_lem m bs len v sized fits =
    let all : take m.offset m.buffer ≡ m.buffer =
      rw (← v.filled)
        (ap (take (length m.buffer)) (sym (append-nil m.buffer)) ∙ take-append m.buffer []) in
    let whole : length (take m.offset m.buffer ++ bs) ≡ m.offset + len =
      omega (arith, length-append (take m.offset m.buffer) bs, ap length all, v.filled) in
    let kept : take (m.offset + len) (take m.offset m.buffer ++ bs) ≡ take m.offset m.buffer ++ bs =
      rw (← whole) (
        ap (take (length (take m.offset m.buffer ++ bs)))
          (sym (append-nil (take m.offset m.buffer ++ bs)))
        ∙ take-append (take m.offset m.buffer ++ bs) []) in
    (
      record { filled = whole; bounded = fits },
      ap (λ x. m.log_file ++ x) kept ∙ sym (append_assoc m.log_file (take m.offset m.buffer) bs),
    )

numbered-IsValid : (m : LogManager) (n : ℕ) → IsValid m → IsValid (record m { global_lsn = n })
numbered-IsValid m n v = record { filled = v.filled; bounded = v.bounded }

flush_log_to_disk_lsn : (m : LogManager) → (flush_log_to_disk m).global_lsn ≡ m.global_lsn
unfolding flush_log_to_disk
flush_log_to_disk_lsn m = ground arith

-- A record of the length that its header says, and that fits into the buffer, gets the next number
-- and goes to the end of the log, whether or not the buffer has to be flushed first.
pub add_log_to_buffer_lem :
    (l : LogRecord) (m : LogManager)
    → IsValid m
    → IsSized l
    → (header_of l).log_tot_len ≤ log_buffer_size
    → let m' = (add_log_to_buffer l m).1 in
      IsValid m'
      × (logged m' ≡ logged m ++ serialize (with_lsn m.global_lsn l))
      × (m'.global_lsn ≡ m.global_lsn + 1)
unfolding add_log_to_buffer is_full
add_log_to_buffer_lem l m v sized fits =
    let n = with_lsn m.global_lsn l in
    let len = (header_of n).log_tot_len in
    let bytes = with_lsn-IsSized m.global_lsn l sized in
    let m1 = record m { global_lsn = m.global_lsn + 1 } in
    let v1 = numbered-IsValid m (m.global_lsn + 1) v in
    let small : len ≤ log_buffer_size = omega (arith, with_lsn_length m.global_lsn l) in
    elim (Bool-cases (ltb log_buffer_size (m.offset + len))) [
      | inr room ↦
          let (v', e) = write_lem m1 (serialize n) len v1 bytes (ground arith) in
          rw room (v', e, refl)
      | inl full ↦
          let m2 = flush_log_to_disk m1 in
          let (v2, same, _, zero_offset) = flush_log_to_disk_lem m1 v1 in
          let (v', e) = write_lem m2 (serialize n) len v2 bytes (omega arith) in
          rw full (v', e ∙ ap (λ x. x ++ serialize n) same, flush_log_to_disk_lsn m1)
    ]

-- A sequence of records is logged one after the other.
unfoldable pub add_all : List LogRecord → LogManager → LogManager
add_all [] m = m
add_all (l ∷ ls) m = add_all ls (add_log_to_buffer l m).1

-- The bytes of the records, with the numbers from `n` on.
abbrev pub serialize_all : ℕ → List LogRecord → Bytes
serialize_all n [] = []
serialize_all n (l ∷ ls) = serialize (with_lsn n l) ++ serialize_all (n + 1) ls

-- Whatever the flushes in between, once records that fit into the buffer are logged and the log is
-- flushed, the log file holds what it held and the buffer held, and then the bytes of exactly these
-- records in their order, numbered one after the other.
pub add_all-flush :
    (ls : List LogRecord) (m : LogManager)
    → IsValid m
    → All (λ l. IsSized l × ((header_of l).log_tot_len ≤ log_buffer_size)) ls
    → (flush_log_to_disk (add_all ls m)).log_file ≡ logged m ++ serialize_all m.global_lsn ls
unfolding add_all
add_all-flush [] m v h = (flush_log_to_disk_lem m v).2 ∙ sym (append-nil (logged m))
add_all-flush (l ∷ ls) m v h =
    let (v', e, next) = add_log_to_buffer_lem l m v h.0.0 h.0.1 in
    let m' = (add_log_to_buffer l m).1 in
    add_all-flush ls m' v' h.1
    ∙ ap (λ x. x ++ serialize_all m'.global_lsn ls) e
    ∙ ap (λ k. (logged m ++ serialize (with_lsn m.global_lsn l)) ++ serialize_all k ls) next
    ∙ append_assoc (logged m) (serialize (with_lsn m.global_lsn l))
        (serialize_all (m.global_lsn + 1) ls)
