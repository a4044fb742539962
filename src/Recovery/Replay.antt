-- ===== src/Recovery/Replay.antt =====
-- recovery/log_recovery.cpp: on a log that holds serialized records, `redo` applies exactly these
-- records in their order.
use mathlib.Core.List.{append_assoc, append-nil}
use whu_db_practice.Prelude.{
  ℕ, zero, suc, ◌≤◌, ◌<◌, ◌≡◌, ◌⊎◌, refl, ap, sym, ◌∙◌, inl, inr, false, List, [], ◌∷◌, ◌++◌, arith,
  ltb, length, length-append, All, Outcome, done, raised,
}
use whu_db_practice.Storage.Page.{Bytes}
use whu_db_practice.Recovery.Log.{
  LogHeader, LogRecord, begin_log, commit_log, abort_log, insert_log, delete_log, update_log,
  serialize,
}
use whu_db_practice.Recovery.Redo.{
  Tables, redo_offsets, record_at, apply_at, apply_all, redo_record, redo,
}
use whu_db_practice.Recovery.AtStart.{
  IsLogged, bytes_of, long_enough, boundary_ok, step_ok, data_of, Reads, located, offsets, records,
  records-located, located-Reads,
}

redo_offsets-bytes_of :
    (ls : List LogRecord) (pre : Bytes) (fuel : ℕ)
    → All IsLogged ls
    → length (pre ++ bytes_of ls) < 2147483648
    → length ls ≤ fuel
    → redo_offsets fuel (pre ++ bytes_of ls) (length pre) ≡ offsets (located (length pre) ls)
unfolding redo_offsets
redo_offsets-bytes_of [] pre zero h small enough = refl
redo_offsets-bytes_of [] pre (suc fuel) h small enough =
    let e : length (pre ++ []) ≡ length pre = ap length (append-nil pre) in
    let at_end : ltb (length pre) (length (pre ++ [])) ≡ false = ground arith in
    rw (at_end, redo_offsets) refl
redo_offsets-bytes_of (l ∷ ls) pre zero h small enough = absurd (omega arith)
redo_offsets-bytes_of (l ∷ ls) pre (suc fuel) h small enough =
    let (inside, valid, next) = step_ok pre l (bytes_of ls) h.0 small in
    let boundary = boundary_ok pre l (bytes_of ls) h.0 small in
    let same = append_assoc pre (serialize l) (bytes_of ls) in
    let ih =
      redo_offsets-bytes_of ls (pre ++ serialize l) fuel h.1 (omega (arith, ap length same))
        (omega arith) in
    rw (inside, redo_offsets, boundary, valid, next)
      (ap (λ x. length pre ∷ x)
        (ap (λ x. redo_offsets fuel x (length (pre ++ serialize l))) (sym same)
          ∙ (ih ∙ ap (λ n. offsets (located n ls)) (length-append pre (serialize l)))))

-- A change for each record with data; the others change nothing.
abbrev pub Change : Type 0
Change = LogRecord → Tables → Outcome Tables (Unit {0})

abbrev pub IgnoresMarks : Change → Type 0
IgnoresMarks f =
    (h : LogHeader) (db : Tables)
    → (f (begin_log h) db ≡ done tt db)
      × (f (commit_log h) db ≡ done tt db)
      × (f (abort_log h) db ≡ done tt db)

-- The records in their order, up to the first that throws.
unfoldable pub replay : Change → List LogRecord → Tables → Outcome Tables (Unit {0})
replay f [] db = done tt db
replay f (l ∷ ls) db = elim (f l db) [ raised db' ↦ raised db' | done _ db' ↦ replay f ls db' ]

pub outcome_cases :
    (o : Outcome Tables (Unit {0}))
    → ((db : Tables) × (o ≡ raised db)) ⊎ ((db : Tables) × (o ≡ done tt db))
outcome_cases (raised db) = inl (db, refl)
outcome_cases (done tt db) = inr (db, refl)

apply_at-data_of :
    (f : Change)
    → IgnoresMarks f
    → (log : Bytes) (off : ℕ) (l : LogRecord) (db : Tables) → record_at log off ≡ data_of l
    → apply_at f log off db ≡ f l db
unfolding apply_at
apply_at-data_of f marks log off (begin_log h) db e = rw (e, apply_at) (sym (marks h db).0)
apply_at-data_of f marks log off (commit_log h) db e = rw (e, apply_at) (sym (marks h db).1)
apply_at-data_of f marks log off (abort_log h) db e = rw (e, apply_at) (sym (marks h db).2)
apply_at-data_of f marks log off (insert_log h v r t) db e = rw (e, apply_at) refl
apply_at-data_of f marks log off (delete_log h v r t) db e = rw (e, apply_at) refl
apply_at-data_of f marks log off (update_log h o n r t) db e = rw (e, apply_at) refl

-- Changes that are applied where the log reads as records are those of the records.
pub apply_all-offsets :
    (f : Change)
    → IgnoresMarks f
    → (log : Bytes) (ps : List (ℕ × LogRecord)) (db : Tables) → All (Reads log) ps
    → apply_all f log (offsets ps) db ≡ replay f (records ps) db
unfolding apply_all replay
apply_all-offsets f marks log [] db h = refl
apply_all-offsets f marks log ((off, l) ∷ ps) db h =
    let first = apply_at-data_of f marks log off l db h.0.2 in
    elim (outcome_cases (f l db)) [
      | inl (db', e) ↦ rw (first, apply_all, e, replay) refl
      | inr (db', e) ↦ rw (first, apply_all, e, replay) (apply_all-offsets f marks log ps db' h.1)
    ]

redo_record-IgnoresMarks : IgnoresMarks redo_record
unfolding redo_record
redo_record-IgnoresMarks h db = (refl, refl, refl)

-- Each record takes more than a byte.
pub length-bytes_of : (ls : List LogRecord) → length ls ≤ length (bytes_of ls)
length-bytes_of [] = omega arith
length-bytes_of (l ∷ ls) =
    omega (arith, long_enough l, length-append (serialize l) (bytes_of ls), length-bytes_of ls)

-- On a log of fewer than 2 ^ 31 bytes that holds records whose numbers fit into their words and
-- whose lengths are those in their headers, `redo` does the same as applying the records one after
-- the other, up to the first that throws.
pub redo-bytes_of :
    (ls : List LogRecord) (db : Tables)
    → All IsLogged ls
    → length (bytes_of ls) < 2147483648
    → redo (bytes_of ls) db ≡ replay redo_record ls db
unfolding redo
redo-bytes_of ls db h small =
    rw (redo_offsets-bytes_of ls [] (length (bytes_of ls)) h small (length-bytes_of ls)) (
      apply_all-offsets redo_record redo_record-IgnoresMarks (bytes_of ls) (located 0 ls) db
        (located-Reads ls [] h)
      ∙ ap (λ x. replay redo_record x db) (records-located 0 ls))
