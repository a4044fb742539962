-- ===== src/Recovery/Rollback.antt =====
-- recovery/log_recovery.cpp: on a log that holds serialized records, `undo` reverts the changes of the
-- transactions that have no commit record, from the last to the first.
use mathlib.Core.List.{append_assoc, append-nil}
use whu_db_practice.Prelude.{
  ℕ, zero, suc, ◌≤◌, ◌<◌, ◌≡◌, refl, ap, sym, subst, ◌∙◌, inl, inr, Bool, true, false, ◌&&◌, ◌||◌,
  List, [], ◌∷◌, ◌++◌, arith, ◌==◌, ltb, if◌then◌else◌, length, length-append, All, contains,
  Bool-cases,
}
use whu_db_practice.Storage.Page.{Bytes}
use whu_db_practice.Record.Defs.{delete_record}
use whu_db_practice.Recovery.Log.{
  code, LogHeader, Place, LogRecord, commit_log, abort_log, insert_log, header_of, serialize,
}
use whu_db_practice.Recovery.Redo.{
  Tables, type_at, tid_at, is_dml, undo_offsets, note_active, note_completed, scan_txns, to_undo,
  apply_all, undo_record, undo, on_table, rid_of,
}
use whu_db_practice.Recovery.AtStart.{
  type_of, IsLogged, bytes_of, boundary_ok, step_ok, Reads, located, offsets, records,
  records-located, located-Reads,
}
use whu_db_practice.Recovery.Replay.{
  IgnoresMarks, replay, outcome_cases, apply_all-offsets, length-bytes_of,
}

undo_offsets-bytes_of :
    (ls : List LogRecord) (pre : Bytes) (fuel : ℕ)
    → All IsLogged ls
    → length (pre ++ bytes_of ls) < 2147483648
    → length ls ≤ fuel
    → undo_offsets fuel (pre ++ bytes_of ls) (length pre) ≡ offsets (located (length pre) ls)
unfolding undo_offsets
undo_offsets-bytes_of [] pre zero h small enough = refl
undo_offsets-bytes_of [] pre (suc fuel) h small enough =
    let e : length (pre ++ []) ≡ length pre = ap length (append-nil pre) in
    let at_end : ltb (length pre) (length (pre ++ [])) ≡ false = ground arith in
    rw (at_end, undo_offsets) refl
undo_offsets-bytes_of (l ∷ ls) pre zero h small enough = absurd (omega arith)
undo_offsets-bytes_of (l ∷ ls) pre (suc fuel) h small enough =
    let (inside, _, next) = step_ok pre l (bytes_of ls) h.0 small in
    let boundary = boundary_ok pre l (bytes_of ls) h.0 small in
    let same = append_assoc pre (serialize l) (bytes_of ls) in
    let ih =
      undo_offsets-bytes_of ls (pre ++ serialize l) fuel h.1 (omega (arith, ap length same))
        (omega arith) in
    rw (inside, undo_offsets, boundary, next)
      (ap (λ x. length pre ∷ x)
        (ap (λ x. undo_offsets fuel x (length (pre ++ serialize l))) (sym same)
          ∙ (ih ∙ ap (λ n. offsets (located n ls)) (length-append pre (serialize l)))))

-- The log has a commit record of the transaction.
abbrev pub commits : ℕ → List LogRecord → Bool
commits tid [] = false
commits tid (l ∷ ls) = (code (type_of l) == 4 && (header_of l).log_tid == tid) || commits tid ls

-- A change of a transaction with no commit record in `all`.
abbrev pub is_lost : List LogRecord → LogRecord → Bool
is_lost all l =
    is_dml (code (type_of l)) && (if commits (header_of l).log_tid all then false else true)

-- The changes to revert, from the last to the first.
abbrev pub lost : List LogRecord → List LogRecord → List LogRecord
lost all [] = []
lost all (l ∷ ls) = lost all ls ++ (if is_lost all l then l ∷ [] else [])

-- The sets that the first scan ends with.
abbrev scanned : Bytes → List (ℕ × LogRecord) → List ℕ → List ℕ → List ℕ × List ℕ
scanned log ps active completed = scan_txns log (offsets ps) active completed

-- The completed transactions are those with a commit record.
scan-completed :
    (log : Bytes) (ps : List (ℕ × LogRecord)) (active completed : List ℕ) (tid : ℕ)
    → All (Reads log) ps
    → contains tid (scanned log ps active completed).1
      ≡ (contains tid completed || commits tid (records ps))
unfolding scan_txns
scan-completed log [] active completed tid h = ground arith
scan-completed log ((off, l) ∷ ps) active completed tid h =
    let (reads_type, reads_tid, _) = h.0 in
    scan-completed log ps (note_active (type_at log off) (tid_at log off) active completed)
      (note_completed (type_at log off) (tid_at log off) completed) tid h.1
    ∙ rw (reads_type, reads_tid) (ground arith)

-- A transaction stays active.
scan-active :
    (log : Bytes) (ps : List (ℕ × LogRecord)) (active completed : List ℕ) (tid : ℕ)
    → contains tid active ≡ true
    → contains tid (scanned log ps active completed).0 ≡ true
unfolding scan_txns
scan-active log [] active completed tid h = h
scan-active log ((off, l) ∷ ps) active completed tid h =
    scan-active log ps (note_active (type_at log off) (tid_at log off) active completed)
      (note_completed (type_at log off) (tid_at log off) completed) tid (ground arith)

-- The transaction of each change is active or completed after the scan.
abbrev IsNoted : List ℕ → List ℕ → ℕ × LogRecord → Type 0
IsNoted active completed (off, l) =
    is_dml (code (type_of l)) ≡ true
    → contains (header_of l).log_tid completed ≡ false
    → contains (header_of l).log_tid active ≡ true

or_false : (a b : Bool) → (a || b) ≡ false → a ≡ false
or_false a b h = ground arith

note_lem :
    (ty tid : ℕ) (active completed : List ℕ)
    → is_dml ty ≡ true
    → contains tid (note_completed ty tid completed) ≡ false
    → contains tid (note_active ty tid active completed) ≡ true
note_lem ty tid active completed change open_txn = ground arith

scan-IsNoted :
    (log : Bytes) (ps : List (ℕ × LogRecord)) (active completed : List ℕ)
    → All (Reads log) ps
    → let (active', completed') = scanned log ps active completed in
      All (IsNoted active' completed') ps
unfolding scan_txns
scan-IsNoted log [] active completed h = tt
scan-IsNoted log ((off, l) ∷ ps) active completed h =
    let (reads_type, reads_tid, _) = h.0 in
    let a = note_active (type_at log off) (tid_at log off) active completed in
    let c = note_completed (type_at log off) (tid_at log off) completed in
    let (active', completed') = scanned log ps a c in
    let tid = tid_at log off in
    (
      λ change open_txn.
          let unseen =
            sym (scan-completed log ps a c tid h.1)
            ∙ subst (λ t. contains t completed' ≡ false) (sym reads_tid) open_txn in
          let noted =
            note_lem (type_at log off) tid active completed (rw reads_type change)
              (or_false (contains tid c) (commits tid (records ps)) unseen) in
          subst (λ t. contains t active' ≡ true) reads_tid (scan-active log ps a c tid noted),
      scan-IsNoted log ps a c h.1,
    )

-- The changes to revert, collected before those in `acc`.
lost_onto : List LogRecord → List (ℕ × LogRecord) → List (ℕ × LogRecord) → List (ℕ × LogRecord)
lost_onto all [] acc = acc
lost_onto all ((off, l) ∷ ps) acc = lost_onto all ps (if is_lost all l then (off, l) ∷ acc else acc)

records-lost_onto :
    (all : List LogRecord) (ps acc : List (ℕ × LogRecord))
    → records (lost_onto all ps acc) ≡ lost all (records ps) ++ records acc
unfolding lost_onto
records-lost_onto all [] acc = refl
records-lost_onto all ((off, l) ∷ ps) acc = elim (Bool-cases (is_lost all l)) [
  | inl y ↦ rw y (
      records-lost_onto all ps ((off, l) ∷ acc)
      ∙ sym (append_assoc (lost all (records ps)) (l ∷ []) (records acc)))
  | inr n ↦ rw n (
      records-lost_onto all ps acc
      ∙ ap (λ x. x ++ records acc) (sym (append-nil (lost all (records ps)))))
]

lost_onto-Reads :
    (log : Bytes) (all : List LogRecord) (ps acc : List (ℕ × LogRecord))
    → All (Reads log) ps
    → All (Reads log) acc
    → All (Reads log) (lost_onto all ps acc)
unfolding lost_onto
lost_onto-Reads log all [] acc h k = k
lost_onto-Reads log all ((off, l) ∷ ps) acc h k = elim (Bool-cases (is_lost all l)) [
  | inl y ↦ rw y (lost_onto-Reads log all ps ((off, l) ∷ acc) h.1 (h.0, k))
  | inr n ↦ rw n (lost_onto-Reads log all ps acc h.1 k)
]

-- The test of the second scan and the check of the third loop, together.
undo_test_lem :
    (active completed : List ℕ) (tid : ℕ) (change committed : Bool)
    → (change ≡ true → contains tid completed ≡ false → contains tid active ≡ true)
    → contains tid completed ≡ committed
    → (contains tid active && (change && (if contains tid completed then false else true)))
      ≡ (change && (if committed then false else true))
undo_test_lem active completed tid false committed noted e = ground arith
undo_test_lem active completed tid true true noted e = rw e (ground arith)
undo_test_lem active completed tid true false noted e = rw (e, noted refl e) refl

to_undo-lost_onto :
    (log : Bytes) (all : List LogRecord) (active completed : List ℕ) (ps acc : List (ℕ × LogRecord))
    → ((tid : ℕ) → contains tid completed ≡ commits tid all)
    → All (Reads log) ps
    → All (IsNoted active completed) ps
    → to_undo log active completed (offsets ps) (offsets acc) ≡ offsets (lost_onto all ps acc)
unfolding to_undo lost_onto
to_undo-lost_onto log all active completed [] acc e h k = refl
to_undo-lost_onto log all active completed ((off, l) ∷ ps) acc e h k =
    let (reads_type, reads_tid, _) = h.0 in
    let tid = (header_of l).log_tid in
    let test =
      undo_test_lem active completed tid (is_dml (code (type_of l))) (commits tid all) k.0
        (e tid) in
    elim (Bool-cases (is_lost all l)) [
      | inl y ↦
          rw (reads_type, reads_tid, test, y, to_undo)
            (to_undo-lost_onto log all active completed ps ((off, l) ∷ acc) e h.1 k.1)
      | inr n ↦
          rw (reads_type, reads_tid, test, n, to_undo)
            (to_undo-lost_onto log all active completed ps acc e h.1 k.1)
    ]

undo_record-IgnoresMarks : IgnoresMarks undo_record
unfolding undo_record
undo_record-IgnoresMarks h db = (refl, refl, refl)

-- On a log of fewer than 2 ^ 31 bytes that holds records whose numbers fit into their words and
-- whose lengths are those in their headers, `undo` does the same as reverting, from the last to the
-- first and up to the first that throws, each change whose transaction has no commit record in the
-- log.
pub undo-bytes_of :
    (ls : List LogRecord) (db : Tables)
    → All IsLogged ls
    → length (bytes_of ls) < 2147483648
    → undo (bytes_of ls) db ≡ replay undo_record (lost ls ls) db
unfolding undo
undo-bytes_of ls db h small =
    let log = bytes_of ls in
    let ps = located 0 ls in
    let reads = located-Reads ls [] h in
    let (active, completed) = scan_txns log (offsets ps) [] [] in
    let e : (tid : ℕ) → contains tid completed ≡ commits tid ls =
      λ tid. scan-completed log ps [] [] tid reads ∙ ap (commits tid) (records-located 0 ls) in
    rw (undo_offsets-bytes_of ls [] (length log) h small (length-bytes_of ls)) (
      ap (λ x. apply_all undo_record log x db)
        (to_undo-lost_onto log ls active completed ps [] e reads (scan-IsNoted log ps [] [] reads))
      ∙ (apply_all-offsets undo_record undo_record-IgnoresMarks log (lost_onto ls ps []) db
            (lost_onto-Reads log ls ps [] reads tt)
          ∙ ap (λ x. replay undo_record x db)
              (records-lost_onto ls ps []
                ∙ (append-nil (lost ls (records ps)) ∙ ap (lost ls) (records-located 0 ls)))))

-- A transaction that aborted stays without a commit record: if another transaction has since
-- inserted at the place that an aborted insertion had given back, and has committed, `undo` deletes
-- what stands at that place.
pub undo_deletes_reused :
    (h1 h2 h3 h4 : LogHeader) (v1 v2 : Bytes) (r : Place) (name : Bytes) (db : Tables)
    → let ls =
        insert_log h1 v1 r name ∷ abort_log h2 ∷ insert_log h3 v2 r name ∷ commit_log h4 ∷ [] in
      All IsLogged ls
      → length (bytes_of ls) < 2147483648
      → h4.log_tid ≡ h3.log_tid
      → (h4.log_tid == h1.log_tid) ≡ false
      → undo (bytes_of ls) db ≡ on_table name (delete_record (rid_of r)) db
unfolding undo_record replay
undo_deletes_reused h1 h2 h3 h4 v1 v2 r name db logged small mine other =
    let ls =
      insert_log h1 v1 r name ∷ abort_log h2 ∷ insert_log h3 v2 r name ∷ commit_log h4 ∷ [] in
    let ours : (h4.log_tid == h3.log_tid) ≡ true = ground arith in
    undo-bytes_of ls db logged small
    ∙ rw (other, ours)
        (elim (outcome_cases (on_table name (delete_record (rid_of r)) db)) [
          | inl (db', e) ↦ rw (e, replay) refl
          | inr (db', e) ↦ rw (e, replay) refl
        ])
