-- ===== src/Execution/ScanRows.antt =====
-- execution/executor_seq_scan.h: the tuples of a sequential scan are the rows of the file that meet
-- the conditions, in the order of their places.
use whu_db_practice.Prelude.{
  ℕ, zero, suc, ◌≤◌, ◌<◌, ◌≡◌, ◌≢◌, refl, sym, ◌∙◌, ◌⊎◌, inl, inr, ap, Bool, true, false, List, [],
  ◌∷◌, Option, none, some, arith, length, if◌then◌else◌, Option-cases, All, done,
}
use whu_db_practice.Storage.Page.{Bytes}
use whu_db_practice.Record.Defs.{RmFile, get_record}
use whu_db_practice.Record.Access.{get_record_lem}
use whu_db_practice.Record.Scan.{is_end}
use whu_db_practice.Record.Contents.{file_rows, rows_at, StandsAt, begin-StandsAt, next-StandsAt}
use whu_db_practice.Execution.Rows.{ColMeta, CompOp, Condition, find_col}
use whu_db_practice.Execution.Compare.{eval_cond, eval_conds}
use whu_db_practice.Execution.Executor.{IsCursor}
use whu_db_practice.Execution.SeqScan.{
  ScanState, begin_tuple, next_tuple, scan_next, seq_scan, meets, select,
}

-- The right side of each condition is a value or a column of the row.
abbrev pub Resolves : List ColMeta → List Condition → Type 0
Resolves cols = All (λ cond. (cond.is_rhs_val ≡ true) ⊎ (find_col cols cond.rhs_col ≢ none))

module _ (float_test : CompOp → Bytes → Bytes → Bool) (conds : List Condition)
    (cols : List ColMeta) where
  eval_cond-Resolves :
      (cond : Condition) (row : Bytes)
      → (cond.is_rhs_val ≡ true) ⊎ (find_col cols cond.rhs_col ≢ none)
      → eval_cond float_test cols row cond ≢ none
  unfolding eval_cond
  eval_cond-Resolves cond row h = elim (Option-cases (find_col cols cond.lhs_col)) [
    | inl e ↦ ground arith
    | inr (col, e) ↦ elim (Option-cases (find_col cols cond.rhs_col)) [
      | inl f ↦ ground arith
      | inr (r_col, f) ↦ ground arith
    ]
  ]

  eval_conds-Resolves :
      (cs : List Condition) (row : Bytes)
      → Resolves cols cs
      → eval_conds float_test cs cols row ≢ none
  unfolding eval_conds
  eval_conds-Resolves [] row h = ground arith
  eval_conds-Resolves (cond ∷ cs) row (h, hs) =
      ground (arith, eval_cond-Resolves cond row h, eval_conds-Resolves cs row hs)

-- The scan stands before the rows `raw` of the file, and `rid_` is its place.
abbrev Before : List Bytes → ScanState → Type 0
Before raw s = StandsAt s.file raw s.place × (is_end s.place s.file ≡ false → s.rid ≡ s.place)

-- At a row, the scan is not at its end, reads the row, and goes on to the rows behind it.
record AtRow (row : Bytes) (raw : List Bytes) (s : ScanState) : Type 0 where
  open_ : is_end s.place s.file ≡ false
  reads : get_record s.rid s.file ≡ done row s.file
  moves : (s' : ScanState) × (next_tuple s ≡ some s') × Before raw s' × (s'.file ≡ s.file)

Before-AtRow :
    (row : Bytes) (raw : List Bytes) (s : ScanState) → Before (row ∷ raw) s → AtRow row raw s
unfolding next_tuple is_end
Before-AtRow row raw s (inl (e, _), _) = absurd (cc)
Before-AtRow row raw s (inr (low, high, lt, e), same) =
    let inside : is_end s.place s.file ≡ false = ground arith in
    let row_e : (s.file.pages s.place.page_no).slots s.place.slot_no ≡ row = cc in
    let (place, returned, stands) = next-StandsAt s.file s.place low high lt in
    record {
      open_ = inside;
      reads = rw (same inside, (get_record_lem s.place s.file).0 low high, row_e) refl;
      moves =
          let s' : ScanState = record {
            file = s.file;
            rid = if is_end place s.file then s.rid else place;
            place = place;
          } in
          let raw_e : rows_at s.file s.place.page_no (suc s.place.slot_no) ≡ raw = cc in
          (s', rw (returned, next_tuple) refl, (rw (← raw_e) stands, λ h. rw h refl), refl);
    }

abbrev head? : List Bytes → Option Bytes
head? [] = none
head? (r ∷ rs) = some r

module _ (float_test : CompOp → Bytes → Bytes → Bool) (conds : List Condition) (cols : List ColMeta)
    (ok : Resolves cols conds) where
  select_keeps :
      (r : Bytes) (rs : List Bytes)
      → meets float_test conds cols r ≡ true
      → select float_test conds cols (r ∷ rs) ≡ r ∷ select float_test conds cols rs
  unfolding select
  select_keeps r rs h = rw h refl

  select_skips :
      (r : Bytes) (rs : List Bytes)
      → meets float_test conds cols r ≡ false
      → select float_test conds cols (r ∷ rs) ≡ select float_test conds cols rs
  unfolding select
  select_skips r rs h = rw h refl

  abbrev HeadMeets : List Bytes → Type 0
  HeadMeets [] = Unit
  HeadMeets (r ∷ rs) = meets float_test conds cols r ≡ true

  -- Where `Next` leaves the scan: at the first row from here on that meets the conditions, and that
  -- it answers with, or at the end.
  record Settled (fuel : ℕ) (raw : List Bytes) (s : ScanState) : Type 0 where
    left : List Bytes
    at : ScanState
    answers : scan_next float_test conds cols fuel s ≡ some (head? left, at)
    before : Before left at
    same_rows : select float_test conds cols left ≡ select float_test conds cols raw
    first : HeadMeets left
    shorter : length left ≤ length raw
    same_file : at.file ≡ s.file

  scan_next-Settled :
      (fuel : ℕ) (raw : List Bytes) (s : ScanState)
      → Before raw s
      → length raw < fuel
      → Settled fuel raw s
  unfolding scan_next select
  scan_next-Settled zero raw s b h = absurd (omega arith)
  scan_next-Settled (suc fuel) [] s (inl (e, end), same) h = record {
    left = [];
    at = s;
    answers = rw (end, scan_next) refl;
    before = (inl (e, end), same);
    same_rows = refl;
    first = tt;
    shorter = omega arith;
    same_file = refl;
  }
  scan_next-Settled (suc fuel) [] s (inr (low, high, lt, e), same) h = absurd (cc)
  scan_next-Settled (suc fuel) (row ∷ raw) s b h =
      let at_row = Before-AtRow row raw s b in
      elim (Option-cases (eval_conds float_test conds cols row)) [
        | inl e ↦ absurd (eval_conds-Resolves float_test conds cols conds row ok e)
        | inr (true, e) ↦ record {
          left = row ∷ raw;
          at = s;
          answers = rw (at_row.open_, at_row.reads, e, scan_next) refl;
          before = b;
          same_rows = refl;
          first = rw (e, meets) refl;
          shorter = omega arith;
          same_file = refl;
        }
        | inr (false, e) ↦
            let (s', moved, b', file_e) = at_row.moves in
            let ih = scan_next-Settled fuel raw s' b' (omega arith) in
            record {
              left = ih.left;
              at = ih.at;
              answers = rw (at_row.open_, at_row.reads, e, moved, scan_next) ih.answers;
              before = ih.before;
              same_rows = ih.same_rows ∙ sym (select_skips row raw (rw (e, meets) refl));
              first = ih.first;
              shorter = omega (arith, ih.shorter);
              same_file = ih.same_file ∙ file_e;
            }
      ]

  -- A sequential scan goes through the rows of its file that meet the conditions.
  record ScanAhead (fuel : ℕ) (file : RmFile) (rs : List Bytes) (s : ScanState) : Type 0 where
    raw : List Bytes
    before : Before raw s
    rows : rs ≡ select float_test conds cols raw
    few : length raw < fuel
    same_file : s.file ≡ file

  ScanAhead-steps :
      (fuel : ℕ) (file : RmFile) (r : Bytes) (rs : List Bytes) (s : ScanState)
      → ScanAhead fuel file (r ∷ rs) s
      → (s' : ScanState) × (s'' : ScanState) × (scan_next float_test conds cols fuel s
          ≡ some (some r, s'))
        × (next_tuple s' ≡ some s'')
        × ScanAhead fuel file rs s''
  unfolding select
  ScanAhead-steps fuel file r rs s a =
      let t = scan_next-Settled fuel a.raw s a.before a.few in
      from t.left t.at t.answers t.before t.same_rows t.first t.shorter t.same_file
    where
      from :
          (left : List Bytes) (at : ScanState)
          → scan_next float_test conds cols fuel s ≡ some (head? left, at)
          → Before left at
          → select float_test conds cols left ≡ select float_test conds cols a.raw
          → HeadMeets left
          → length left ≤ length a.raw
          → at.file ≡ s.file
          → (s' : ScanState) × (s'' : ScanState) × (scan_next float_test conds cols fuel s
              ≡ some (some r, s'))
            × (next_tuple s' ≡ some s'')
            × ScanAhead fuel file rs s''
      from [] at answers before same_rows first shorter same_file =
          let e : r ∷ rs ≡ [] = a.rows ∙ sym same_rows ∙ refl in absurd (cc)
      from (row ∷ left) at answers before same_rows first shorter same_file =
          let (s'', moved, b', file_e) = (Before-AtRow row left at before).moves in
          let e : r ∷ rs ≡ row ∷ select float_test conds cols left =
            a.rows ∙ sym same_rows ∙ select_keeps row left first in
          let r_e : row ≡ r = cc in
          (
            at,
            s'',
            answers ∙ ap (λ x. some (some x, at)) r_e,
            moved,
            record {
              raw = left;
              before = b';
              rows = cc;
              few = omega (arith, a.few);
              same_file = file_e ∙ same_file ∙ a.same_file;
            },
          )

  ScanAhead-live :
      (fuel : ℕ) (file : RmFile) (r : Bytes) (rs : List Bytes) (s : ScanState)
      → ScanAhead fuel file (r ∷ rs) s
      → is_end s.place s.file ≡ false
  unfolding select
  ScanAhead-live fuel file r rs s a = go a.raw a.before a.rows
    where
      go :
          (raw : List Bytes)
          → Before raw s
          → r ∷ rs ≡ select float_test conds cols raw
          → is_end s.place s.file ≡ false
      go [] b e = absurd (cc)
      go (row ∷ raw) b e = (Before-AtRow row raw s b).open_

  ScanAhead-spent :
      (fuel : ℕ) (file : RmFile) (s : ScanState)
      → ScanAhead fuel file [] s
      → (s' : ScanState) × (scan_next float_test conds cols fuel s ≡ some (none, s'))
        × ScanAhead fuel file [] s'
  ScanAhead-spent fuel file s a =
      let t = scan_next-Settled fuel a.raw s a.before a.few in
      from t.left t.at t.answers t.before (a.rows ∙ sym t.same_rows) t.first t.shorter
        (t.same_file ∙ a.same_file)
    where
      from :
          (left : List Bytes) (at : ScanState)
          → scan_next float_test conds cols fuel s ≡ some (head? left, at)
          → Before left at
          → [] ≡ select float_test conds cols left
          → HeadMeets left
          → length left ≤ length a.raw
          → at.file ≡ file
          → (s' : ScanState) × (scan_next float_test conds cols fuel s ≡ some (none, s'))
            × ScanAhead fuel file [] s'
      from [] at answers before none_left first shorter same_file = (
        at,
        answers,
        record {
          raw = [];
          before = before;
          rows = none_left;
          few = omega (arith, a.few);
          same_file = same_file;
        },
      )
      from (row ∷ left) at answers before none_left first shorter same_file =
          let e = none_left ∙ select_keeps row left first in absurd (cc)

  module _ (fuel : ℕ) (file : RmFile) (pages : 1 ≤ file.file_hdr.num_pages)
      (enough : length (file_rows file) < fuel) where
    pub seq_scan-IsCursor :
        IsCursor
          (seq_scan float_test conds cols fuel)
          (select float_test conds cols (file_rows file))
    unfolding begin_tuple
    seq_scan-IsCursor = record {
      Ready = λ s. s.file ≡ file;
      Ahead = ScanAhead fuel file;
      ready = λ rs s a. a.same_file;
      begins = λ s e.
          let (place, begun, stands) = begin-StandsAt s.file (rw e pages) in
          (
            record { file = s.file; rid = place; place = place },
            rw (begun, begin_tuple) refl,
            record {
              raw = file_rows s.file;
              before = (stands, λ h. refl);
              rows = rw e refl;
              few = rw e enough;
              same_file = e;
            },
          );
      live = λ r rs s a. ScanAhead-live fuel file r rs s a;
      steps = ScanAhead-steps fuel file;
      spent = ScanAhead-spent fuel file;
    }
