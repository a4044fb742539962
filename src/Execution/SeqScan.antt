-- ===== src/Execution/SeqScan.antt =====
-- execution/executor_seq_scan.h: `SeqScanExecutor`, run outside of a transaction, so that it takes
-- no locks.
use whu_db_practice.Prelude.{
  ℕ, zero, suc, ◌+◌, Bool, true, false, List, [], ◌∷◌, Option, none, some, if◌then◌else◌, done,
  raised,
}
use whu_db_practice.Storage.Page.{Bytes}
use whu_db_practice.Record.Defs.{RmFile, Rid, get_record}
use whu_db_practice.Record.Scan.{begin, is_end, next}
use whu_db_practice.Execution.Rows.{ColMeta, CompOp, Condition}
use whu_db_practice.Execution.Compare.{eval_conds}
use whu_db_practice.Execution.Executor.{Executor}

-- `fh_`, `rid_` and the place of `scan_`.
pub record ScanState : Type 0 where
  pub file : RmFile
  pub rid : Rid
  pub place : Rid

-- `cols_.back().offset + cols_.back().len`
unfoldable pub row_len : List ColMeta → ℕ
row_len [] = 0
row_len (c ∷ []) = c.offset + c.len
row_len (c ∷ d ∷ cols) = row_len (d ∷ cols)

unfoldable pub begin_tuple : ScanState → Option ScanState
begin_tuple s = elim (begin s.file) [
  | raised file ↦ none
  | done place file ↦ some (record { file = file; rid = place; place = place })
]

unfoldable pub next_tuple : ScanState → Option ScanState
next_tuple s = elim (next s.place s.file) [
  | raised file ↦ none
  | done place file ↦
      some (record { file = file; rid = if is_end place file then s.rid else place; place = place })
]

module _ (float_test : CompOp → Bytes → Bytes → Bool) (conds : List Condition)
    (cols : List ColMeta) where
  -- `Next`, which calls itself for each row that it skips.
  unfoldable pub scan_next : ℕ → ScanState → Option (Option Bytes × ScanState)
  scan_next zero s = none
  scan_next (suc fuel) s = elim (is_end s.place s.file) [
    | true ↦ some (none, s)
    | false ↦ elim (get_record s.rid s.file) [
      | raised file ↦ none
      | done rec file ↦ elim (eval_conds float_test conds cols rec) [
        | none ↦ none
        | some true ↦ some (some rec, record s { file = file })
        | some false ↦ elim (next_tuple (record s { file = file })) [
          | none ↦ none
          | some s' ↦ scan_next fuel s'
        ]
      ]
    ]
  ]

  abbrev pub seq_scan : ℕ → Executor
  seq_scan fuel = record {
    State = ScanState;
    tuple_len = row_len cols;
    cols = cols;
    begin_tuple = begin_tuple;
    next_tuple = next_tuple;
    is_end = λ s. is_end s.place s.file;
    next = scan_next fuel;
  }

  -- Whether a row meets the conditions.
  abbrev pub meets : Bytes → Bool
  meets row = elim (eval_conds float_test conds cols row) [ none ↦ false | some b ↦ b ]

  unfoldable pub select : List Bytes → List Bytes
  select [] = []
  select (r ∷ rs) = if meets r then r ∷ select rs else select rs
