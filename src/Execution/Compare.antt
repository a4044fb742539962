-- ===== src/Execution/Compare.antt =====
-- The tests of the executors on a row. The comparisons of floats and the conversion to a float are
-- those of the hardware, and arguments. `none` is a read through a null pointer.
use whu_db_practice.Prelude.{
  Bool, true, false, ◌&&◌, ◌||◌, List, [], ◌∷◌, if◌then◌else◌, Option, none, some, ℤ,
}
use whu_db_practice.Storage.Page.{Bytes}
use whu_db_practice.Index.Order.{
  ColType, type_int, type_float, type_string, type_bigint, type_datetime, compare_ℤ,
}
use whu_db_practice.Execution.Rows.{
  TabCol, ColMeta, Value, CompOp, Condition, int32, int64, bigint_val, float_val, c_string,
  compare_str, test_op, find_col, at_col,
}

abbrev pub is_string : ColType → Bool
is_string type_string = true
is_string _ = false

abbrev pub is_float : ColType → Bool
is_float type_float = true
is_float _ = false

module _ (float_test : CompOp → Bytes → Bytes → Bool) where
  -- `eval_condition` of execution/executor_seq_scan.h, with the column that the caller has found.
  unfoldable pub eval_condition : ColMeta → Bytes → CompOp → Value → Bool
  eval_condition col lhs op rhs = elim col.col_type [
    | type_int ↦ test_op op (compare_ℤ (int32 lhs) (bigint_val rhs))
    | type_bigint ↦ test_op op (compare_ℤ (int64 lhs) (bigint_val rhs))
    | type_datetime ↦ test_op op (compare_ℤ (int64 lhs) (bigint_val rhs))
    | type_float ↦ float_test op lhs (float_val rhs)
    | type_string ↦ test_op op (compare_str (c_string col.len lhs) rhs.str_val)
  ]

  -- `eval_binary`: both sides are read with the type and the length of the left column.
  unfoldable pub eval_binary : ColMeta → Bytes → Bytes → CompOp → Bool
  eval_binary col lhs rhs op = elim col.col_type [
    | type_int ↦ test_op op (compare_ℤ (int32 lhs) (int32 rhs))
    | type_bigint ↦ test_op op (compare_ℤ (int64 lhs) (int64 rhs))
    | type_datetime ↦ test_op op (compare_ℤ (int64 lhs) (int64 rhs))
    | type_float ↦ float_test op lhs rhs
    | type_string ↦ test_op op (compare_str (c_string col.len lhs) (c_string col.len rhs))
  ]

  -- One round of `eval_conds`: a condition on a column that is not there holds.
  unfoldable pub eval_cond : List ColMeta → Bytes → Condition → Option Bool
  eval_cond cols row cond = elim (find_col cols cond.lhs_col) [
    | none ↦ some true
    | some col ↦
        if cond.is_rhs_val
        then some (eval_condition col (at_col row col) cond.op cond.rhs_val)
        else elim (find_col cols cond.rhs_col) [
          | none ↦ none
          | some r_col ↦ some (eval_binary col (at_col row col) (at_col row r_col) cond.op)
        ]
  ]

  unfoldable pub eval_conds : List Condition → List ColMeta → Bytes → Option Bool
  eval_conds [] cols row = some true
  eval_conds (cond ∷ conds) cols row = elim (eval_cond cols row cond) [
    | none ↦ none
    | some false ↦ some false
    | some true ↦ eval_conds conds cols row
  ]

  -- `eval_rhs_val` of execution/executor_nestedloop_join.h.
  unfoldable pub eval_rhs_val : Bytes → ColMeta → CompOp → Value → Bool
  eval_rhs_val lhs col op rhs = eval_condition col lhs op rhs

  module _ (float_of : ℤ → Bytes) where
    unfoldable pub col_to_int64 : Bytes → ColType → ℤ
    col_to_int64 src type_int = int32 src
    col_to_int64 src _ = int64 src

    unfoldable pub col_to_float : Bytes → ColType → Bytes
    col_to_float src type_int = float_of (int32 src)
    col_to_float src type_bigint = float_of (int64 src)
    col_to_float src type_datetime = float_of (int64 src)
    col_to_float src _ = src

    unfoldable pub compare_typed : Bytes → ColMeta → Bytes → ColMeta → CompOp → Bool
    compare_typed a ca b cb op =
        if is_string ca.col_type || is_string cb.col_type
        then test_op op (compare_str (c_string ca.len a) (c_string cb.len b))
        else if is_float ca.col_type || is_float cb.col_type
        then float_test op (col_to_float a ca.col_type) (col_to_float b cb.col_type)
        else test_op op (compare_ℤ (col_to_int64 a ca.col_type) (col_to_int64 b cb.col_type))

    -- A column of the left row, or else of the right one, with its bytes.
    unfoldable pub side_val :
        List ColMeta → List ColMeta → Bytes → Bytes → TabCol → Option (ColMeta × Bytes)
    side_val left_cols right_cols left right target = elim (find_col left_cols target) [
      | some col ↦ some (col, at_col left col)
      | none ↦ elim (find_col right_cols target) [
        | some col ↦ some (col, at_col right col)
        | none ↦ none
      ]
    ]

    -- One round of `check_left_row_with_right_data`: a column that is nowhere refuses the pair.
    unfoldable pub check_cond : List ColMeta → List ColMeta → Bytes → Bytes → Condition → Bool
    check_cond left_cols right_cols left right cond =
        elim (side_val left_cols right_cols left right cond.lhs_col) [
          | none ↦ false
          | some (lhs_col, lhs) ↦
              if cond.is_rhs_val
              then eval_rhs_val lhs lhs_col cond.op cond.rhs_val
              else elim (side_val left_cols right_cols left right cond.rhs_col) [
                | none ↦ false
                | some (rhs_col, rhs) ↦ compare_typed lhs lhs_col rhs rhs_col cond.op
              ]
        ]

    unfoldable pub check_conds : List Condition → List ColMeta → List ColMeta → Bytes → Bytes → Bool
    check_conds [] left_cols right_cols left right = true
    check_conds (cond ∷ conds) left_cols right_cols left right =
        check_cond left_cols right_cols left right cond
        && check_conds conds left_cols right_cols left right
