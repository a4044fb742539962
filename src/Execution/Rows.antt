-- ===== src/Execution/Rows.antt =====
-- common/common.h and system/sm_meta.h: columns, values and conditions, and what the executors read
-- from a row. The union of `Value` is its 64-bit pattern, of which a float is the first four bytes.
use whu_db_practice.Prelude.{
  ℕ, zero, suc, Bool, true, false, ◌&&◌, not, List, [], ◌∷◌, ◌==◌, if◌then◌else◌, compare, Ordering,
  Option, none, some, take, drop, ℤ,
}
use whu_db_practice.Storage.Page.{Bytes}
use whu_db_practice.Recovery.Words.{read4, read8, le8}
use whu_db_practice.Recovery.Redo.{bytes_equal}
use whu_db_practice.Index.Order.{ColType, signed}

pub record TabCol : Type 0 where
  pub tab_name : Bytes
  pub col_name : Bytes

pub record ColMeta : Type 0 where
  pub tab_name : Bytes
  pub name : Bytes
  pub col_type : ColType
  pub len : ℕ
  pub offset : ℕ

pub record Value : Type 0 where
  pub val_type : ColType
  pub word : ℕ
  pub str_val : Bytes

pub data CompOp : Type 0 where
  op_eq : CompOp
  op_ne : CompOp
  op_lt : CompOp
  op_gt : CompOp
  op_le : CompOp
  op_ge : CompOp

pub record Condition : Type 0 where
  pub lhs_col : TabCol
  pub op : CompOp
  pub is_rhs_val : Bool
  pub rhs_col : TabCol
  pub rhs_val : Value

abbrev pub int32 : Bytes → ℤ
int32 src = signed 2147483648 (read4 src)

abbrev pub int64 : Bytes → ℤ
int64 src = signed 9223372036854775808 (read8 src)

abbrev pub bigint_val : Value → ℤ
bigint_val v = signed 9223372036854775808 v.word

abbrev pub float_val : Value → Bytes
float_val v = take 4 (le8 v.word)

-- `std::string s(src, len); s.resize(strlen(s.c_str()))`
unfoldable pub c_string : ℕ → Bytes → Bytes
c_string zero src = []
c_string (suc len) [] = []
c_string (suc len) (c ∷ src) = if c == 0 then [] else c ∷ c_string len src

-- The order of `std::string`.
unfoldable pub compare_str : Bytes → Bytes → Ordering
compare_str [] [] = Ordering.eq
compare_str [] (b ∷ bs) = Ordering.lt
compare_str (a ∷ as_) [] = Ordering.gt
compare_str (a ∷ as_) (b ∷ bs) = elim (compare a b) [ Ordering.eq ↦ compare_str as_ bs | o ↦ o ]

abbrev pub is_lt : Ordering → Bool
is_lt Ordering.lt = true
is_lt _ = false

abbrev pub is_eq : Ordering → Bool
is_eq Ordering.eq = true
is_eq _ = false

abbrev pub is_gt : Ordering → Bool
is_gt Ordering.gt = true
is_gt _ = false

-- The `switch` over the operators.
unfoldable pub test_op : CompOp → Ordering → Bool
test_op op_eq o = is_eq o
test_op op_ne o = not (is_eq o)
test_op op_lt o = is_lt o
test_op op_gt o = is_gt o
test_op op_le o = not (is_gt o)
test_op op_ge o = not (is_lt o)

unfoldable pub same_col : TabCol → ColMeta → Bool
same_col target col =
    bytes_equal col.tab_name target.tab_name && bytes_equal col.name target.col_name

-- The first column of that name.
unfoldable pub find_col : List ColMeta → TabCol → Option ColMeta
find_col [] target = none
find_col (c ∷ cols) target = if same_col target c then some c else find_col cols target

abbrev pub at_col : Bytes → ColMeta → Bytes
at_col row col = drop col.offset row
