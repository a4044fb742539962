-- ===== src/Tests/Scans.antt =====
-- A scan of a data file with two pages of three slots, and the same condition on every row.
use whu_db_practice.Prelude.{Bool, true, false, List, [], ◌∷◌, none, some}
use whu_db_practice.Storage.Page.{Bytes}
use whu_db_practice.Record.Defs.{RmFileHdr, RmFile}
use whu_db_practice.Index.Order.{type_string}
use whu_db_practice.Execution.Rows.{ColMeta, CompOp, op_eq, Condition}
use whu_db_practice.Execution.SeqScan.{ScanState}

abbrev hdr : RmFileHdr
hdr = record {
  record_size = 2;
  num_pages = 3;
  num_records_per_page = 3;
  first_free_page_no = some 1;
  bitmap_size = 1;
}

-- Slots 0 and 2 of each page hold a row.
abbrev file : RmFile
file = record {
  file_hdr = hdr;
  pages = λ p. record {
    next_free_page_no = none;
    num_records = 2;
    bitmap = 160 ∷ [];
    slots = λ j. p ∷ j ∷ [];
  };
  pin_count = λ p. 0;
  fd2pageno = 3;
}

abbrev cols : List ColMeta
cols =
    record { tab_name = 116 ∷ []; name = 97 ∷ []; col_type = type_string; len = 1; offset = 0 } ∷ []

-- `t.a = '\x02'`
abbrev conds : List Condition
conds =
    record {
      lhs_col = record { tab_name = 116 ∷ []; col_name = 97 ∷ [] };
      op = op_eq;
      is_rhs_val = true;
      rhs_col = record { tab_name = []; col_name = [] };
      rhs_val = record { val_type = type_string; word = 0; str_val = 2 ∷ [] };
    }
    ∷ []

abbrev no_float : CompOp → Bytes → Bytes → Bool
no_float op a b = false

abbrev scan_state : ScanState
scan_state = record {
  file = file;
  rid = record { page_no = 0; slot_no = 0 };
  place = record { page_no = 0; slot_no = 0 };
}
