-- ===== src/Tests/Trees.antt =====
-- A tree of two leaves under a root, with numbers as keys.
use whu_db_practice.Prelude.{
  ℕ, zero, suc, ◌+◌, ◌<◌, ◌≡◌, ◌⊎◌, refl, true, false, [], ◌∷◌, ◌++◌, none, some, arith, done,
  raised, ◌==◌, if◌then◌else◌, compare, Ordering,
}
use whu_db_practice.Storage.Page.{Bytes}
use whu_db_practice.Record.Defs.{Rid}
use whu_db_practice.Index.Order.{
  IsOrder, IsOrderOn, AreNumbers, ColType, type_int, type_float, type_string, first, ix_compare,
  ix_compare-IsOrder,
}
use whu_db_practice.Index.Header.{
  IxFileHdr, no_page, update_tot_len, IsWordHeader, serialize, deserialize,
}
use whu_db_practice.Index.HeaderBytes.{deserialize-serialize_header}
use whu_db_practice.Index.Node.{
  Node, at_least, is_eq, lower_bound, leaf_lookup, insert, remove, has_key, find_child, child_from,
  value_at,
}
use whu_db_practice.Index.Search.{IsSorted, Splits, lower_bound-Splits}
use whu_db_practice.Index.Insert.{insert_lem}
use whu_db_practice.Index.Remove.{remove_lem}
use whu_db_practice.Index.Tree.{Tree, pure, get_value}
use whu_db_practice.Index.Contents.{IsLeaf, IsInner, IsTree, content, child_lo, child_hi}
use whu_db_practice.Index.Lookup.{get_value-content}
use whu_db_practice.Index.Grow.{split}
use whu_db_practice.Index.Shrink.{merge}
use whu_db_practice.Index.MergeEntries.{merge_loses}
use whu_db_practice.Index.SplitLeaf.{IsSplit, split-IsSplit}

numbers : IsOrder compare
numbers = (λ a b. ground arith, λ a b c h k. ground arith, λ a b c h. ground arith)

abbrev row : ℕ → Rid
row n = record { page_no = 1; slot_no = n }

-- Two keys, `a` and `b`.
abbrev pair : ℕ → ℕ → ℕ → ℕ × Rid
pair a b i = if i == 0 then (a, row a) else (b, row b)

abbrev left_leaf : Node ℕ
left_leaf = record {
  parent = 2;
  num_key = 2;
  is_leaf = true;
  prev_leaf = 1;
  next_leaf = 4;
  slots = pair 10 30;
}

abbrev right_leaf : Node ℕ
right_leaf = record {
  parent = 2;
  num_key = 2;
  is_leaf = true;
  prev_leaf = 3;
  next_leaf = 1;
  slots = pair 50 70;
}

abbrev root : Node ℕ
root = record {
  parent = no_page;
  num_key = 2;
  is_leaf = false;
  prev_leaf = 0;
  next_leaf = 0;
  slots = λ i.
      if i == 0
      then (10, record { page_no = 3; slot_no = 0 })
      else (50, record { page_no = 4; slot_no = 0 });
}

abbrev hdr : IxFileHdr
hdr = record {
  first_free_page_no = no_page;
  num_pages = 5;
  root_page = 2;
  col_num = 1;
  col_types = 0 ∷ [];
  col_lens = 4 ∷ [];
  col_tot_len = 4;
  btree_order = 3;
  keys_size = 16;
  first_leaf = 3;
  last_leaf = 4;
  tot_len = 0;
}

abbrev tree : Tree ℕ
tree = record {
  file_hdr = hdr;
  pages = λ p. if p == 2 then root else if p == 3 then left_leaf else right_leaf;
  pin_count = λ _. 0;
  fd2pageno = 5;
}

pair-IsSorted : (a b : ℕ) → a < b → IsSorted compare (pair a b) 2
pair-IsSorted a b l zero zero h k = absurd (omega arith)
pair-IsSorted a b l zero (suc j) h k = ground arith
pair-IsSorted a b l (suc i) j h k = absurd (omega arith)

left-IsLeaf : IsLeaf compare tree.pages 5 3 none (some 50)
left-IsLeaf = record {
  there = omega arith;
  leaf = refl;
  sorted = pair-IsSorted 10 30 (omega arith);
  lows = λ i h. tt;
  highs = λ i h. ground arith;
}

right-IsLeaf : IsLeaf compare tree.pages 5 4 (some 50) none
right-IsLeaf = record {
  there = omega arith;
  leaf = refl;
  sorted = pair-IsSorted 50 70 (omega arith);
  lows = λ i h. ground arith;
  highs = λ i h. tt;
}

root-IsSorted : IsSorted compare root.slots 2
root-IsSorted zero zero h k = absurd (omega arith)
root-IsSorted zero (suc j) h k = ground arith
root-IsSorted (suc i) j h k = absurd (omega arith)

children :
    (i : ℕ)
    → i < 2
    → IsTree compare tree.pages 5 0
        (root.slots i).1.page_no
        (child_lo compare none root i)
        (child_hi compare none root i)
children zero h = left-IsLeaf
children (suc zero) h = right-IsLeaf
children (suc (suc i)) h = absurd (omega arith)

whole-IsTree : IsTree compare tree.pages 5 1 2 none none
whole-IsTree = (
  record {
    there = omega arith;
    inner = refl;
    some_child = omega arith;
    sorted = root-IsSorted;
    lows = λ i h k. tt;
    highs = λ i h k. tt;
  },
  children,
)

get_value-content_example :
    (pins : ℕ → ℕ) × (get_value compare 2 30 tree
      ≡ done (content compare tree.pages 1 2 30) (record tree { pin_count = pins }))
    × ((q : ℕ) → pins q ≡ 0)
get_value-content_example =
    get_value-content compare numbers 1 2 30 tree refl whole-IsTree (omega arith)

content_30 : content compare tree.pages 1 2 30 ≡ some (row 30)
unfolding content whu_db_practice.Index.Contents.first_of
content_30 = refl

lower_bound-Splits_example :
    Splits (at_least compare 20) left_leaf.slots 2 (lower_bound compare 20 left_leaf)
lower_bound-Splits_example =
    lower_bound-Splits compare numbers 20 left_leaf (pair-IsSorted 10 30 (omega arith))

insert_lem_example :
    ((rid : Rid) × (leaf_lookup compare 20 left_leaf ≡ some rid)
      × (insert compare 20 (row 20) left_leaf ≡ raised left_leaf))
    ⊎ ((node' : Node ℕ) × (leaf_lookup compare 20 left_leaf ≡ none)
        × (insert compare 20 (row 20) left_leaf ≡ done tt node')
        × IsSorted compare node'.slots node'.num_key
        × (node'.num_key ≡ 2 + 1)
        × ((k : ℕ)
            → leaf_lookup compare k node'
              ≡ (if is_eq (compare 20 k) then some (row 20) else leaf_lookup compare k left_leaf)))
insert_lem_example =
    insert_lem compare numbers 20 (row 20) left_leaf (pair-IsSorted 10 30 (omega arith))

remove_lem_example :
    (node' : Node ℕ) × (remove compare 30 left_leaf ≡ done tt node')
    × IsSorted compare node'.slots node'.num_key
    × (node'.num_key
          + (if has_key compare (lower_bound compare 30 left_leaf) 30 left_leaf then 1 else 0)
        ≡ 2)
    × ((k : ℕ)
        → leaf_lookup compare k node'
          ≡ (if is_eq (compare 30 k) then none else leaf_lookup compare k left_leaf))
remove_lem_example = remove_lem compare numbers 30 left_leaf (pair-IsSorted 10 30 (omega arith))

split-IsSplit_example : (t' : Tree ℕ) × (split 0 3 tree ≡ done 5 t') × IsSplit tree t' 3
split-IsSplit_example = split-IsSplit 0 3 tree (omega arith) refl (omega arith) refl

hdr-IsWordHeader : IsWordHeader (update_tot_len hdr)
unfolding update_tot_len
hdr-IsWordHeader = record {
  types_length = refl;
  lens_length = refl;
  head = omega arith;
  types = omega arith;
  lens = omega arith;
  tail = omega arith;
}

deserialize-serialize_header_example :
    (bytes : Bytes) × (serialize (update_tot_len hdr) ≡ some bytes)
    × (deserialize (bytes ++ 0 ∷ []) ≡ some (update_tot_len hdr))
deserialize-serialize_header_example = deserialize-serialize_header hdr (0 ∷ []) hdr-IsWordHeader

ix_compare-IsOrder_example :
    IsOrderOn
      (AreNumbers ((type_float, 4) ∷ (type_string, 8) ∷ []))
      (ix_compare ((type_float, 4) ∷ (type_string, 8) ∷ []))
ix_compare-IsOrder_example = ix_compare-IsOrder ((type_float, 4) ∷ (type_string, 8) ∷ [])

-- -1.5 comes before 0.5.
negative_float :
    ix_compare ((type_float, 4) ∷ []) (0 ∷ 0 ∷ 192 ∷ 191 ∷ []) (0 ∷ 0 ∷ 0 ∷ 63 ∷ []) ≡ Ordering.lt
unfolding ix_compare whu_db_practice.Index.Order.compare_column
    whu_db_practice.Index.Order.compare_float whu_db_practice.Index.Order.float_lt
    whu_db_practice.Index.Order.float_key whu_db_practice.Recovery.Words.read4
negative_float = refl

-- -1 comes before 1, though its first byte is larger.
negative_first :
    ix_compare ((type_int, 4) ∷ []) (255 ∷ 255 ∷ 255 ∷ 255 ∷ []) (1 ∷ 0 ∷ 0 ∷ 0 ∷ []) ≡ Ordering.lt
unfolding ix_compare whu_db_practice.Index.Order.compare_column whu_db_practice.Recovery.Words.read4
negative_first = refl

-- A root with three leaves, of one key each.
abbrev small_leaf : ℕ → ℕ → Node ℕ
small_leaf key next = record {
  parent = 2;
  num_key = 1;
  is_leaf = true;
  prev_leaf = 1;
  next_leaf = next;
  slots = pair key key;
}

abbrev wide_root : Node ℕ
wide_root = record {
  parent = no_page;
  num_key = 3;
  is_leaf = false;
  prev_leaf = 0;
  next_leaf = 0;
  slots = λ i.
      if i == 0
      then (10, record { page_no = 3; slot_no = 0 })
      else if i == 1
      then (50, record { page_no = 4; slot_no = 0 })
      else (90, record { page_no = 5; slot_no = 0 });
}

abbrev wide : Tree ℕ
wide = record {
  file_hdr = hdr;
  pages = λ p.
      if p == 2
      then wide_root
      else if p == 3
      then small_leaf 10 4
      else if p == 4
      then small_leaf 50 5
      else small_leaf 90 1;
  pin_count = λ _. 0;
  fd2pageno = 6;
}

merge_loses_example :
    (t' : Tree ℕ) × (merge (λ _. pure true) 4 5 2 wide ≡ done false t')
    × (find_child 4 (t'.pages 2) ≡ none)
    × (value_at 1 (t'.pages 2) ≡ 5)
unfolding find_child child_from
merge_loses_example =
    merge_loses (λ _. pure true) 4 5 2 wide 1 (omega arith) refl refl refl refl refl
      (λ j h. ground arith) refl refl (omega arith)
