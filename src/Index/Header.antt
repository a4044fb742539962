-- ===== src/Index/Header.antt =====
-- index/ix_defs.h: `IxFileHdr`, the first page of an index file, and its bytes. An `int` is its
-- 32-bit pattern; a column type is the number of its enumerator.
use whu_db_practice.Prelude.{
  ℕ, zero, suc, ◌+◌, ◌*◌, ◌<◌, ◌≡◌, List, [], ◌∷◌, ◌++◌, Option, none, some, ◌==◌, if◌then◌else◌,
  length, drop, All,
}
use whu_db_practice.Storage.Page.{Bytes}
use whu_db_practice.Recovery.Words.{two32, le4, read4}

-- `IX_NO_PAGE` and `INVALID_PAGE_ID`, -1.
abbrev pub no_page : ℕ
no_page = 4294967295

abbrev pub leaf_header_page : ℕ
leaf_header_page = 1

pub record IxFileHdr : Type 0 where
  pub first_free_page_no : ℕ
  pub num_pages : ℕ
  pub root_page : ℕ
  pub col_num : ℕ
  pub col_types : List ℕ
  pub col_lens : List ℕ
  pub col_tot_len : ℕ
  pub btree_order : ℕ
  pub keys_size : ℕ
  pub first_leaf : ℕ
  pub last_leaf : ℕ
  pub tot_len : ℕ

unfoldable pub update_tot_len : IxFileHdr → IxFileHdr
update_tot_len h = record h { tot_len = 4 * 4 + 4 * 6 + (4 * h.col_num + 4 * h.col_num) }

-- A loop of `serialize`.
unfoldable pub put_words : List ℕ → Bytes
put_words [] = []
put_words (w ∷ ws) = le4 w ++ put_words ws

-- The words before the columns, and those after them.
unfoldable pub serialize_head : IxFileHdr → Bytes
serialize_head h =
    put_words (h.tot_len ∷ h.first_free_page_no ∷ h.num_pages ∷ h.root_page ∷ h.col_num ∷ [])

unfoldable pub serialize_tail : IxFileHdr → Bytes
serialize_tail h =
    put_words (h.col_tot_len ∷ h.btree_order ∷ h.keys_size ∷ h.first_leaf ∷ h.last_leaf ∷ [])

-- The last `assert` of the source compares the length.
unfoldable pub serialize : IxFileHdr → Option Bytes
serialize h =
    let bytes =
      serialize_head h ++ (put_words h.col_types ++ (put_words h.col_lens ++ serialize_tail h)) in
    if length bytes == h.tot_len then some bytes else none

-- A loop of `deserialize`.
unfoldable pub get_words : ℕ → Bytes → List ℕ
get_words zero src = []
get_words (suc n) src = read4 src ∷ get_words n (drop 4 src)

unfoldable pub deserialize : Bytes → Option IxFileHdr
deserialize src =
    let col_num = read4 (drop 16 src) in
    let off = 20 + 4 * col_num in
    let off' = off + 4 * col_num in
    let h : IxFileHdr = record {
      tot_len = read4 src;
      first_free_page_no = read4 (drop 4 src);
      num_pages = read4 (drop 8 src);
      root_page = read4 (drop 12 src);
      col_num = col_num;
      col_types = get_words col_num (drop 20 src);
      col_lens = get_words col_num (drop off src);
      col_tot_len = read4 (drop off' src);
      btree_order = read4 (drop (off' + 4) src);
      keys_size = read4 (drop (off' + 8) src);
      first_leaf = read4 (drop (off' + 12) src);
      last_leaf = read4 (drop (off' + 16) src);
    } in
    if off' + 20 == h.tot_len then some h else none

abbrev pub IsWord : ℕ → Type 0
IsWord w = w < two32

-- The vectors have a length for each column, and all numbers fit into their words.
pub record IsWordHeader (h : IxFileHdr) : Type 0 where
  pub types_length : length h.col_types ≡ h.col_num
  pub lens_length : length h.col_lens ≡ h.col_num
  pub head :
      All IsWord (h.tot_len ∷ h.first_free_page_no ∷ h.num_pages ∷ h.root_page ∷ h.col_num ∷ [])
  pub types : All IsWord h.col_types
  pub lens : All IsWord h.col_lens
  pub tail :
      All IsWord (h.col_tot_len ∷ h.btree_order ∷ h.keys_size ∷ h.first_leaf ∷ h.last_leaf ∷ [])
