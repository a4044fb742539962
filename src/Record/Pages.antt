-- ===== src/Record/Pages.antt =====
-- record/rm_file_handle.cpp: what an operation does to one page of the file.
use whu_db_practice.Prelude.{
  ℕ, ◌*◌, ◌≤◌, ◌<◌, ◌≡◌, ap, ◌∙◌, true, false, arith, ◌==◌, if◌then◌else◌, length, nat_eq,
}
use whu_db_practice.Record.Bitmap.{is_set, AreBytes}
use whu_db_practice.Record.BitLaws.{
  length-set_bit, length-reset, set_bit-AreBytes, reset-AreBytes, is_set-set_bit, is_set-reset,
}
use whu_db_practice.Record.Search.{count_below, count_below_more}
use whu_db_practice.Record.Defs.{RmPage, marked, cleared}

-- The bitmap has `size` bytes, and the header of the page counts its first `n` bits.
pub record IsPage (n size : ℕ) (page : RmPage) : Type 0 where
  pub sized : length page.bitmap ≡ size
  pub bytes : AreBytes page.bitmap
  pub counted : page.num_records ≡ count_below (is_set page.bitmap) n

module _ (n size : ℕ) (page : RmPage) (slot : ℕ) (v : IsPage n size page) (lt : slot < n)
    (roomy : n ≤ 8 * size) where
  inside : slot < 8 * length page.bitmap
  inside = let e = v.sized in ground arith

  pub is_set-marked :
      (q : ℕ)
      → is_set (marked page slot).bitmap q ≡ (if q == slot then true else is_set page.bitmap q)
  is_set-marked q = is_set-set_bit page.bitmap slot v.bytes q inside

  pub is_set-cleared :
      (q : ℕ)
      → is_set (cleared page slot).bitmap q ≡ (if q == slot then false else is_set page.bitmap q)
  is_set-cleared q = is_set-reset page.bitmap slot v.bytes q inside

  pub marked-IsPage : is_set page.bitmap slot ≡ false → IsPage n size (marked page slot)
  marked-IsPage off = record {
    sized = length-set_bit page.bitmap slot v.bytes ∙ v.sized;
    bytes = set_bit-AreBytes page.bitmap slot v.bytes;
    counted =
        let more =
          count_below_more (is_set page.bitmap) (is_set (marked page slot).bitmap) n slot lt off
            (λ k _. is_set-marked k) in
        omega (arith, v.counted, more);
  }

  pub cleared-IsPage : is_set page.bitmap slot ≡ true → IsPage n size (cleared page slot)
  cleared-IsPage on = record {
    sized = length-reset page.bitmap slot v.bytes ∙ v.sized;
    bytes = reset-AreBytes page.bitmap slot v.bytes;
    counted =
        let off : is_set (cleared page slot).bitmap slot ≡ false =
          ground (arith, is_set-cleared slot) in
        let more =
          count_below_more (is_set (cleared page slot).bitmap) (is_set page.bitmap) n slot lt off
            (λ k _. restored k) in
        omega (arith, v.counted, more);
  }
    where
      restored :
          (k : ℕ)
          → is_set page.bitmap k ≡ (if k == slot then true else is_set (cleared page slot).bitmap k)
      restored k = ground (arith, is_set-cleared k, ap (is_set page.bitmap))
