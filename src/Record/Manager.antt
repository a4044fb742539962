-- ===== src/Record/Manager.antt =====
-- record/rm_manager.h: the header that `create_file` writes, and the file that `open_file` reads.
use whu_db_practice.Prelude.{
  ℕ, ◌+◌, ◌-◌, ◌*◌, ◌/◌, ◌≤◌, ◌≡◌, refl, ◌||◌, [], Option, none, some, arith, ltb, if◌then◌else◌,
  inl, inr, Bool-cases, some_inj,
}
use native.Mathlib.Nat.{div-mul-le_self, le-div_iff_mul-le}
use whu_db_practice.Storage.Page.{page_size}
use whu_db_practice.Record.Invariant.{IsValid}
use whu_db_practice.Record.Defs.{RmFileHdr, RmPage, RmFile}

-- `sizeof(RmFileHdr)`, five `int`s, and the bytes of a page before its bitmap: the log sequence
-- number and `RmPageHdr`.
abbrev pub file_hdr_size : ℕ
file_hdr_size = 20

abbrev pub bitmap_offset : ℕ
bitmap_offset = 12

-- The header of a new file; a record size out of range throws `InvalidRecordSizeError`.
unfoldable pub new_file_hdr : ℕ → Option RmFileHdr
new_file_hdr record_size =
    if ltb record_size 1 || ltb 512 record_size
    then none
    else let n = (8 * (page_size - 1 - file_hdr_size) + 1) / (1 + record_size * 8) in
      some (record {
        record_size = record_size;
        num_pages = 1;
        num_records_per_page = n;
        first_free_page_no = none;
        bitmap_size = (n + 8 - 1) / 8;
      })

-- The constructor of `RmFileHandle`: the header is read, and new pages are numbered after it.
unfoldable pub open_file : RmFileHdr → (ℕ → RmPage) → (ℕ → ℕ) → RmFile
open_file h pages pins = record {
  file_hdr = h;
  pages = pages;
  pin_count = pins;
  fd2pageno = h.num_pages;
}

spread : (n s : ℕ) → n * (1 + s * 8) ≡ n + 8 * (n * s)
spread n s = grind arith

room_lem :
    (s n : ℕ)
    → s ≤ 512
    → n ≡ 32601 / (1 + s * 8)
    → (1 ≤ n) × (bitmap_offset + (n + 8 - 1) / 8 + n * s ≤ page_size)
room_lem s n small e =
    let most : n * (1 + s * 8) ≤ 32601 = rw e (div-mul-le_self 32601 (1 + s * 8)) in
    let one : 1 ≤ 32601 / (1 + s * 8) = (le-div_iff_mul-le (omega arith)).1 (omega arith) in
    let flat : n + 8 * (n * s) ≤ 32601 = rw (spread n s) at most in (omega arith, omega arith)

-- For every record size that is accepted, a page has room for at least one record, its bitmap has
-- a bit for each slot, and header, bitmap and slots fit into a page.
pub new_file_hdr_fits :
    (record_size : ℕ) (h : RmFileHdr)
    → new_file_hdr record_size ≡ some h
    → (1 ≤ h.num_records_per_page)
      × (h.num_records_per_page ≤ 8 * h.bitmap_size)
      × (bitmap_offset + h.bitmap_size + h.num_records_per_page * h.record_size ≤ page_size)
unfolding new_file_hdr
new_file_hdr_fits record_size h e = elim (Bool-cases (ltb record_size 1 || ltb 512 record_size)) [
  | inl bad ↦ absurd (ground arith)
  | inr good ↦
      let (one, fits) = room_lem record_size (32601 / (1 + record_size * 8)) (ground arith) refl in
      rw (← some_inj (rw good at e)) (one, omega arith, fits)
]

new_file_hdr_empty :
    (record_size : ℕ) (h : RmFileHdr)
    → new_file_hdr record_size ≡ some h
    → (h.num_pages ≡ 1) × (h.first_free_page_no ≡ none)
unfolding new_file_hdr
new_file_hdr_empty record_size h e = (ground arith, ground arith)

-- The file that is opened on a new header is valid, with no page in its list.
pub open_file-IsValid :
    (record_size : ℕ) (h : RmFileHdr) (pages : ℕ → RmPage) (pins : ℕ → ℕ)
    → new_file_hdr record_size ≡ some h
    → IsValid [] (open_file h pages pins)
unfolding open_file new_file_hdr
open_file-IsValid record_size h pages pins e =
    let (one, bits, fits) = new_file_hdr_fits record_size h e in
    let (pages_one, no_free) = new_file_hdr_empty record_size h e in
    record {
      numbered = refl;
      started = omega arith;
      capacity = omega arith;
      roomy = bits;
      page = λ p a b. absurd (omega arith);
      chain = no_free;
      distinct = tt;
      listed = λ p a b c. absurd (omega arith);
      vacant = λ p m. cc;
    }
