-- ===== src/Record/Defs.antt =====
-- record/rm_defs.h, rm_file_handle.h and rm_file_handle.cpp: a table's data file and its operations.
-- A page of the file is read through `RmPageHandle` as its header, its bitmap and its slots, so a
-- page is modelled by these; the buffer pool is modelled by what it keeps for the file, the
-- content of its pages and their pins, and has a frame for each page that is asked for.
use whu_db_practice.Prelude.{
  ℕ, ◌+◌, ◌-◌, Bool, false, ◌||◌, Option, none, some, ◌==◌, ltb, leb, if◌then◌else◌, update, nat_eq,
  take, replicate, Outcome, done, raised,
}
use whu_db_practice.Storage.Page.{Bytes}
use whu_db_practice.Record.Bitmap.{init, set_bit, reset, is_set, first_bit}

-- `RM_NO_PAGE` (-1) is `none`.
pub record RmFileHdr : Type 0 where
  pub record_size : ℕ
  pub num_pages : ℕ
  pub num_records_per_page : ℕ
  pub first_free_page_no : Option ℕ
  pub bitmap_size : ℕ

-- `RmPageHdr`, with what follows it on the page.
pub record RmPage : Type 0 where
  pub next_free_page_no : Option ℕ
  pub num_records : ℕ
  pub bitmap : Bytes
  pub slots : ℕ → Bytes

pub record Rid : Type 0 where
  pub page_no : ℕ
  pub slot_no : ℕ

-- `fd2pageno` is the number that the next page of the file gets.
pub record RmFile : Type 0 where
  pub file_hdr : RmFileHdr
  pub pages : ℕ → RmPage
  pub pin_count : ℕ → ℕ
  pub fd2pageno : ℕ

-- The calls of the buffer pool.
abbrev pub fetch_page : ℕ → RmFile → RmFile
fetch_page p s = record s { pin_count = update s.pin_count p (s.pin_count p + 1) }

abbrev pub unpin_page : ℕ → RmFile → RmFile
unpin_page p s = record s { pin_count = update s.pin_count p (s.pin_count p - 1) }

-- A page of zeros.
abbrev pub zero_page : RmFileHdr → RmPage
zero_page h = record {
  next_free_page_no = some 0;
  num_records = 0;
  bitmap = replicate h.bitmap_size 0;
  slots = λ _. replicate h.record_size 0;
}

abbrev pub new_page : RmFile → RmFile
new_page s = record s {
  pages = update s.pages s.fd2pageno (zero_page s.file_hdr);
  pin_count = update s.pin_count s.fd2pageno 1;
  fd2pageno = s.fd2pageno + 1;
}

abbrev pub set_page : ℕ → RmPage → RmFile → RmFile
set_page p page s = record s { pages = update s.pages p page }

abbrev pub set_first_free : Option ℕ → RmFile → RmFile
set_first_free o s = record s { file_hdr = record s.file_hdr { first_free_page_no = o } }

-- An invalid page number throws `PageNotExistError`.
unfoldable pub fetch_page_handle : ℕ → RmFile → Outcome RmFile ℕ
fetch_page_handle page_no s =
    if ltb page_no 1 || leb s.file_hdr.num_pages page_no
    then raised s
    else done page_no (fetch_page page_no s)

unfoldable pub create_new_page_handle : RmFile → Outcome RmFile ℕ
create_new_page_handle s =
    let p = s.fd2pageno in
    let s1 = new_page s in
    let page : RmPage = record {
      next_free_page_no = s.file_hdr.first_free_page_no;
      num_records = 0;
      bitmap = init s.file_hdr.bitmap_size (s1.pages p).bitmap;
      slots = (s1.pages p).slots;
    } in
    let s2 = set_page p page s1 in
    done p (record s2 {
      file_hdr = record s.file_hdr {
        first_free_page_no = some p;
        num_pages = s.file_hdr.num_pages + 1;
      };
    })

unfoldable pub create_page_handle : RmFile → Outcome RmFile ℕ
create_page_handle s = elim s.file_hdr.first_free_page_no [
  | none ↦ create_new_page_handle s
  | some p ↦ fetch_page_handle p s
]

-- `memcpy(page_handle.get_slot(slot_no), buf, file_hdr_.record_size)`
abbrev pub written : RmFileHdr → RmPage → ℕ → Bytes → RmPage
written h page slot buf = record page { slots = update page.slots slot (take h.record_size buf) }

-- A slot is marked as used and counted.
abbrev pub marked : RmPage → ℕ → RmPage
marked page slot = record page {
  bitmap = set_bit page.bitmap slot;
  num_records = page.num_records + 1;
}

-- A slot is marked as free and counted off.
abbrev pub cleared : RmPage → ℕ → RmPage
cleared page slot = record page {
  bitmap = reset page.bitmap slot;
  num_records = page.num_records - 1;
}

abbrev pub write_slot : ℕ → ℕ → Bytes → RmFile → RmFile
write_slot p slot buf s = set_page p (written s.file_hdr (s.pages p) slot buf) s

abbrev pub mark_slot : ℕ → ℕ → RmFile → RmFile
mark_slot p slot s = set_page p (marked (s.pages p) slot) s

abbrev pub clear_slot : ℕ → ℕ → RmFile → RmFile
clear_slot p slot s = set_page p (cleared (s.pages p) slot) s

-- A page that has become full leaves the list of pages with free space.
unfoldable pub leave_if_full : ℕ → RmFile → RmFile
leave_if_full p s =
    if (s.pages p).num_records == s.file_hdr.num_records_per_page
    then set_first_free (s.pages p).next_free_page_no s
    else s

-- `insert_record(buf, context)`, on the page with free space. A failed `assert` is `raised` too.
unfoldable pub insert_on : ℕ → Bytes → RmFile → Outcome RmFile Rid
insert_on p buf s =
    let slot_no = first_bit false (s.pages p).bitmap s.file_hdr.num_records_per_page in
    if ltb slot_no s.file_hdr.num_records_per_page
    then done (record { page_no = p; slot_no = slot_no })
        (unpin_page p (leave_if_full p (mark_slot p slot_no (write_slot p slot_no buf s))))
    else raised s

unfoldable pub insert_record : Bytes → RmFile → Outcome RmFile Rid
insert_record buf s = elim (create_page_handle s) [
  | raised s1 ↦ raised s1
  | done p s1 ↦ insert_on p buf s1
]

-- `insert_record(rid, buf)`, at a place that the caller names.
unfoldable pub insert_record_at : Rid → Bytes → RmFile → Outcome RmFile (Unit {0})
insert_record_at rid buf s = elim (fetch_page_handle rid.page_no s) [
  | raised s1 ↦ raised s1
  | done p s1 ↦
      let s2 = write_slot p rid.slot_no buf s1 in
      let s3 = if is_set (s2.pages p).bitmap rid.slot_no then s2 else mark_slot p rid.slot_no s2 in
      done tt (unpin_page p (leave_if_full p s3))
]

unfoldable pub release_page_handle : ℕ → RmFile → RmFile
release_page_handle p s =
    set_first_free (some p)
      (set_page p (record (s.pages p) { next_free_page_no = s.file_hdr.first_free_page_no }) s)

unfoldable pub delete_record : Rid → RmFile → Outcome RmFile (Unit {0})
delete_record rid s = elim (fetch_page_handle rid.page_no s) [
  | raised s1 ↦ raised s1
  | done p s1 ↦
      let was_full = (s1.pages p).num_records == s1.file_hdr.num_records_per_page in
      let s2 = clear_slot p rid.slot_no s1 in
      let s3 = if was_full then release_page_handle p s2 else s2 in
      done tt (unpin_page p (if is_set (s1.pages p).bitmap rid.slot_no then s3 else s1))
]

unfoldable pub update_record : Rid → Bytes → RmFile → Outcome RmFile (Unit {0})
update_record rid buf s = elim (fetch_page_handle rid.page_no s) [
  | raised s1 ↦ raised s1
  | done p s1 ↦ done tt (unpin_page p (write_slot p rid.slot_no buf s1))
]

unfoldable pub get_record : Rid → RmFile → Outcome RmFile Bytes
get_record rid s = elim (fetch_page_handle rid.page_no s) [
  | raised s1 ↦ raised s1
  | done p s1 ↦ done ((s1.pages p).slots rid.slot_no) (unpin_page p s1)
]

-- `is_record` fetches the page and does not unpin it.
unfoldable pub is_record : Rid → RmFile → Outcome RmFile Bool
is_record rid s = elim (fetch_page_handle rid.page_no s) [
  | raised s1 ↦ raised s1
  | done p s1 ↦ done (is_set (s1.pages p).bitmap rid.slot_no) s1
]
