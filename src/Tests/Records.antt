-- ===== src/Tests/Records.antt =====
-- A data file with three slots of two bytes on a page.
use whu_db_practice.Prelude.{
  ℕ, ◌+◌, ◌<◌, ◌≤◌, ◌*◌, ◌≡◌, refl, Bool, true, false, List, [], ◌∷◌, none, some, arith, done,
  raised, ◌==◌, if◌then◌else◌,
}
use whu_db_practice.Storage.Page.{Bytes, page_size}
use whu_db_practice.Record.Bitmap.{get_bucket, get_bit, is_set}
use whu_db_practice.Record.Pages.{IsPage}
use whu_db_practice.Record.Invariant.{IsValid}
use whu_db_practice.Record.Insert.{Recorded, insert_record-Recorded}
use whu_db_practice.Record.Delete.{Deleted, delete_record-Deleted}
use whu_db_practice.Record.Access.{Updated, update_record-Updated, get_record_lem}
use whu_db_practice.Record.Restore.{Restored, insert_record_at-Restored, insert_record_at_loses}
use whu_db_practice.Record.Manager.{
  new_file_hdr, new_file_hdr_fits, bitmap_offset, open_file, open_file-IsValid,
}
use whu_db_practice.Record.Defs.{
  RmFileHdr, RmPage, RmFile, Rid, insert_record, insert_record_at, delete_record, update_record,
  get_record,
}

abbrev hdr : RmFileHdr
hdr = record {
  record_size = 2;
  num_pages = 2;
  num_records_per_page = 3;
  first_free_page_no = some 1;
  bitmap_size = 1;
}

-- A page with a record in slot 0.
abbrev one_record : RmPage
one_record = record {
  next_free_page_no = none;
  num_records = 1;
  bitmap = 128 ∷ [];
  slots = λ _. 7 ∷ 7 ∷ [];
}

abbrev file : RmFile
file = record { file_hdr = hdr; pages = λ p. one_record; pin_count = λ p. 0; fd2pageno = 2 }

one_record-IsPage : IsPage 3 1 one_record
unfolding is_set get_bucket get_bit
one_record-IsPage = record { sized = refl; bytes = omega arith; counted = refl }

file-IsValid : IsValid (1 ∷ []) file
file-IsValid = record {
  numbered = refl;
  started = omega arith;
  capacity = omega arith;
  roomy = omega arith;
  page = λ p a b. one_record-IsPage;
  chain = (refl, refl);
  distinct = (refl, tt);
  listed = λ p a b c. ground arith;
  vacant = λ p m. ground arith;
}

abbrev first : Rid
first = record { page_no = 1; slot_no = 0 }

abbrev buf : Bytes
buf = 1 ∷ 2 ∷ []

insert_record-Recorded_example :
    (rid : Rid) × (s' : RmFile) × (insert_record buf file ≡ done rid s') × Recorded buf file rid s'
insert_record-Recorded_example = insert_record-Recorded (1 ∷ []) file buf file-IsValid refl

delete_record-Deleted_example :
    (s' : RmFile) × (delete_record first file ≡ done tt s') × Deleted file first s'
delete_record-Deleted_example =
    delete_record-Deleted (1 ∷ []) file first file-IsValid (omega arith) (omega arith) (omega arith)

update_record-Updated_example :
    (s' : RmFile) × (update_record first buf file ≡ done tt s') × Updated file first buf s'
update_record-Updated_example =
    update_record-Updated (1 ∷ []) file first buf file-IsValid (omega arith) (omega arith)
      (omega arith) refl

get_record_lem_example :
    (1 ≤ 1 → 1 < 2 → get_record first file ≡ done (7 ∷ 7 ∷ []) file)
    × ((1 ≤ 1 → 2 ≤ 1) → get_record first file ≡ raised file)
get_record_lem_example = get_record_lem first file

abbrev second : Rid
second = record { page_no = 1; slot_no = 1 }

insert_record_at-Restored_example :
    (s' : RmFile) × (insert_record_at second buf file ≡ done tt s') × Restored file second buf s'
insert_record_at-Restored_example =
    insert_record_at-Restored (1 ∷ []) file second buf file-IsValid (omega arith) (omega arith)
      (omega arith) refl (omega arith) (omega arith)

-- Two pages with free space: the first has one record, the second two.
abbrev two_records : RmPage
two_records = record {
  next_free_page_no = none;
  num_records = 2;
  bitmap = 192 ∷ [];
  slots = λ _. 7 ∷ 7 ∷ [];
}

abbrev two_pages : RmFile
two_pages = record {
  file_hdr = record hdr { num_pages = 3 };
  pages = λ p. if p == 1 then record one_record { next_free_page_no = some 2 } else two_records;
  pin_count = λ p. 0;
  fd2pageno = 3;
}

two_records-IsPage : IsPage 3 1 two_records
unfolding is_set get_bucket get_bit
two_records-IsPage = record { sized = refl; bytes = omega arith; counted = refl }

head-IsPage : IsPage 3 1 (record one_record { next_free_page_no = some 2 })
unfolding is_set get_bucket get_bit
head-IsPage = record { sized = refl; bytes = omega arith; counted = refl }

either-IsPage : (p : ℕ) → IsPage 3 1 (two_pages.pages p)
either-IsPage p = pick (p == 1)
  where
    pick :
        (b : Bool)
        → IsPage 3 1 (if b then record one_record { next_free_page_no = some 2 } else two_records)
    pick true = head-IsPage
    pick false = two_records-IsPage

two_pages-IsValid : IsValid (1 ∷ 2 ∷ []) two_pages
two_pages-IsValid = record {
  numbered = refl;
  started = omega arith;
  capacity = omega arith;
  roomy = omega arith;
  page = λ p a b. either-IsPage p;
  chain = (refl, (refl, refl));
  distinct = (refl, (refl, tt));
  listed = λ p a b c. ground arith;
  vacant = λ p m. ground arith;
}

insert_record_at_loses_example :
    (s' : RmFile) × (insert_record_at (record { page_no = 2; slot_no = 2 }) buf two_pages
      ≡ done tt s')
    × ((free' : List ℕ) → IsValid free' s' → ⊥)
unfolding is_set get_bucket get_bit
insert_record_at_loses_example =
    insert_record_at_loses 1 2 2 [] two_pages buf two_pages-IsValid (omega arith) refl refl

-- The header for records of 100 bytes.
abbrev hundred : RmFileHdr
hundred = record {
  record_size = 100;
  num_pages = 1;
  num_records_per_page = 40;
  first_free_page_no = none;
  bitmap_size = 5;
}

new_file_hdr_fits_example : (1 ≤ 40) × (40 ≤ 8 * 5) × (bitmap_offset + 5 + 40 * 100 ≤ page_size)
unfolding new_file_hdr
new_file_hdr_fits_example = new_file_hdr_fits 100 hundred refl

open_file-IsValid_example : IsValid [] (open_file hundred (λ p. one_record) (λ p. 0))
unfolding new_file_hdr
open_file-IsValid_example = open_file-IsValid 100 hundred (λ p. one_record) (λ p. 0) refl
