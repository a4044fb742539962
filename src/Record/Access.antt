-- ===== src/Record/Access.antt =====
-- record/rm_file_handle.cpp: `update_record` and `get_record`.
use whu_db_practice.Prelude.{
  ℕ, ◌≤◌, ◌<◌, ◌≡◌, refl, ap, ◌≢◌, inl, inr, true, false, ◌||◌, List, arith, ◌==◌, ==_iff, ==_self,
  ltb, leb, Bool-cases, length, take, nat_eq, done, raised, fun_ext,
}
use whu_db_practice.Storage.Page.{Bytes}
use whu_db_practice.Record.Invariant.{IsValid, has}
use whu_db_practice.Record.Insert.{write_slot-IsValid, unpinned-IsValid, take_all}
use whu_db_practice.Record.Defs.{
  RmFile, Rid, write_slot, fetch_page, unpin_page, fetch_page_handle, update_record, get_record,
}

-- A page of the file is found, and pinned.
pub fetch_page_handle_done :
    (p : ℕ) (s : RmFile)
    → 1 ≤ p
    → p < s.file_hdr.num_pages
    → fetch_page_handle p s ≡ done p (fetch_page p s)
unfolding fetch_page_handle
fetch_page_handle_done p s low high = ground arith

pub fetched-IsValid :
    (free : List ℕ) (s : RmFile) (p : ℕ) → IsValid free s → IsValid free (fetch_page p s)
fetched-IsValid free s p v = record {
  numbered = v.numbered;
  started = v.started;
  capacity = v.capacity;
  roomy = v.roomy;
  page = v.page;
  chain = v.chain;
  distinct = v.distinct;
  listed = v.listed;
  vacant = v.vacant;
}

-- The records but one stay as they are, and so do the pins.
abbrev pub KeepsOthers : RmFile → Rid → RmFile → Type 0
KeepsOthers s rid s' =
    ((r : Rid)
      → r ≢ rid
      → (has s' r ≡ has s r)
        × ((s'.pages r.page_no).slots r.slot_no ≡ (s.pages r.page_no).slots r.slot_no))
    × ((q : ℕ) → s'.pin_count q ≡ s.pin_count q)

pub record Updated (s : RmFile) (rid : Rid) (buf : Bytes) (s' : RmFile) : Type 0 where
  pub free : List ℕ
  pub valid : IsValid free s'
  pub same_place : has s' rid ≡ has s rid
  pub stored : (s'.pages rid.page_no).slots rid.slot_no ≡ buf
  pub others : KeepsOthers s rid s'

-- On a valid file `update_record` returns for each slot of a page of the file, for a record of the file's
-- size: the place holds the new bytes, and there is a record if there was one; every other record
-- is where it was and as it was, the file is valid again, and the pins are what they were.
pub update_record-Updated :
    (free : List ℕ) (s : RmFile) (rid : Rid) (buf : Bytes)
    → IsValid free s
    → 1 ≤ rid.page_no
    → rid.page_no < s.file_hdr.num_pages
    → rid.slot_no < s.file_hdr.num_records_per_page
    → length buf ≡ s.file_hdr.record_size
    → (s' : RmFile) × (update_record rid buf s ≡ done tt s') × Updated s rid buf s'
unfolding update_record
update_record-Updated free s rid buf v low high lt sized =
    let p = rid.page_no in
    let s1 = fetch_page p s in
    let s2 = write_slot p rid.slot_no buf s1 in
    let v2 = write_slot-IsValid free s1 p rid.slot_no buf (fetched-IsValid free s p v) low high in
    let all : take s.file_hdr.record_size buf ≡ buf = rw (← sized) (take_all buf) in
    (
      unpin_page p s2,
      rw (fetch_page_handle_done p s low high, update_record) refl,
      record {
        free = free;
        valid = unpinned-IsValid free s2 p v2;
        same_place = rw (==_self p) refl;
        stored = ground (arith, ==_self p, ==_self rid.slot_no);
        others = (
          λ r ne. elim (Bool-cases (r.page_no == p)) [
            | inr there ↦ rw there (refl, refl)
            | inl here ↦
                let e = (==_iff r.page_no p).0 here in
                let other : (r.slot_no == rid.slot_no) ≡ false = ground arith in
                (ground (arith, ==_self p), ground (arith, ==_self p))
          ],
          λ q. ground (arith, ap s.pin_count),
        );
      },
    )

-- `get_record` returns the bytes at a place of a page of the file, whether a record is there or
-- not, and leaves the file and its pins as they were; a page number that is not one of the file's
-- pages throws, and changes nothing.
pub get_record_lem :
    (rid : Rid) (s : RmFile)
    → (1 ≤ rid.page_no
        → rid.page_no < s.file_hdr.num_pages
        → get_record rid s ≡ done ((s.pages rid.page_no).slots rid.slot_no) s)
      × ((1 ≤ rid.page_no → s.file_hdr.num_pages ≤ rid.page_no) → get_record rid s ≡ raised s)
unfolding get_record fetch_page_handle
get_record_lem rid s = (
  λ low high.
      rw (fetch_page_handle_done rid.page_no s low high, get_record)
        (ap (λ pins. done ((s.pages rid.page_no).slots rid.slot_no) (record s { pin_count = pins }))
          (fun_ext (λ q. ground (arith, ap s.pin_count)))),
  λ out.
      let refused : (ltb rid.page_no 1 || leb s.file_hdr.num_pages rid.page_no) ≡ true =
        ground (arith, out) in
      rw (refused, get_record, fetch_page_handle) refl,
)
