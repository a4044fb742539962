-- ===== src/Record/Delete.antt =====
-- record/rm_file_handle.cpp: `delete_record`.
use whu_db_practice.Prelude.{
  ℕ, ◌≤◌, ◌<◌, ◌≡◌, refl, ap, ◌≢◌, inl, inr, true, false, List, ◌∷◌, some, arith, ◌==◌, ==_iff,
  ==_self, if◌then◌else◌, Bool-cases, update, nat_eq, done,
}
use whu_db_practice.Record.Bitmap.{is_set}
use whu_db_practice.Record.Search.{count_below-le}
use whu_db_practice.Record.Pages.{is_set-cleared, cleared-IsPage}
use whu_db_practice.Record.Invariant.{IsValid, has, set_page-IsValid, free_up-IsValid}
use whu_db_practice.Record.Insert.{unpinned-IsValid}
use whu_db_practice.Record.Access.{fetch_page_handle_done, fetched-IsValid, KeepsOthers}
use whu_db_practice.Record.Defs.{
  RmPage, RmFile, Rid, cleared, clear_slot, set_page, fetch_page, unpin_page, release_page_handle,
  set_first_free, delete_record,
}

pub record Deleted (s : RmFile) (rid : Rid) (s' : RmFile) : Type 0 where
  pub free : List ℕ
  pub valid : IsValid free s'
  pub gone : has s' rid ≡ false
  pub others : KeepsOthers s rid s'

-- After the slot is cleared: the page goes to the front of the list if it was full.
cleared_file : ℕ → ℕ → RmFile → RmFile
cleared_file p slot s =
    let s2 = clear_slot p slot s in
    if (s.pages p).num_records == s.file_hdr.num_records_per_page
    then release_page_handle p s2
    else s2

module _ (free : List ℕ) (s : RmFile) (v : IsValid free s) (p slot : ℕ) (low : 1 ≤ p)
    (high : p < s.file_hdr.num_pages) (lt : slot < s.file_hdr.num_records_per_page)
    (on : is_set (s.pages p).bitmap slot ≡ true) where
  below : (cleared (s.pages p) slot).num_records ≢ s.file_hdr.num_records_per_page
  below e =
      let v1 =
        cleared-IsPage s.file_hdr.num_records_per_page s.file_hdr.bitmap_size (s.pages p) slot
          (v.page p low high) lt v.roomy on in
      let le = count_below-le (is_set (s.pages p).bitmap) s.file_hdr.num_records_per_page in
      let c = (v.page p low high).counted in let pos = v.capacity in omega arith

  listed_page : RmPage
  listed_page = record (cleared (s.pages p) slot) {
    next_free_page_no = s.file_hdr.first_free_page_no;
  }

  release_page_handle_lem :
      release_page_handle p (clear_slot p slot s)
      ≡ set_first_free (some p) (set_page p listed_page s)
  unfolding release_page_handle listed_page
  release_page_handle_lem = ground (arith, ==_self p)

  cleared_file-IsValid : (free' : List ℕ) × IsValid free' (cleared_file p slot s)
  unfolding cleared_file listed_page
  cleared_file-IsValid =
      let page = cleared (s.pages p) slot in
      let ok =
        cleared-IsPage s.file_hdr.num_records_per_page s.file_hdr.bitmap_size (s.pages p) slot
          (v.page p low high) lt v.roomy on in
      elim (Bool-cases ((s.pages p).num_records == s.file_hdr.num_records_per_page)) [
        | inr open_page ↦
            rw (open_page, cleared_file)
              (
                free,
                set_page-IsValid free s v p page low high ok refl (λ h. absurd (below h))
                    (λ h. absurd (ground arith)),
              )
        | inl full ↦
            rw (full, cleared_file)
              (
                p ∷ free,
                rw release_page_handle_lem (
                    free_up-IsValid free s v p listed_page low high
                      (record { sized = ok.sized; bytes = ok.bytes; counted = ok.counted })
                      (ground arith) below refl),
              )
      ]

  cleared_file_frame :
      ((cleared_file p slot s).file_hdr.num_pages ≡ s.file_hdr.num_pages)
      × ((cleared_file p slot s).pin_count ≡ s.pin_count)
      × ((q : ℕ)
          → (((cleared_file p slot s).pages q).bitmap
              ≡ (update s.pages p (cleared (s.pages p) slot) q).bitmap)
            × (((cleared_file p slot s).pages q).slots ≡ (s.pages q).slots))
  unfolding cleared_file release_page_handle
  cleared_file_frame = (
    ground arith,
    ground arith,
    λ q. elim (Bool-cases (q == p)) [
      | inl here ↦
          let e = (==_iff q p).0 here in rw e (ground (arith, ==_self p), ground (arith, ==_self p))
      | inr there ↦ (ground arith, ground arith)
    ],
  )

-- On a valid file `delete_record` returns for each place of each page: no record is at the place
-- afterwards, every other record is where it was and as it was, the file is valid again, and the
-- pins are what they were.
pub delete_record-Deleted :
    (free : List ℕ) (s : RmFile) (rid : Rid)
    → IsValid free s
    → 1 ≤ rid.page_no
    → rid.page_no < s.file_hdr.num_pages
    → rid.slot_no < s.file_hdr.num_records_per_page
    → (s' : RmFile) × (delete_record rid s ≡ done tt s') × Deleted s rid s'
unfolding delete_record cleared_file
delete_record-Deleted free s rid v low high lt =
    let p = rid.page_no in
    let s1 = fetch_page p s in
    let v1 = fetched-IsValid free s p v in
    let fetched = fetch_page_handle_done p s low high in
    elim (Bool-cases (is_set (s.pages p).bitmap rid.slot_no)) [
      | inr off ↦ (
        unpin_page p s1,
        rw (fetched, delete_record, off) refl,
        record {
          free = free;
          valid = unpinned-IsValid free s1 p v1;
          gone = ground arith;
          others = (λ r ne. (refl, refl), λ q. ground (arith, ap s.pin_count));
        },
      )
      | inl on ↦
          let s2 = cleared_file p rid.slot_no s1 in
          let (free', v2) = cleared_file-IsValid free s1 v1 p rid.slot_no low high lt on in
          let (num_pages, pin_count, pages) =
            cleared_file_frame free s1 v1 p rid.slot_no low high lt on in
          let bits =
            is_set-cleared s.file_hdr.num_records_per_page s.file_hdr.bitmap_size (s.pages p)
              rid.slot_no (v.page p low high) lt v.roomy in
          (
            unpin_page p s2,
            rw (fetched, delete_record, on) refl,
            record {
              free = free';
              valid = unpinned-IsValid free' s2 p v2;
              gone = rw (num_pages, (pages p).0) (ground (arith, ==_self p, bits rid.slot_no));
              others = (
                λ r ne.
                    rw (num_pages, (pages r.page_no).0, (pages r.page_no).1)
                      (
                        elim (Bool-cases (r.page_no == p)) [
                          | inr there ↦ rw there refl
                          | inl here ↦
                              let e = (==_iff r.page_no p).0 here in
                              let other : (r.slot_no == rid.slot_no) ≡ false = ground arith in
                              ground (arith, bits r.slot_no, ==_self p)
                        ],
                        refl,
                      ),
                λ q. rw pin_count (ground (arith, ap s.pin_count)),
              );
            },
          )
    ]
