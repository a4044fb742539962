-- ===== src/Record/Insert.antt =====
-- record/rm_file_handle.cpp: `insert_record(buf, context)`.
use whu_db_practice.Prelude.{
  ℕ, ◌-◌, ◌≤◌, ◌<◌, ◌≡◌, refl, ap, sym, ◌∙◌, ◌≢◌, inl, inr, true, false, List, [], ◌∷◌, arith, ◌==◌,
  ==_iff, ==_self, ltb, if◌then◌else◌, Bool-cases, length, take, update, nat_eq, done, ltb→le,
}
use whu_db_practice.Storage.Page.{Bytes}
use whu_db_practice.Record.Bitmap.{is_set, first_bit}
use whu_db_practice.Record.Search.{count_below_full, first_bit-Found}
use whu_db_practice.Record.Pages.{is_set-marked, marked-IsPage}
use whu_db_practice.Record.Invariant.{IsValid, has, set_page-IsValid, fill-IsValid}
use whu_db_practice.Record.Create.{create_page_handle-Created}
use whu_db_practice.Record.Defs.{
  RmFile, Rid, written, marked, write_slot, mark_slot, unpin_page, leave_if_full, insert_on,
  insert_record,
}

pub take_all : (xs : Bytes) → take (length xs) xs ≡ xs
take_all [] = refl
take_all (x ∷ xs) = ap (◌∷◌ x) (take_all xs)

-- Only the head of the list changes in a page that has become full.
pub leave_if_full_frame :
    (p : ℕ) (s : RmFile)
    → ((leave_if_full p s).pages ≡ s.pages)
      × ((leave_if_full p s).pin_count ≡ s.pin_count)
      × ((leave_if_full p s).file_hdr.num_pages ≡ s.file_hdr.num_pages)
unfolding leave_if_full
leave_if_full_frame p s = ground arith

-- A slot is written and the file stays valid: no bit and no count changes.
pub write_slot-IsValid :
    (free : List ℕ) (s : RmFile) (p slot : ℕ) (buf : Bytes)
    → IsValid free s
    → 1 ≤ p
    → p < s.file_hdr.num_pages
    → IsValid free (write_slot p slot buf s)
write_slot-IsValid free s p slot buf v low high =
    let ok = v.page p low high in
    set_page-IsValid free s v p (written s.file_hdr (s.pages p) slot buf) low high
      (record { sized = ok.sized; bytes = ok.bytes; counted = ok.counted }) refl (λ h. h) (λ h. h)

module _ (p : ℕ) (rest : List ℕ) (s : RmFile) (v : IsValid (p ∷ rest) s) where
  head_vacant :
      (1 ≤ p)
      × (p < s.file_hdr.num_pages)
      × ((s.pages p).num_records ≢ s.file_hdr.num_records_per_page)
  head_vacant = v.vacant p (ground (arith, ==_self p))

  -- The page at the head has a free slot, and the search finds it.
  free_slot :
      let slot = first_bit false (s.pages p).bitmap s.file_hdr.num_records_per_page in
      (slot < s.file_hdr.num_records_per_page) × (is_set (s.pages p).bitmap slot ≡ false)
  free_slot =
      let n = s.file_hdr.num_records_per_page in
      let bm = (s.pages p).bitmap in
      let (low, high, short) = head_vacant in
      let found = first_bit-Found false bm n in
      elim (Bool-cases (ltb (first_bit false bm n) n)) [
        | inl lt ↦ (ground arith, found.hit (ground arith))
        | inr ge ↦
            let full = count_below_full (is_set bm) n (λ k k_n.
              found.first k (omega arith) (omega (arith, ltb→le (first_bit false bm n) n ge))) in
            absurd (short ((v.page p low high).counted ∙ full))
      ]

  mark_slot-IsValid :
      (slot : ℕ)
      → slot < s.file_hdr.num_records_per_page
      → is_set (s.pages p).bitmap slot ≡ false
      → (free : List ℕ) × IsValid free (leave_if_full p (mark_slot p slot s))
  unfolding leave_if_full
  mark_slot-IsValid slot lt off =
      let (low, high, short) = head_vacant in
      let n = s.file_hdr.num_records_per_page in
      let page = marked (s.pages p) slot in
      let ok =
        marked-IsPage n s.file_hdr.bitmap_size (s.pages p) slot (v.page p low high) lt v.roomy
          off in
      let self : update s.pages p page p ≡ page = ground (arith, ==_self p) in
      elim (Bool-cases (page.num_records == n)) [
        | inl full ↦
            rw (leave_if_full, self, full)
              (rest, fill-IsValid (p ∷ rest) s v p page low high ok rest refl (ground arith))
        | inr room ↦
            rw (leave_if_full, self, room)
              (
                p ∷ rest,
                set_page-IsValid (p ∷ rest) s v p page low high ok refl (λ h. absurd (ground arith))
                    (λ h. absurd (short h)),
              )
      ]

pub unpinned-IsValid :
    (free : List ℕ) (s : RmFile) (p : ℕ) → IsValid free s → IsValid free (unpin_page p s)
unpinned-IsValid free s p v = record {
  numbered = v.numbered;
  started = v.started;
  capacity = v.capacity;
  roomy = v.roomy;
  page = v.page;
  chain = v.chain;
  distinct = v.distinct;
  listed = v.listed;
  vacant = v.vacant;
}

-- What an insertion does: the record stands at a place that was free, every other record stays,
-- and the pool's pins are what they were.
pub record Inserted (buf : Bytes) (s : RmFile) (rid : Rid) (s' : RmFile) : Type 0 where
  pub free : List ℕ
  pub valid : IsValid free s'
  pub fresh : has s rid ≡ false
  pub stored : (has s' rid ≡ true) × ((s'.pages rid.page_no).slots rid.slot_no ≡ buf)
  pub kept :
      (r : Rid)
      → r ≢ rid
      → (has s' r ≡ has s r)
        × (has s r ≡ true
            → (s'.pages r.page_no).slots r.slot_no ≡ (s.pages r.page_no).slots r.slot_no)
  pub pins :
      (q : ℕ) → s'.pin_count q ≡ (if q == rid.page_no then s.pin_count q - 1 else s.pin_count q)

module _ (p : ℕ) (rest : List ℕ) (s : RmFile) (v : IsValid (p ∷ rest) s) (buf : Bytes)
    (sized : length buf ≡ s.file_hdr.record_size) where
  insert_on-Inserted :
      (rid : Rid) × (s' : RmFile) × (insert_on p buf s ≡ done rid s')
      × Inserted buf s rid s'
      × (rid.page_no ≡ p)
  unfolding insert_on
  insert_on-Inserted =
      let n = s.file_hdr.num_records_per_page in
      let slot = first_bit false (s.pages p).bitmap n in
      let rid : Rid = record { page_no = p; slot_no = slot } in
      let (low, high, short) = head_vacant p rest s v in
      let (lt, off) = free_slot p rest s v in
      let found : ltb slot n ≡ true = ground arith in
      let s1 = write_slot p slot buf s in
      let self : s1.pages p ≡ written s.file_hdr (s.pages p) slot buf = ground (arith, ==_self p) in
      let v1 = write_slot-IsValid (p ∷ rest) s p slot buf v low high in
      let off1 : is_set (s1.pages p).bitmap slot ≡ false = rw self off in
      let ok1 = v1.page p low high in
      let s2 = mark_slot p slot s1 in
      let (free, v2) = mark_slot-IsValid p rest s1 v1 slot lt off1 in
      let (pages, pin_count, num_pages) = leave_if_full_frame p s2 in
      let bits = is_set-marked n s.file_hdr.bitmap_size (s1.pages p) slot ok1 lt v.roomy in
      let all : take s.file_hdr.record_size buf ≡ buf = rw (← sized) (take_all buf) in
      (
        rid,
        unpin_page p (leave_if_full p s2),
        rw found refl,
        record {
          free = free;
          valid = unpinned-IsValid free (leave_if_full p s2) p v2;
          fresh = ground arith;
          stored =
              rw (pages, num_pages)
                (ground (arith, ==_self p, bits slot), ground (arith, ==_self p));
          kept = λ r ne.
              rw (pages, num_pages)
                (elim (Bool-cases (r.page_no == p)) [
                  | inr there ↦ rw there (refl, λ h. refl)
                  | inl here ↦
                      let e = (==_iff r.page_no p).0 here in
                      let other : (r.slot_no == slot) ≡ false = ground arith in
                      (ground (arith, bits r.slot_no, ==_self p), λ h. ground (arith, ==_self p))
                ]);
          pins = λ q. rw pin_count (ground (arith, ap s.pin_count));
        },
        refl,
      )

pub record Recorded (buf : Bytes) (s : RmFile) (rid : Rid) (s' : RmFile) : Type 0 where
  pub free : List ℕ
  pub valid : IsValid free s'
  pub fresh : has s rid ≡ false
  pub stored : (has s' rid ≡ true) × ((s'.pages rid.page_no).slots rid.slot_no ≡ buf)
  pub kept :
      (r : Rid)
      → r ≢ rid
      → (has s' r ≡ has s r)
        × (has s r ≡ true
            → (s'.pages r.page_no).slots r.slot_no ≡ (s.pages r.page_no).slots r.slot_no)
  pub pins : (q : ℕ) → q < s.file_hdr.num_pages → s'.pin_count q ≡ s.pin_count q

-- On a valid file `insert_record` always returns, for a record of the file's size: it stands at a
-- place that held no record, every other record is where it was and as it was, the file is valid
-- again, and no page of the file stays pinned.
pub insert_record-Recorded :
    (free : List ℕ) (s : RmFile) (buf : Bytes)
    → IsValid free s
    → length buf ≡ s.file_hdr.record_size
    → (rid : Rid) × (s' : RmFile) × (insert_record buf s ≡ done rid s') × Recorded buf s rid s'
unfolding insert_record
insert_record-Recorded free s buf v sized =
    let (p, s1, returned, created) = create_page_handle-Created free s v in
    let (rid, s', answered, inserted, on_p) =
      insert_on-Inserted p created.rest s1 created.valid buf (sized ∙ sym created.sizes.0) in
    (
      rid,
      s',
      rw (returned, insert_record, answered) refl,
      record {
        free = inserted.free;
        valid = inserted.valid;
        fresh = sym (created.kept rid).0 ∙ inserted.fresh;
        stored = inserted.stored;
        kept = λ r ne.
            let (same, slot) = inserted.kept r ne in
            let (same1, slot1) = created.kept r in (same ∙ same1, λ h. slot (same1 ∙ h) ∙ slot1 h);
        pins = λ q lt. ground (arith, inserted.pins q, created.pins q);
      },
    )
