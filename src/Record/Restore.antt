-- ===== src/Record/Restore.antt =====
-- record/rm_file_handle.cpp: `insert_record(rid, buf)`, which recovery and rollback use.
use whu_db_practice.Prelude.{
  ℕ, ◌+◌, ◌≤◌, ◌<◌, ◌≡◌, refl, ap, sym, subst, ◌∙◌, ◌≢◌, inl, inr, true, false, List, [], ◌∷◌,
  Option, arith, ◌==◌, ==_iff, ==_self, Bool-cases, length, contains, take, nat_eq, done, some_inj,
}
use whu_db_practice.Storage.Page.{Bytes}
use whu_db_practice.Record.Bitmap.{is_set}
use whu_db_practice.Record.Pages.{IsPage, is_set-marked, marked-IsPage}
use whu_db_practice.Record.Invariant.{IsValid, Chain, Chain-same, has, set_page-IsValid}
use whu_db_practice.Record.Insert.{write_slot-IsValid, unpinned-IsValid, take_all}
use whu_db_practice.Record.Access.{fetch_page_handle_done, fetched-IsValid, KeepsOthers}
use whu_db_practice.Record.Defs.{
  RmPage, RmFile, Rid, marked, write_slot, mark_slot, fetch_page, unpin_page, set_first_free,
  leave_if_full, insert_record_at,
}

pub record Restored (s : RmFile) (rid : Rid) (buf : Bytes) (s' : RmFile) : Type 0 where
  pub free : List ℕ
  pub valid : IsValid free s'
  pub stored : (has s' rid ≡ true) × ((s'.pages rid.page_no).slots rid.slot_no ≡ buf)
  pub others : KeepsOthers s rid s'

leave_open :
    (p : ℕ) (s : RmFile)
    → (s.pages p).num_records ≢ s.file_hdr.num_records_per_page
    → leave_if_full p s ≡ s
unfolding leave_if_full
leave_open p s ne =
    let e : ((s.pages p).num_records == s.file_hdr.num_records_per_page) ≡ false = ground arith in
    rw (e, leave_if_full) refl

-- A slot is marked on any page of the list.
module _ (free : List ℕ) (s : RmFile) (v : IsValid free s) (p slot : ℕ) (low : 1 ≤ p)
    (high : p < s.file_hdr.num_pages) (lt : slot < s.file_hdr.num_records_per_page)
    (off : is_set (s.pages p).bitmap slot ≡ false) where
  marked_ok :
      IsPage s.file_hdr.num_records_per_page s.file_hdr.bitmap_size (marked (s.pages p) slot)
  marked_ok =
      marked-IsPage s.file_hdr.num_records_per_page s.file_hdr.bitmap_size (s.pages p) slot
        (v.page p low high) lt v.roomy off

  marked_self : (mark_slot p slot s).pages p ≡ marked (s.pages p) slot
  marked_self = ground (arith, ==_self p)

  mark_slot_lem :
      (has (mark_slot p slot s) (record { page_no = p; slot_no = slot }) ≡ true)
      × ((r : Rid)
          → r ≢ record { page_no = p; slot_no = slot }
          → has (mark_slot p slot s) r ≡ has s r)
      × ((q : ℕ) → ((mark_slot p slot s).pages q).slots ≡ (s.pages q).slots)
  mark_slot_lem =
      let bits =
        is_set-marked s.file_hdr.num_records_per_page s.file_hdr.bitmap_size (s.pages p) slot
          (v.page p low high) lt v.roomy in
      (
        ground (arith, ==_self p, bits slot),
        λ r ne. elim (Bool-cases (r.page_no == p)) [
          | inr there ↦ rw there refl
          | inl here ↦
              let e = (==_iff r.page_no p).0 here in
              let other : (r.slot_no == slot) ≡ false = ground arith in
              rw e (ground (arith, ==_self p, bits r.slot_no))
        ],
        λ q. elim (Bool-cases (q == p)) [
          | inr there ↦ rw there refl
          | inl here ↦ let e = (==_iff q p).0 here in rw e (ground (arith, ==_self p))
        ],
      )

  -- The page has room for another record after this one, and stays where it is in the list.
  mark_room-IsValid :
      (s.pages p).num_records ≢ s.file_hdr.num_records_per_page
      → (s.pages p).num_records + 1 ≢ s.file_hdr.num_records_per_page
      → IsValid free (leave_if_full p (mark_slot p slot s))
  unfolding leave_if_full
  mark_room-IsValid short room =
      let open_page : ((marked (s.pages p) slot).num_records == s.file_hdr.num_records_per_page)
          ≡ false =
        ground arith in
      rw (marked_self, leave_if_full, open_page)
        (set_page-IsValid free s v p (marked (s.pages p) slot) low high marked_ok refl
          (λ h. absurd (room h)) (λ h. absurd (short h)))

  -- The page is full with this record: the list starts after it from now on.
  mark_full_lem :
      (s.pages p).num_records + 1 ≡ s.file_hdr.num_records_per_page
      → leave_if_full p (mark_slot p slot s)
        ≡ set_first_free (s.pages p).next_free_page_no (mark_slot p slot s)
  unfolding leave_if_full
  mark_full_lem full =
      let closed : ((marked (s.pages p) slot).num_records == s.file_hdr.num_records_per_page)
          ≡ true =
        ground arith in
      rw (marked_self, leave_if_full, closed) refl

Chain-unique :
    (pages : ℕ → RmPage) (o : Option ℕ) (xs ys : List ℕ)
    → Chain pages o xs
    → Chain pages o ys
    → xs ≡ ys
Chain-unique pages o [] [] c d = refl
Chain-unique pages o [] (y ∷ ys) c d = absurd (ground (arith, c, d.0))
Chain-unique pages o (x ∷ xs) [] c d = absurd (ground (arith, c.0, d))
Chain-unique pages o (x ∷ xs) (y ∷ ys) c d =
    let e = some_inj (sym c.0 ∙ d.0) in
    ap (◌∷◌ x) (
      Chain-unique pages (pages x).next_free_page_no xs ys c.1
        (subst (λ z. Chain pages (pages z).next_free_page_no ys) (sym e) d.1))
    ∙ ap (λ z. z ∷ ys) e

-- If the page that becomes full is not the head of the list, the pages before it are lost.
mark_loses :
    (q p : ℕ) (rest free' : List ℕ) (s : RmFile) (slot : ℕ)
    → IsValid (q ∷ p ∷ rest) s
    → IsValid free' (set_first_free (s.pages p).next_free_page_no (mark_slot p slot s))
    → ⊥
mark_loses q p rest free' s slot v v' =
    let (out_q, _) = v.distinct in
    let (low, high, short) = v.vacant q (ground (arith, ==_self q)) in
    let ne : (q == p) ≡ false = ground arith in
    let pages' = (mark_slot p slot s).pages in
    let after : Chain pages' (s.pages p).next_free_page_no rest =
      Chain-same s.pages pages' (s.pages p).next_free_page_no rest
        (λ r m. elim (Bool-cases (r == p)) [
          | inl here ↦
              let e = (==_iff r p).0 here in
              rw here (ap (λ x. (s.pages x).next_free_page_no) (sym e))
          | inr there ↦ rw there refl
        ])
        v.chain.1.1 in
    let same = Chain-unique pages' (s.pages p).next_free_page_no rest free' after v'.chain in
    let listed = v'.listed q low high (rw ne short) in ground (arith, ap (contains q) same)

module _ (free : List ℕ) (s : RmFile) (rid : Rid) (buf : Bytes) (v : IsValid free s)
    (low : 1 ≤ rid.page_no) (high : rid.page_no < s.file_hdr.num_pages)
    (lt : rid.slot_no < s.file_hdr.num_records_per_page) where
  -- The file with the page pinned and the slot written, before the bitmap is looked at.
  slot_written : RmFile
  slot_written = write_slot rid.page_no rid.slot_no buf (fetch_page rid.page_no s)

  slot_written-IsValid : IsValid free slot_written
  unfolding slot_written
  slot_written-IsValid =
      write_slot-IsValid free (fetch_page rid.page_no s) rid.page_no rid.slot_no buf
        (fetched-IsValid free s rid.page_no v) low high

  -- What the write does to the page of the place, and to the others.
  slot_written_lem :
      ((slot_written.pages rid.page_no).bitmap ≡ (s.pages rid.page_no).bitmap)
      × ((slot_written.pages rid.page_no).num_records ≡ (s.pages rid.page_no).num_records)
      × ((slot_written.pages rid.page_no).slots rid.slot_no ≡ take s.file_hdr.record_size buf)
      × (slot_written.file_hdr ≡ s.file_hdr)
  unfolding slot_written
  slot_written_lem = (
    ground (arith, ==_self rid.page_no),
    ground (arith, ==_self rid.page_no),
    ground (arith, ==_self rid.page_no, ==_self rid.slot_no),
    refl,
  )

  slot_written_others :
      (r : Rid)
      → r ≢ rid
      → (has slot_written r ≡ has s r)
        × ((slot_written.pages r.page_no).slots r.slot_no ≡ (s.pages r.page_no).slots r.slot_no)
  unfolding slot_written
  slot_written_others r ne = elim (Bool-cases (r.page_no == rid.page_no)) [
    | inr there ↦ rw there (refl, refl)
    | inl here ↦
        let e = (==_iff r.page_no rid.page_no).0 here in
        let other : (r.slot_no == rid.slot_no) ≡ false = ground arith in
        (ground (arith, ==_self rid.page_no), ground (arith, ==_self rid.page_no))
  ]

  slot_written_pins : (q : ℕ) → (unpin_page rid.page_no slot_written).pin_count q ≡ s.pin_count q
  unfolding slot_written
  slot_written_pins q = ground (arith, ap s.pin_count)

  -- The call, whichever way its test of the bitmap goes.
  restore_off :
      is_set (s.pages rid.page_no).bitmap rid.slot_no ≡ false
      → insert_record_at rid buf s
        ≡ done tt (
            unpin_page rid.page_no
              (leave_if_full rid.page_no (mark_slot rid.page_no rid.slot_no slot_written)))
  unfolding insert_record_at slot_written
  restore_off off =
      let still : is_set (slot_written.pages rid.page_no).bitmap rid.slot_no ≡ false =
        rw (slot_written_lem.0) off in
      rw (fetch_page_handle_done rid.page_no s low high, insert_record_at, still) refl

  restore_on :
      is_set (s.pages rid.page_no).bitmap rid.slot_no ≡ true
      → insert_record_at rid buf s
        ≡ done tt (unpin_page rid.page_no (leave_if_full rid.page_no slot_written))
  unfolding insert_record_at slot_written
  restore_on on =
      let still : is_set (slot_written.pages rid.page_no).bitmap rid.slot_no ≡ true =
        rw (slot_written_lem.0) on in
      rw (fetch_page_handle_done rid.page_no s low high, insert_record_at, still) refl

-- On a valid file, a place of a page that is not full, and that the record does not fill: the
-- call returns, the record stands at the place, every other record is where it was and as it was,
-- the file is valid again, and the pins are what they were. So it is where a record was there
-- already.
pub insert_record_at-Restored :
    (free : List ℕ) (s : RmFile) (rid : Rid) (buf : Bytes)
    → IsValid free s
    → 1 ≤ rid.page_no
    → rid.page_no < s.file_hdr.num_pages
    → rid.slot_no < s.file_hdr.num_records_per_page
    → length buf ≡ s.file_hdr.record_size
    → (s.pages rid.page_no).num_records ≢ s.file_hdr.num_records_per_page
    → (s.pages rid.page_no).num_records + 1 ≢ s.file_hdr.num_records_per_page
    → (s' : RmFile) × (insert_record_at rid buf s ≡ done tt s') × Restored s rid buf s'
insert_record_at-Restored free s rid buf v low high lt sized short room =
    let p = rid.page_no in
    let s1 = slot_written free s rid buf v low high lt in
    let v1 = slot_written-IsValid free s rid buf v low high lt in
    let (bits, count, bytes, hdr) = slot_written_lem free s rid buf v low high lt in
    let others = slot_written_others free s rid buf v low high lt in
    let pins = slot_written_pins free s rid buf v low high lt in
    let all : take s.file_hdr.record_size buf ≡ buf = rw (← sized) (take_all buf) in
    let short1 : (s1.pages p).num_records ≢ s1.file_hdr.num_records_per_page =
      λ e. short (ground arith) in
    let room1 : (s1.pages p).num_records + 1 ≢ s1.file_hdr.num_records_per_page =
      λ e. room (ground arith) in
    let lt1 : rid.slot_no < s1.file_hdr.num_records_per_page = ground arith in
    let high1 : p < s1.file_hdr.num_pages = ground arith in
    elim (Bool-cases (is_set (s.pages p).bitmap rid.slot_no)) [
      | inl on ↦ (
        unpin_page p s1,
        restore_on free s rid buf v low high lt on
            ∙ ap (λ t. done tt (unpin_page p t)) (leave_open p s1 short1),
        record {
          free = free;
          valid = unpinned-IsValid free s1 p v1;
          stored = (ground arith, bytes ∙ all);
          others = (others, pins);
        },
      )
      | inr off ↦
          let off1 : is_set (s1.pages p).bitmap rid.slot_no ≡ false = rw bits off in
          let s2 = mark_slot p rid.slot_no s1 in
          let (on2, others2, slots2) = mark_slot_lem free s1 v1 p rid.slot_no low high1 lt1 off1 in
          let self = marked_self free s1 v1 p rid.slot_no low high1 lt1 off1 in
          let open2 : (s2.pages p).num_records ≢ s2.file_hdr.num_records_per_page =
            λ e. room1 (sym (ap (λ (x : RmPage). x.num_records) self) ∙ e) in
          let v2 = mark_room-IsValid free s1 v1 p rid.slot_no low high1 lt1 off1 short1 room1 in
          let same = leave_open p s2 open2 in
          (
            unpin_page p s2,
            restore_off free s rid buf v low high lt off ∙ ap (λ t. done tt (unpin_page p t)) same,
            record {
              free = free;
              valid = unpinned-IsValid free s2 p (rw same at v2);
              stored = (on2, ap (λ f. f rid.slot_no) (slots2 p) ∙ (bytes ∙ all));
              others = (
                λ r ne. (
                  others2 r ne ∙ (others r ne).0,
                  ap (λ f. f r.slot_no) (slots2 r.page_no) ∙ (others r ne).1,
                ),
                pins,
              );
            },
          )
    ]

-- If page `p` is the second one on the list of pages with free space, and
-- `insert_record(rid, buf)` fills it with a new record, the file that it leaves is valid with no
-- list: the page before `p`, which has free space, is not reached from `first_free_page_no`.
pub insert_record_at_loses :
    (q p slot : ℕ) (rest : List ℕ) (s : RmFile) (buf : Bytes)
    → IsValid (q ∷ p ∷ rest) s
    → slot < s.file_hdr.num_records_per_page
    → is_set (s.pages p).bitmap slot ≡ false
    → (s.pages p).num_records + 1 ≡ s.file_hdr.num_records_per_page
    → (s' : RmFile) × (insert_record_at (record { page_no = p; slot_no = slot }) buf s ≡ done tt s')
      × ((free' : List ℕ) → IsValid free' s' → ⊥)
insert_record_at_loses q p slot rest s buf v lt off last =
    let rid : Rid = record { page_no = p; slot_no = slot } in
    let free = q ∷ p ∷ rest in
    let (low, high, short) = v.vacant p (ground (arith, ==_self p)) in
    let s1 = slot_written free s rid buf v low high lt in
    let v1 = slot_written-IsValid free s rid buf v low high lt in
    let (bits, count, _, hdr) = slot_written_lem free s rid buf v low high lt in
    let off1 : is_set (s1.pages p).bitmap slot ≡ false = rw bits off in
    let last1 : (s1.pages p).num_records + 1 ≡ s1.file_hdr.num_records_per_page = ground arith in
    let lt1 : slot < s1.file_hdr.num_records_per_page = ground arith in
    let high1 : p < s1.file_hdr.num_pages = ground arith in
    let full = mark_full_lem free s1 v1 p slot low high1 lt1 off1 last1 in
    (
      unpin_page p (leave_if_full p (mark_slot p slot s1)),
      restore_off free s rid buf v low high lt off,
      λ free' v'.
          mark_loses q p rest free' s1 slot v1
            (rw full at (repinned free' (leave_if_full p (mark_slot p slot s1)) p v')),
    )
  where
    repinned :
        (free' : List ℕ) (t : RmFile) (x : ℕ) → IsValid free' (unpin_page x t) → IsValid free' t
    repinned free' t x w = record {
      numbered = w.numbered;
      started = w.started;
      capacity = w.capacity;
      roomy = w.roomy;
      page = w.page;
      chain = w.chain;
      distinct = w.distinct;
      listed = w.listed;
      vacant = w.vacant;
    }
