-- ===== src/Record/Scan.antt =====
-- record/rm_scan.cpp: `RmScan`, which walks over the records of a file in the order of their places.
use whu_db_practice.Prelude.{
  ℕ, zero, suc, ◌+◌, ◌-◌, ◌≤◌, ◌<◌, ◌≡◌, refl, ap, ◌⊎◌, inl, inr, Bool, true, false, arith, ◌==◌,
  ltb, leb, if◌then◌else◌, Bool-cases, nat_eq, Outcome, done, raised, fun_ext,
}
use whu_db_practice.Record.Bitmap.{is_set, next_bit}
use whu_db_practice.Record.Search.{next_bit-Found}
use whu_db_practice.Record.Access.{fetch_page_handle_done}
use whu_db_practice.Record.Invariant.{has}
use whu_db_practice.Record.Defs.{RmFile, Rid, unpin_page, fetch_page_handle}

-- The next used slot of a page from `start` on: the page is fetched and released.
unfoldable pub slot_from : ℕ → ℕ → RmFile → Outcome RmFile ℕ
slot_from page_no start s = elim (fetch_page_handle page_no s) [
  | raised s1 ↦ raised s1
  | done p s1 ↦
      done (next_bit true (s1.pages p).bitmap s1.file_hdr.num_records_per_page start)
        (unpin_page p s1)
]

-- The loop over the pages from `page_no` on, with `rounds` of them left; the end is the place
-- after the last page.
unfoldable pub scan_from : ℕ → ℕ → RmFile → Outcome RmFile Rid
scan_from zero page_no s = done (record { page_no = s.file_hdr.num_pages; slot_no = 0 }) s
scan_from (suc rounds) page_no s = elim (slot_from page_no 0 s) [
  | raised s1 ↦ raised s1
  | done slot s1 ↦
      let rest = scan_from rounds (suc page_no) s1 in
      if ltb slot s1.file_hdr.num_records_per_page
      then done (record { page_no = page_no; slot_no = slot }) s1
      else rest
]

-- The constructor.
unfoldable pub begin : RmFile → Outcome RmFile Rid
begin s = scan_from (s.file_hdr.num_pages - 1) 1 s

unfoldable pub is_end : Rid → RmFile → Bool
is_end rid s = leb s.file_hdr.num_pages rid.page_no

-- `next`; a failed `assert` is `raised`.
unfoldable pub next : Rid → RmFile → Outcome RmFile Rid
next rid s = if is_end rid s then raised s else elim (slot_from rid.page_no (rid.slot_no + 1) s) [
  | raised s1 ↦ raised s1
  | done slot s1 ↦
      if ltb slot s1.file_hdr.num_records_per_page
      then done (record rid { slot_no = slot }) s1
      else scan_from (s1.file_hdr.num_pages - (rid.page_no + 1)) (rid.page_no + 1) s1
]

pub slot_from_lem :
    (p start : ℕ) (s : RmFile)
    → 1 ≤ p
    → p < s.file_hdr.num_pages
    → slot_from p start s
      ≡ done (next_bit true (s.pages p).bitmap s.file_hdr.num_records_per_page start) s
unfolding slot_from
slot_from_lem p start s low high =
    rw (fetch_page_handle_done p s low high, slot_from)
      (ap
        (λ pins.
          done (next_bit true (s.pages p).bitmap s.file_hdr.num_records_per_page start)
            (record s { pin_count = pins }))
        (fun_ext (λ q. ground (arith, ap s.pin_count))))

-- `r` is at slot `j` of page `k` or after it.
abbrev pub AtLeast : ℕ → ℕ → Rid → Type 0
AtLeast k j r = (k < r.page_no) ⊎ ((k ≡ r.page_no) × (j ≤ r.slot_no))

-- `r` is the first place with a record at slot `j` of page `k` or after it, or the end if there is
-- no such place.
pub record IsFirst (s : RmFile) (k j : ℕ) (r : Rid) : Type 0 where
  pub record_or_end :
      ((has s r ≡ true) × (r.slot_no < s.file_hdr.num_records_per_page) × AtLeast k j r)
      ⊎ (r.page_no ≡ s.file_hdr.num_pages)
  pub skipped :
      (q : Rid)
      → has s q ≡ true
      → q.slot_no < s.file_hdr.num_records_per_page
      → AtLeast k j q
      → AtLeast r.page_no r.slot_no q

module _ (s : RmFile) where
  -- The used slot that a search finds on page `k` is the first place.
  hit-IsFirst :
      (k j : ℕ)
      → 1 ≤ k
      → k < s.file_hdr.num_pages
      → j ≤ s.file_hdr.num_records_per_page
      → let slot = next_bit true (s.pages k).bitmap s.file_hdr.num_records_per_page j in
        ltb slot s.file_hdr.num_records_per_page ≡ true
        → IsFirst s k j (record { page_no = k; slot_no = slot })
  hit-IsFirst k j low high le hit =
      let n = s.file_hdr.num_records_per_page in
      let slot = next_bit true (s.pages k).bitmap n j in
      let found = next_bit-Found true (s.pages k).bitmap n j le in
      let (from, to) = found.bounded in
      let lt : slot < n = ground arith in
      let on = found.hit lt in
      record {
        record_or_end = inl (ground arith, lt, inr (refl, from));
        skipped = λ q h lt_q at. elim at [
          | inl later ↦ inl later
          | inr (same, above) ↦ inr (
            same,
            elim (Bool-cases (leb slot q.slot_no)) [
              | inl ok ↦ ground arith
              | inr before ↦
                  let set : is_set (s.pages k).bitmap q.slot_no ≡ true =
                    ground (arith, ap (λ x. is_set (s.pages x).bitmap q.slot_no) same) in
                  absurd (found.first q.slot_no above (ground arith) set)
            ],
          )
        ];
      }

  -- A page without a used slot from `j` on is passed by.
  miss-IsFirst :
      (k j : ℕ) (r : Rid)
      → j ≤ s.file_hdr.num_records_per_page
      → let slot = next_bit true (s.pages k).bitmap s.file_hdr.num_records_per_page j in
        ltb slot s.file_hdr.num_records_per_page ≡ false → IsFirst s (suc k) 0 r → IsFirst s k j r
  miss-IsFirst k j r le miss after =
      let n = s.file_hdr.num_records_per_page in
      let found = next_bit-Found true (s.pages k).bitmap n j le in
      record {
        record_or_end = elim after.record_or_end [
          | inr end ↦ inr end
          | inl (h, lt, at) ↦
              inl (
                h,
                lt,
                elim at [ inl later ↦ inl (omega arith) | inr (same, _) ↦ inl (omega arith) ],
              )
        ];
        skipped = λ q h lt_q at. elim at [
          | inl later ↦ after.skipped q h lt_q (elim (Bool-cases (suc k == q.page_no)) [
            | inl same ↦ inr (ground arith, omega arith)
            | inr other ↦ inl (ground arith)
          ])
          | inr (same, above) ↦
              let set : is_set (s.pages k).bitmap q.slot_no ≡ true =
                ground (arith, ap (λ x. is_set (s.pages x).bitmap q.slot_no) same) in
              absurd (found.first q.slot_no above (ground arith) set)
        ];
      }

  scan_from-IsFirst :
      (rounds k : ℕ)
      → 1 ≤ k
      → k + rounds ≡ s.file_hdr.num_pages
      → (r : Rid) × (scan_from rounds k s ≡ done r s) × IsFirst s k 0 r
  unfolding scan_from
  scan_from-IsFirst zero k low e = (
    record { page_no = s.file_hdr.num_pages; slot_no = 0 },
    refl,
    record {
      record_or_end = inr refl;
      skipped =
          λ q h lt at. absurd (elim at [ inl later ↦ ground arith | inr (same, _) ↦ ground arith ]);
    },
  )
  scan_from-IsFirst (suc rounds) k low e =
      let found = slot_from_lem k 0 s low (omega arith) in
      let n = s.file_hdr.num_records_per_page in
      let slot = next_bit true (s.pages k).bitmap n 0 in
      let (r, returned, first) = scan_from-IsFirst rounds (suc k) (omega arith) (omega arith) in
      elim (Bool-cases (ltb slot n)) [
        | inl hit ↦ (
          record { page_no = k; slot_no = slot },
          rw (found, scan_from, hit) refl,
          hit-IsFirst k 0 low (omega arith) (omega arith) hit,
        )
        | inr miss ↦
            (r, rw (found, scan_from, miss) returned, miss-IsFirst k 0 r (omega arith) miss first)
      ]

  -- A scan starts at the first record of the file, or at the end if there is none; the file and
  -- its pins stay as they were.
  pub begin-IsFirst : 1 ≤ s.file_hdr.num_pages → (r : Rid) × (begin s ≡ done r s) × IsFirst s 1 0 r
  unfolding begin
  begin-IsFirst low = scan_from-IsFirst (s.file_hdr.num_pages - 1) 1 (omega arith) (omega arith)

  -- From a place of the file, `next` goes to the first record after it, or to the end if there is
  -- none, so no record is passed over; the file and its pins stay as they were.
  pub next-IsFirst :
      (rid : Rid)
      → 1 ≤ rid.page_no
      → rid.page_no < s.file_hdr.num_pages
      → rid.slot_no < s.file_hdr.num_records_per_page
      → (r : Rid) × (next rid s ≡ done r s) × IsFirst s rid.page_no (rid.slot_no + 1) r
  unfolding next is_end
  next-IsFirst rid low high lt =
      let k = rid.page_no in
      let n = s.file_hdr.num_records_per_page in
      let slot = next_bit true (s.pages k).bitmap n (rid.slot_no + 1) in
      let found = slot_from_lem k (rid.slot_no + 1) s low high in
      let inside : leb s.file_hdr.num_pages k ≡ false = ground arith in
      elim (Bool-cases (ltb slot n)) [
        | inl hit ↦ (
          record { page_no = k; slot_no = slot },
          rw (inside, next, found, hit) refl,
          hit-IsFirst k (rid.slot_no + 1) low high (omega arith) hit,
        )
        | inr miss ↦
            let (r, returned, first) =
              scan_from-IsFirst (s.file_hdr.num_pages - (k + 1)) (k + 1) (omega arith)
                (omega arith) in
            let e : k + 1 ≡ suc k = omega arith in
            (
              r,
              rw (inside, next, found, miss) returned,
              miss-IsFirst k (rid.slot_no + 1) r (omega arith) miss (rw e at first),
            )
      ]
