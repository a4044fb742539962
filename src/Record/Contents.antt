-- ===== src/Record/Contents.antt =====
-- record/rm_scan.cpp: the rows of a file, and that a scan goes through all of them in the order of
-- their places.
use whu_db_practice.Prelude.{
  ℕ, zero, suc, ◌+◌, ◌-◌, ◌≤◌, ◌<◌, ◌≡◌, refl, ◌⊎◌, inl, inr, true, false, List, [], ◌∷◌, ◌++◌,
  arith, ltb, leb, if◌then◌else◌, Bool-cases, done,
}
use whu_db_practice.Storage.Page.{Bytes}
use whu_db_practice.Record.Bitmap.{is_set, find_bit, next_bit}
use whu_db_practice.Record.Defs.{RmFile, RmPage, Rid}
use whu_db_practice.Record.Scan.{scan_from, begin, is_end, next, slot_from_lem}

-- The rows of a page from slot `j` on, with `rounds` slots left.
unfoldable pub page_rows : ℕ → RmPage → ℕ → List Bytes
page_rows zero page j = []
page_rows (suc rounds) page j =
    let rest = page_rows rounds page (suc j) in
    if is_set page.bitmap j then page.slots j ∷ rest else rest

-- The rows of the pages from `k` on, with `rounds` pages left.
unfoldable pub rows_from : ℕ → RmFile → ℕ → List Bytes
rows_from zero s k = []
rows_from (suc rounds) s k =
    page_rows s.file_hdr.num_records_per_page (s.pages k) 0 ++ rows_from rounds s (suc k)

unfoldable pub file_rows : RmFile → List Bytes
file_rows s = rows_from (s.file_hdr.num_pages - 1) s 1

module _ (s : RmFile) where
  -- The rows behind slot `j` of page `k`, that of slot `j` included.
  abbrev pub rows_at : ℕ → ℕ → List Bytes
  rows_at k j =
      page_rows (s.file_hdr.num_records_per_page - j) (s.pages k) j
      ++ rows_from (s.file_hdr.num_pages - suc k) s (suc k)

  -- A scan stands at `r`, with the rows `rs` still to come.
  abbrev pub StandsAt : List Bytes → Rid → Type 0
  StandsAt rs r =
      ((rs ≡ []) × (is_end r s ≡ true))
      ⊎ ((1 ≤ r.page_no)
          × (r.page_no < s.file_hdr.num_pages)
          × (r.slot_no < s.file_hdr.num_records_per_page)
          × (rs ≡ (s.pages r.page_no).slots r.slot_no ∷ rows_at r.page_no (suc r.slot_no)))

  page_rows-find_bit :
      (rounds : ℕ) (page : RmPage) (j n : ℕ)
      → j + rounds ≡ n
      → let slot = find_bit true page.bitmap n rounds j in
        page_rows rounds page j
        ≡ (if ltb slot n then page.slots slot ∷ page_rows (n - suc slot) page (suc slot) else [])
  unfolding page_rows find_bit
  page_rows-find_bit zero page j n e = let same : ltb n n ≡ false = ground arith in rw same refl
  page_rows-find_bit (suc rounds) page j n e = elim (Bool-cases (is_set page.bitmap j)) [
    | inl used ↦
        let inside : ltb j n ≡ true = ground arith in
        let left : n - suc j ≡ rounds = omega arith in
        rw (used, page_rows, find_bit, inside, left) refl
    | inr unused ↦
        rw (unused, page_rows, find_bit) (page_rows-find_bit rounds page (suc j) n (omega arith))
  ]

  -- Where a search finds a slot of page `k`, the scan stands there; else no row of it is left.
  hit-StandsAt :
      (k j : ℕ)
      → 1 ≤ k
      → k < s.file_hdr.num_pages
      → j ≤ s.file_hdr.num_records_per_page
      → let n = s.file_hdr.num_records_per_page in
        let slot = next_bit true (s.pages k).bitmap n j in
        ltb slot n ≡ true → StandsAt (rows_at k j) (record { page_no = k; slot_no = slot })
  unfolding next_bit
  hit-StandsAt k j low high le hit =
      let n = s.file_hdr.num_records_per_page in
      let e = page_rows-find_bit (n - j) (s.pages k) j n (omega arith) in
      inr (low, high, ground arith, rw (e, hit) refl)

  rows_at_miss :
      (k j : ℕ)
      → j ≤ s.file_hdr.num_records_per_page
      → let n = s.file_hdr.num_records_per_page in
        ltb (next_bit true (s.pages k).bitmap n j) n ≡ false
        → rows_at k j ≡ rows_from (s.file_hdr.num_pages - suc k) s (suc k)
  unfolding next_bit
  rows_at_miss k j le miss =
      let n = s.file_hdr.num_records_per_page in
      let e = page_rows-find_bit (n - j) (s.pages k) j n (omega arith) in rw (e, miss) refl

  scan_from-StandsAt :
      (rounds k : ℕ)
      → 1 ≤ k
      → k + rounds ≡ s.file_hdr.num_pages
      → (r : Rid) × (scan_from rounds k s ≡ done r s) × StandsAt (rows_from rounds s k) r
  unfolding scan_from is_end rows_from
  scan_from-StandsAt zero k low e =
      (record { page_no = s.file_hdr.num_pages; slot_no = 0 }, refl, inl (refl, ground arith))
  scan_from-StandsAt (suc rounds) k low e =
      let found = slot_from_lem k 0 s low (omega arith) in
      let n = s.file_hdr.num_records_per_page in
      let slot = next_bit true (s.pages k).bitmap n 0 in
      let (r, returned, stands) = scan_from-StandsAt rounds (suc k) (omega arith) (omega arith) in
      let left : s.file_hdr.num_pages - suc k ≡ rounds = omega arith in
      let all : n - 0 ≡ n = omega arith in
      let here : rows_from (suc rounds) s k ≡ rows_at k 0 = rw (left, all) refl in
      elim (Bool-cases (ltb slot n)) [
        | inl hit ↦ (
          record { page_no = k; slot_no = slot },
          rw (found, scan_from, hit) refl,
          rw here (hit-StandsAt k 0 low (omega arith) (omega arith) hit),
        )
        | inr miss ↦ (
          r,
          rw (found, scan_from, miss) returned,
          rw (here, rows_at_miss k 0 (omega arith) miss, left) stands,
        )
      ]

  -- A scan starts with all rows of the file ahead; the file and its pins stay as they were.
  pub begin-StandsAt :
      1 ≤ s.file_hdr.num_pages → (r : Rid) × (begin s ≡ done r s) × StandsAt (file_rows s) r
  unfolding begin file_rows
  begin-StandsAt low = scan_from-StandsAt (s.file_hdr.num_pages - 1) 1 (omega arith) (omega arith)

  -- `next` takes exactly the row at its place.
  pub next-StandsAt :
      (rid : Rid)
      → 1 ≤ rid.page_no
      → rid.page_no < s.file_hdr.num_pages
      → rid.slot_no < s.file_hdr.num_records_per_page
      → (r : Rid) × (next rid s ≡ done r s) × StandsAt (rows_at rid.page_no (suc rid.slot_no)) r
  unfolding next is_end
  next-StandsAt rid low high lt =
      let k = rid.page_no in
      let n = s.file_hdr.num_records_per_page in
      let slot = next_bit true (s.pages k).bitmap n (rid.slot_no + 1) in
      let found = slot_from_lem k (rid.slot_no + 1) s low high in
      let inside : leb s.file_hdr.num_pages k ≡ false = ground arith in
      let e : suc rid.slot_no ≡ rid.slot_no + 1 = omega arith in
      let k_e : suc k ≡ k + 1 = omega arith in
      elim (Bool-cases (ltb slot n)) [
        | inl hit ↦ (
          record { page_no = k; slot_no = slot },
          rw (inside, next, found, hit) refl,
          rw e (hit-StandsAt k (rid.slot_no + 1) low high (omega arith) hit),
        )
        | inr miss ↦
            let (r, returned, stands) =
              scan_from-StandsAt (s.file_hdr.num_pages - (k + 1)) (k + 1) (omega arith)
                (omega arith) in
            (
              r,
              rw (inside, next, found, miss) returned,
              rw (e, rows_at_miss k (rid.slot_no + 1) (omega arith) miss, k_e) stands,
            )
      ]
