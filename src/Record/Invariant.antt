-- ===== src/Record/Invariant.antt =====
-- record/rm_file_handle.cpp: the invariant of a data file. The list that starts at
-- `first_free_page_no` holds exactly the pages with free space.
use whu_db_practice.Prelude.{
  ℕ, ◌*◌, ◌≤◌, ◌<◌, ◌≡◌, refl, ap, sym, ◌∙◌, ◌≢◌, inl, inr, Bool, true, false, ◌&&◌, List, [], ◌∷◌,
  Option, none, some, arith, ◌==◌, ==_iff, ltb, leb, Bool-cases, contains, IsDistinct, update,
  nat_eq,
}
use whu_db_practice.Record.Bitmap.{is_set}
use whu_db_practice.Record.Pages.{IsPage}
use whu_db_practice.Record.Defs.{RmPage, RmFile, Rid, set_page, set_first_free}

abbrev pub Chain : (ℕ → RmPage) → Option ℕ → List ℕ → Type 0
Chain pages o [] = o ≡ none
Chain pages o (p ∷ ps) = (o ≡ some p) × Chain pages (pages p).next_free_page_no ps

pub record IsValid (free : List ℕ) (s : RmFile) : Type 0 where
  pub numbered : s.fd2pageno ≡ s.file_hdr.num_pages
  pub started : 1 ≤ s.file_hdr.num_pages
  pub capacity : 0 < s.file_hdr.num_records_per_page
  pub roomy : s.file_hdr.num_records_per_page ≤ 8 * s.file_hdr.bitmap_size
  pub page :
      (p : ℕ)
      → 1 ≤ p
      → p < s.file_hdr.num_pages
      → IsPage s.file_hdr.num_records_per_page s.file_hdr.bitmap_size (s.pages p)
  pub chain : Chain s.pages s.file_hdr.first_free_page_no free
  pub distinct : IsDistinct free
  pub listed :
      (p : ℕ)
      → 1 ≤ p
      → p < s.file_hdr.num_pages
      → (s.pages p).num_records ≢ s.file_hdr.num_records_per_page
      → contains p free ≡ true
  pub vacant :
      (p : ℕ)
      → contains p free ≡ true
      → (1 ≤ p)
        × (p < s.file_hdr.num_pages)
        × ((s.pages p).num_records ≢ s.file_hdr.num_records_per_page)

-- There is a record at `rid`.
abbrev pub has : RmFile → Rid → Bool
has s rid =
    leb 1 rid.page_no
    && (ltb rid.page_no s.file_hdr.num_pages && is_set (s.pages rid.page_no).bitmap rid.slot_no)

-- A list is followed through the headers of its own pages only.
pub Chain-same :
    (pages pages' : ℕ → RmPage) (o : Option ℕ) (ps : List ℕ)
    → ((q : ℕ) → contains q ps ≡ true → (pages' q).next_free_page_no ≡ (pages q).next_free_page_no)
    → Chain pages o ps
    → Chain pages' o ps
Chain-same pages pages' o [] h c = c
Chain-same pages pages' o (p ∷ ps) h c =
    (c.0, rw (h p (ground arith)) (Chain-same pages pages' _ ps (λ q m. h q (ground arith)) c.1))

module _ (free : List ℕ) (s : RmFile) (v : IsValid free s) (p : ℕ) (page : RmPage) (low : 1 ≤ p)
    (high : p < s.file_hdr.num_pages)
    (ok : IsPage s.file_hdr.num_records_per_page s.file_hdr.bitmap_size page) where
  pages_ok :
      (q : ℕ)
      → 1 ≤ q
      → q < s.file_hdr.num_pages
      → IsPage s.file_hdr.num_records_per_page s.file_hdr.bitmap_size (update s.pages p page q)
  pages_ok q a b = elim (Bool-cases (q == p)) [
    | inl here ↦ rw here ok
    | inr there ↦ rw there (v.page q a b)
  ]

  -- A change of a page that leaves its place in the list and its being full as they are.
  pub set_page-IsValid :
      page.next_free_page_no ≡ (s.pages p).next_free_page_no
      → (page.num_records ≡ s.file_hdr.num_records_per_page
          → (s.pages p).num_records ≡ s.file_hdr.num_records_per_page)
      → ((s.pages p).num_records ≡ s.file_hdr.num_records_per_page
          → page.num_records ≡ s.file_hdr.num_records_per_page)
      → IsValid free (set_page p page s)
  set_page-IsValid next to from = record {
    numbered = v.numbered;
    started = v.started;
    capacity = v.capacity;
    roomy = v.roomy;
    page = pages_ok;
    chain =
        Chain-same s.pages (update s.pages p page) _ free
          (λ q m. elim (Bool-cases (q == p)) [
            | inl here ↦
                rw here (next ∙ ap (λ x. (s.pages x).next_free_page_no) (sym ((==_iff q p).0 here)))
            | inr there ↦ rw there refl
          ])
          v.chain;
    distinct = v.distinct;
    listed = λ q a b short. elim (Bool-cases (q == p)) [
      | inl here ↦ v.listed q a b (λ full.
          rw here at short
            (from (ap (λ x. (s.pages x).num_records) (sym ((==_iff q p).0 here)) ∙ full)))
      | inr there ↦ v.listed q a b (rw there at short)
    ];
    vacant = λ q m.
        let (a, b, short) = v.vacant q m in
        (
          a,
          b,
          elim (Bool-cases (q == p)) [
            | inl here ↦
                rw here (λ full.
                  short (ap (λ x. (s.pages x).num_records) ((==_iff q p).0 here) ∙ to full))
            | inr there ↦ rw there short
          ],
        );
  }

  -- The first page of the list becomes full and leaves it.
  pub fill-IsValid :
      (rest : List ℕ)
      → free ≡ p ∷ rest
      → page.num_records ≡ s.file_hdr.num_records_per_page
      → IsValid rest (set_first_free (s.pages p).next_free_page_no (set_page p page s))
  fill-IsValid rest e full =
      let (out, distinct) = rw e at (v.distinct) in
      let ne : (q : ℕ) → contains q rest ≡ true → (q == p) ≡ false = λ q m.
        elim (Bool-cases (q == p)) [
          | inl here ↦ absurd (ground (arith, ap (λ x. contains x rest) ((==_iff q p).0 here)))
          | inr there ↦ there
        ] in
      record {
        numbered = v.numbered;
        started = v.started;
        capacity = v.capacity;
        roomy = v.roomy;
        page = pages_ok;
        chain =
            Chain-same s.pages (update s.pages p page) _ rest (λ q m. rw (ne q m) refl)
              (rw e at (v.chain)).1;
        distinct = distinct;
        listed = λ q a b short. elim (Bool-cases (q == p)) [
          | inl here ↦ absurd (rw here at short full)
          | inr there ↦
              let m = v.listed q a b (rw there at short) in ground (arith, ap (contains q) e)
        ];
        vacant = λ q m.
            let (a, b, short) = v.vacant q (ground (arith, ap (contains q) e)) in
            (a, b, rw (ne q m) short);
      }

  -- A page that was full gets free space and goes to the front of the list.
  pub free_up-IsValid :
      (s.pages p).num_records ≡ s.file_hdr.num_records_per_page
      → page.num_records ≢ s.file_hdr.num_records_per_page
      → page.next_free_page_no ≡ s.file_hdr.first_free_page_no
      → IsValid (p ∷ free) (set_first_free (some p) (set_page p page s))
  free_up-IsValid full short next =
      let out : contains p free ≡ false = elim (Bool-cases (contains p free)) [
        | inl m ↦ absurd ((v.vacant p m).2 full)
        | inr m ↦ m
      ] in
      let ne : (q : ℕ) → contains q free ≡ true → (q == p) ≡ false = λ q m.
        elim (Bool-cases (q == p)) [
          | inl here ↦ absurd (ground (arith, ap (λ x. contains x free) ((==_iff q p).0 here)))
          | inr there ↦ there
        ] in
      record {
        numbered = v.numbered;
        started = v.started;
        capacity = v.capacity;
        roomy = v.roomy;
        page = pages_ok;
        chain = (
          refl,
          rw (self, next)
              (Chain-same s.pages (update s.pages p page) _ free (λ q m. rw (ne q m) refl) v.chain),
        );
        distinct = (out, v.distinct);
        listed = λ q a b short_q. elim (Bool-cases (q == p)) [
          | inl here ↦ rw here refl
          | inr there ↦ rw there (v.listed q a b (rw there at short_q))
        ];
        vacant = λ q m. elim (Bool-cases (q == p)) [
          | inl here ↦ let e = (==_iff q p).0 here in (ground arith, ground arith, rw here short)
          | inr there ↦ let (a, b, c) = v.vacant q (rw there at m) in (a, b, rw there c)
        ];
      }
    where
      self : update s.pages p page p ≡ page
      self = ground (arith, ==_iff p p)
