-- ===== src/Record/Create.antt =====
-- record/rm_file_handle.cpp: `create_page_handle` gives a page with free space at the head of the
-- list, a new one if there is none.
use whu_db_practice.Prelude.{
  ℕ, zero, suc, ◌+◌, ◌≤◌, ◌≡◌, refl, ap, sym, inl, inr, true, false, ◌||◌, List, [], ◌∷◌, some,
  arith, ◌==◌, ==_iff, ==_self, ltb, leb, if◌then◌else◌, Bool-cases, replicate, update, nat_eq,
  done,
}
use whu_db_practice.Storage.Page.{length-replicate}
use whu_db_practice.Record.Bitmap.{init, is_set, AreBytes}
use whu_db_practice.Record.BitLaws.{length-init, init-AreBytes, is_set-init_all}
use whu_db_practice.Record.Search.{count_below_zero}
use whu_db_practice.Record.Pages.{IsPage}
use whu_db_practice.Record.Invariant.{IsValid, has}
use whu_db_practice.Record.Defs.{
  RmPage, RmFile, Rid, fetch_page, fetch_page_handle, create_new_page_handle, create_page_handle,
}

zeros-AreBytes : (n : ℕ) → AreBytes (replicate n 0)
zeros-AreBytes zero = tt
zeros-AreBytes (suc n) = (omega arith, zeros-AreBytes n)

-- What a caller gets: a page with free space, pinned once more, and no record changed.
pub record Created (s : RmFile) (p : ℕ) (s' : RmFile) : Type 0 where
  pub rest : List ℕ
  pub valid : IsValid (p ∷ rest) s'
  pub kept :
      (r : Rid)
      → (has s' r ≡ has s r)
        × (has s r ≡ true
            → (s'.pages r.page_no).slots r.slot_no ≡ (s.pages r.page_no).slots r.slot_no)
  pub pins :
      (q : ℕ)
      → s'.pin_count q ≡ (
          if q == p
          then (if ltb q s.file_hdr.num_pages then s.pin_count q + 1 else 1)
          else s.pin_count q)
  pub sizes :
      (s'.file_hdr.record_size ≡ s.file_hdr.record_size)
      × (s'.file_hdr.num_records_per_page ≡ s.file_hdr.num_records_per_page)
      × (s.file_hdr.num_pages ≤ s'.file_hdr.num_pages)

module _ (s : RmFile) (v : IsValid [] s) where
  fresh : RmPage
  fresh = record {
    next_free_page_no = s.file_hdr.first_free_page_no;
    num_records = 0;
    bitmap = init s.file_hdr.bitmap_size (replicate s.file_hdr.bitmap_size 0);
    slots = λ _. replicate s.file_hdr.record_size 0;
  }

  fresh_clear : (q : ℕ) → is_set fresh.bitmap q ≡ false
  unfolding fresh
  fresh_clear q =
      is_set-init_all s.file_hdr.bitmap_size (replicate s.file_hdr.bitmap_size 0) q
        (length-replicate s.file_hdr.bitmap_size 0)

  fresh-IsPage : IsPage s.file_hdr.num_records_per_page s.file_hdr.bitmap_size fresh
  unfolding fresh
  fresh-IsPage =
      let size = s.file_hdr.bitmap_size in
      record {
        sized = omega (arith, length-init size (replicate size 0), length-replicate size 0);
        bytes = init-AreBytes size (replicate size 0) (zeros-AreBytes size);
        counted = sym (
            count_below_zero (is_set fresh.bitmap) s.file_hdr.num_records_per_page
              (λ k _. fresh_clear k));
      }

  created : RmFile
  created = record s {
    pages = update s.pages s.fd2pageno fresh;
    pin_count = update s.pin_count s.fd2pageno 1;
    fd2pageno = s.fd2pageno + 1;
    file_hdr = record s.file_hdr {
      first_free_page_no = some s.fd2pageno;
      num_pages = s.file_hdr.num_pages + 1;
    };
  }

  create_new_page_handle_lem : create_new_page_handle s ≡ done s.fd2pageno created
  unfolding create_new_page_handle created fresh
  create_new_page_handle_lem = ground (arith, ==_self s.fd2pageno)

  created-IsValid : IsValid (s.fd2pageno ∷ []) created
  unfolding created fresh
  created-IsValid =
      let p = s.fd2pageno in
      let e = v.numbered in
      record {
        numbered = omega arith;
        started = omega arith;
        capacity = v.capacity;
        roomy = v.roomy;
        page = λ q a b. elim (Bool-cases (q == p)) [
          | inl here ↦ rw here fresh-IsPage
          | inr there ↦ rw there (v.page q a (ground arith))
        ];
        chain = (refl, rw (==_self p) v.chain);
        distinct = (refl, tt);
        listed = λ q a b short. elim (Bool-cases (q == p)) [
          | inl here ↦ rw here refl
          | inr there ↦ absurd (ground (arith, v.listed q a (ground arith) (rw there at short)))
        ];
        vacant = λ q m.
            let here : (q == p) ≡ true = ground arith in
            let q_p : q ≡ p = (==_iff q p).0 here in
            let room = v.capacity in
            let low = v.started in (omega arith, omega arith, rw here (λ full. omega arith));
      }

  created-Created : Created s s.fd2pageno created
  unfolding created
  created-Created =
      let p = s.fd2pageno in
      let e = v.numbered in
      record {
        rest = [];
        valid = created-IsValid;
        kept = λ r. elim (Bool-cases (r.page_no == p)) [
          | inl here ↦
              let q_p : r.page_no ≡ p = (==_iff r.page_no p).0 here in
              let clear = fresh_clear r.slot_no in
              let none_here : has s r ≡ false = ground arith in
              (rw (here, clear) (ground arith), λ h. absurd (ground arith))
          | inr there ↦ (rw there (ground arith), λ h. rw there refl)
        ];
        pins = λ q. ground arith;
        sizes = (refl, refl, omega arith);
      }

-- `create_page_handle` returns, and gives a page with free space at the head of the list.
pub create_page_handle-Created :
    (free : List ℕ) (s : RmFile)
    → IsValid free s
    → (p : ℕ) × (s' : RmFile) × (create_page_handle s ≡ done p s') × Created s p s'
unfolding create_page_handle fetch_page_handle
create_page_handle-Created [] s v = (
  s.fd2pageno,
  created s v,
  rw (v.chain, create_page_handle) (create_new_page_handle_lem s v),
  created-Created s v,
)
create_page_handle-Created (p ∷ rest) s v =
    let (low, high, short) = v.vacant p (ground (arith, ==_self p)) in
    let in_range : (ltb p 1 || leb s.file_hdr.num_pages p) ≡ false = ground arith in
    (
      p,
      fetch_page p s,
      ground (arith, v.chain.0),
      record {
        rest = rest;
        valid = record {
          numbered = v.numbered;
          started = v.started;
          capacity = v.capacity;
          roomy = v.roomy;
          page = v.page;
          chain = v.chain;
          distinct = v.distinct;
          listed = v.listed;
          vacant = v.vacant;
        };
        kept = λ r. (refl, λ h. refl);
        pins = λ q. ground (arith, ap s.pin_count);
        sizes = (refl, refl, omega arith);
      },
    )
