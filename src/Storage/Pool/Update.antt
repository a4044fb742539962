-- ===== src/Storage/Pool/Update.antt =====
-- `update_page`: the frame that was taken gets a new page, and the old one is not lost.
use whu_db_practice.Prelude.{
  ℕ, ◌<◌, ◌≡◌, refl, ap, sym, ◌∙◌, ◌≢◌, inl, inr, false, Option, none, some, arith, ◌==◌, ==_iff,
  nat_eq, Option-cases, Bool-cases, contains, some_inj,
}
use whu_db_practice.Replacer.{Replacer}
use whu_db_practice.Storage.Page.{
  PageId, page_id_eq, page_id_has_eq, page_id_eq_iff, Page, Bytes, page_size, length-zeroed,
}
use whu_db_practice.Storage.Disk.{
  Disk, read_page, write_page, read_page-write_page, read_page-write_page_ne,
}
use whu_db_practice.Storage.Pool.Defs.{BufferPool, renamed, forget, write_back}
use whu_db_practice.Storage.Pool.Invariant.{IsConsistent, IsClean, content}

pub forget_self :
    (page : Page) (table : PageId → Option ℕ) (p : PageId)
    → page.id ≡ some p
    → forget page table p ≡ none
unfolding forget
forget_self page table p h = ground (arith, page_id_eq_iff p p)

pub forget_ne :
    (page : Page) (table : PageId → Option ℕ) (p : PageId)
    → page.id ≢ some p
    → forget page table p ≡ table p
unfolding forget
forget_ne page table p h = elim (Option-cases page.id) [
  | inl e ↦ rw (e, forget) refl
  | inr (old, e) ↦ elim (Bool-cases (page_id_eq p old)) [
    | inl same ↦ absurd (h (e ∙ ap some (sym ((page_id_eq_iff p old).0 same))))
    | inr other ↦ ground arith
  ]
]

pub forget-some :
    (page : Page) (table : PageId → Option ℕ) (p : PageId) (g : ℕ)
    → forget page table p ≡ some g
    → (table p ≡ some g) × (page.id ≢ some p)
unfolding forget
forget-some page table p g h = elim (Option-cases page.id) [
  | inl e ↦ ground arith
  | inr (old, e) ↦ elim (Bool-cases (page_id_eq p old)) [
    | inl same ↦ absurd (ground arith)
    | inr other ↦
        (ground arith, λ q. absurd (ground (arith, page_id_eq_iff p p, some_inj (sym e ∙ q))))
  ]
]

pub page_id_eq_ne : (q p : PageId) → q ≢ p → page_id_eq q p ≡ false
page_id_eq_ne q p h = elim (Bool-cases (page_id_eq q p)) [
  | inl same ↦ absurd (h ((page_id_eq_iff q p).0 same))
  | inr other ↦ other
]

module _ (rep : Replacer) (f : ℕ) (p : PageId) (d : Disk) (b : BufferPool rep) where
  module _ (v : IsConsistent rep (some f) b) (absent : b.page_table p ≡ none) where
    renamed-mapped :
        (q : PageId) (g : ℕ)
        → (renamed rep f p d b).page_table q ≡ some g
        → (g < b.pool_size) × (((renamed rep f p d b).pages g).id ≡ some q)
    renamed-mapped q g h = elim (Bool-cases (page_id_eq q p)) [
      | inl same ↦
          let e = (page_id_eq_iff q p).0 same in let (lt, _, _, _) = v.taken f refl in ground arith
      | inr other ↦
          let (old, not_f) = forget-some (b.pages f) b.page_table q g (ground arith) in
          let (lt, id) = v.mapped q g old in
          let ne : g ≢ f = λ e. not_f (rw e at id) in ground arith
    ]

    renamed-owned :
        (g : ℕ) (q : PageId)
        → g < b.pool_size
        → ((renamed rep f p d b).pages g).id ≡ some q
        → (renamed rep f p d b).page_table q ≡ some g
    renamed-owned g q lt h = elim (Bool-cases (g == f)) [
      | inl here ↦
          let e : p ≡ q = ground arith in ground (arith, (==_iff g f).0 here, page_id_eq_iff q p)
      | inr there ↦
          let id : (b.pages g).id ≡ some q = ground arith in
          let old = v.owned g q lt id in
          let ne : q ≢ p = λ e. ground (arith, ap b.page_table e) in
          let not_f : (b.pages f).id ≢ some q =
            λ e. let (lt_f, _, _, _) = v.taken f refl in ground (arith, v.owned f q lt_f e) in
          ground (arith, forget_ne (b.pages f) b.page_table q not_f, page_id_eq_iff q p)
    ]

    -- The frames but `f` are left alone.
    renamed_page : (g : ℕ) → g ≢ f → (renamed rep f p d b).pages g ≡ b.pages g
    renamed_page g ne = ground arith

    pub renamed-IsConsistent : IsConsistent rep (some f) (renamed rep f p d b)
    renamed-IsConsistent = record {
      policy = v.policy;
      mapped = renamed-mapped;
      owned = renamed-owned;
      evictable = λ g h.
          let (_, unheld, _, _) = v.taken f refl in
          let ne : g ≢ f = λ e. ground (arith, ap (rep.has b.replacer) e) in
          ground (arith, v.evictable g h);
      unpinned = λ g lt some_id zero_pins other.
          let ne : g ≢ f = λ e. other (ap some (sym e)) in
          let same = renamed_page g ne in
          v.unpinned g lt (rw same at some_id) (rw same at zero_pins) other;
      free = λ g h.
          let (_, _, unlisted, _) = v.taken f refl in
          let ne : g ≢ f = λ e. ground (arith, ap (λ x. contains x b.free_list) e) in
          ground (arith, v.free g h);
      vacant = λ g lt no_id.
          let ne : g ≢ f = λ e. ground arith in
          let same = renamed_page g ne in
          let (z, listed) = v.vacant g lt (rw same at no_id) in (rw same z, listed);
      distinct = v.distinct;
      sized = λ g lt. ground (arith, v.sized g lt, length-zeroed);
      taken = λ g h.
          let (lt, unheld, unlisted, z) = v.taken g h in (lt, unheld, unlisted, ground arith);
    }

    module _ (clean : IsClean rep b) (written : write_back (b.pages f) b.disk ≡ some d) where
      -- The page that is evicted is on the disk as it was in the pool,
      read_evicted :
          (q : PageId) → (b.pages f).id ≡ some q → read_page d q page_size ≡ some (b.pages f).bytes
      unfolding write_back
      read_evicted q id =
          let (lt, _, _, z) = v.taken f refl in
          elim (Bool-cases (b.pages f).is_dirty) [
            | inl dirty ↦
                let w : write_page b.disk q (b.pages f).bytes ≡ some d = ground arith in
                rw (v.sized f lt) at (read_page-write_page b.disk d q (b.pages f).bytes w)
            | inr same ↦ let e : b.disk ≡ d = ground arith in rw e at (clean f q lt id same z)
          ]

      -- and the others are on the disk as before.
      pub read_other :
          (q : PageId) (cs : Bytes)
          → (b.pages f).id ≢ some q
          → read_page b.disk q page_size ≡ some cs
          → read_page d q page_size ≡ some cs
      unfolding write_back
      read_other q cs id r = elim (Option-cases (b.pages f).id) [
        | inl e ↦ let same : b.disk ≡ d = ground arith in rw same at r
        | inr (old, e) ↦ elim (Bool-cases (b.pages f).is_dirty) [
          | inr clean_page ↦ let same : b.disk ≡ d = ground arith in rw same at r
          | inl dirty ↦
              let (lt, _, _, _) = v.taken f refl in
              let w : write_page b.disk old (b.pages f).bytes ≡ some d = ground arith in
              read_page-write_page_ne b.disk d old q (b.pages f).bytes cs w
                (omega (arith, v.sized f lt)) (λ same. id (e ∙ ap some same)) r
        ]
      ]

      -- No page that could be read is lost.
      pub content-renamed :
          (q : PageId) (cs : Bytes)
          → q ≢ p
          → content rep b q ≡ some cs
          → content rep (renamed rep f p d b) q ≡ some cs
      content-renamed q cs other h = elim (Option-cases (b.page_table q)) [
        | inl absent_q ↦
            let not_f : (b.pages f).id ≢ some q =
              λ e. let (lt, _, _, _) = v.taken f refl in ground (arith, v.owned f q lt e) in
            let r : read_page b.disk q page_size ≡ some cs = ground arith in
            ground (
              arith,
              forget_ne (b.pages f) b.page_table q not_f,
              read_other q cs not_f r,
              page_id_eq_ne q p other,
            )
        | inr (g, at_g) ↦
            let (lt, id) = v.mapped q g at_g in
            elim (Bool-cases (g == f)) [
              | inl here ↦
                  let e = (==_iff g f).0 here in
                  let id_f : (b.pages f).id ≡ some q = rw e at id in
                  ground (
                    arith,
                    forget_self (b.pages f) b.page_table q id_f,
                    read_evicted q id_f,
                    ap (λ x. (b.pages x).bytes) e,
                    page_id_eq_ne q p other,
                  )
              | inr there ↦
                  let not_f : (b.pages f).id ≢ some q = λ e.
                    let (lt_f, _, _, _) = v.taken f refl in ground (arith, v.owned f q lt_f e) in
                  ground
                    (arith, forget_ne (b.pages f) b.page_table q not_f, page_id_eq_ne q p other)
            ]
      ]

      pub renamed-IsClean :
          (g : ℕ) (q : PageId)
          → g < b.pool_size
          → g ≢ f
          → (b.pages g).id ≡ some q
          → (b.pages g).is_dirty ≡ false
          → (b.pages g).pin_count ≡ 0
          → read_page d q page_size ≡ some (b.pages g).bytes
      renamed-IsClean g q lt ne id same z =
          let (lt_f, _, _, _) = v.taken f refl in
          read_other q _ (λ id_f. ne (some_inj (sym (v.owned g q lt id) ∙ v.owned f q lt_f id_f)))
            (clean g q lt id same z)
