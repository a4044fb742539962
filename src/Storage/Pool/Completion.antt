-- ===== src/Storage/Pool/Completion.antt =====
-- When `fetch_page` and `new_page` return rather than throw: on a disk that takes every write.
use whu_db_practice.Prelude.{
  ℕ, ◌≡◌, refl, ◌≢◌, inl, inr, true, none, some, arith, Option-cases, Bool-cases, Outcome, done,
}
use whu_db_practice.Replacer.{Replacer}
use whu_db_practice.Storage.Page.{PageId, Page, Bytes, page_size}
use whu_db_practice.Storage.Disk.{Disk, fits, read_page, write_page}
use whu_db_practice.Storage.Pool.Defs.{
  BufferPool, find_victim_page, write_back, update_page, load, fetch_page,
}
use whu_db_practice.Storage.Pool.Invariant.{
  IsConsistent, IsClean, content, find_victim_page-IsConsistent, find_victim_page_frame,
  find_victim_page-IsClean,
}
use whu_db_practice.Storage.Pool.Update.{read_other}

-- The call returns, with some answer and state.
abbrev pub Completes : {S A : Type 0} → Outcome S A → Type 0
Completes {S} {A} o = (a : A) × (s : S) × (o ≡ done a s)

-- No write to the disk is cut short.
abbrev pub AcceptsAll : Disk → Type 0
AcceptsAll d = (p : PageId) → d.accepts p ≡ true

-- The offset of the frame's page does not overflow.
abbrev pub HasOffset : Page → Type 0
HasOffset page = (q : PageId) → page.id ≡ some q → fits q ≡ true

write_back_accepted :
    (page : Page) (d : Disk)
    → AcceptsAll d
    → HasOffset page
    → (d' : Disk) × (write_back page d ≡ some d')
unfolding write_back write_page
write_back_accepted page d all small = elim (Option-cases page.id) [
  | inl e ↦ rw (e, write_back) (d, refl)
  | inr (old, e) ↦ elim (Bool-cases page.is_dirty) [
    | inl dirty ↦ rw (e, write_back, dirty, write_page, small old e, all old) (_, refl)
    | inr same ↦ rw (e, write_back, same) (d, refl)
  ]
]

module _ (rep : Replacer) where
  load-Completes :
      (f : ℕ) (p : PageId) (b : BufferPool rep) (cs : Bytes)
      → IsConsistent rep (some f) b
      → IsClean rep b
      → b.page_table p ≡ none
      → AcceptsAll b.disk
      → HasOffset (b.pages f)
      → read_page b.disk p page_size ≡ some cs
      → Completes (load rep f p b)
  unfolding load update_page
  load-Completes f p b cs v clean absent all small readable =
      let (d, w) = write_back_accepted (b.pages f) b.disk all small in
      let (lt, _, _, _) = v.taken f refl in
      let not_f : (b.pages f).id ≢ some p = λ e. ground (arith, v.owned f p lt e) in
      let after = read_other rep f p d b v absent clean w p cs not_f readable in
      rw (load, update_page, w, after) (_, _, refl)

  -- On a consistent pool in which clean frames agree with the disk, over a disk that takes every
  -- write and with no page in a frame whose offset overflows, `fetch_page` returns for each page that
  -- can be read.
  pub fetch_page-Completes :
      (p : PageId) (b : BufferPool rep) (cs : Bytes)
      → IsConsistent rep none b
      → IsClean rep b
      → AcceptsAll b.disk
      → ((f : ℕ) → HasOffset (b.pages f))
      → content rep b p ≡ some cs
      → Completes (fetch_page rep p b)
  unfolding fetch_page
  fetch_page-Completes p b cs v clean all small readable = elim (Option-cases (b.page_table p)) [
    | inr (f, e) ↦ rw (e, fetch_page) (_, _, refl)
    | inl e ↦ elim (Option-cases (find_victim_page rep b).0) [
      | inl o ↦ rw (e, fetch_page, o) (_, _, refl)
      | inr (f, o) ↦
          let (pages, table, disk, _) = find_victim_page_frame rep b in
          let found = find_victim_page-IsConsistent rep b v in
          let on_disk : read_page b.disk p page_size ≡ some cs = ground arith in
          rw (e, fetch_page, o)
            (load-Completes f p (find_victim_page rep b).1 cs (rw o at found)
              (find_victim_page-IsClean rep b clean) (rw table e) (rw disk all) (rw pages (small f))
              (rw disk on_disk))
    ]
  ]
