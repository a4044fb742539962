-- ===== src/Storage/Pool/Faults.antt =====
-- A read that fails in `fetch_page`: the exception leaves the page table as `update_page` made it.
use whu_db_practice.Prelude.{
  ℕ, ◌+◌, ◌≡◌, refl, ==_self, true, ◌++◌, length, drop, none, some, arith, nat_eq, done, raised,
}
use whu_db_practice.Replacer.{Replacer}
use whu_db_practice.Storage.Page.{PageId, page_id_has_eq, page_id_eq_iff, page_size, zeroed}
use whu_db_practice.Storage.Disk.{Disk, fits, read_page, short_read}
use whu_db_practice.Storage.Pool.Defs.{
  BufferPool, pin_frame, cut_short, find_victim_page, renamed, write_back, update_page, load,
  fetch_page,
}

module _ (rep : Replacer) (p : PageId) (f : ℕ) (d : Disk) (b : BufferPool rep) where
  -- If page `p` is not in the pool, a frame `f` is found, its old page is written back, and the
  -- read of `p` is cut short, then `fetch_page` throws; and a second call for `p` returns frame
  -- `f` with the bytes before the cut and zeros behind them, though `p` was never read.
  pub fetch_page_after_fault :
      b.page_table p ≡ none
      → (find_victim_page rep b).0 ≡ some f
      → write_back ((find_victim_page rep b).1.pages f) (find_victim_page rep b).1.disk ≡ some d
      → fits p ≡ true
      → read_page d p page_size ≡ none
      → (b' : BufferPool rep) × (b'' : BufferPool rep) × (fetch_page rep p b ≡ raised b')
        × (fetch_page rep p b' ≡ done (some f) b'')
        × ((b''.pages f).bytes
            ≡ short_read d p page_size ++ drop (length (short_read d p page_size)) zeroed)
  unfolding fetch_page load update_page
  fetch_page_after_fault e o w small r =
      let b' = cut_short rep f p (renamed rep f p d (find_victim_page rep b).1) in
      let found : b'.page_table p ≡ some f = ground (arith, page_id_eq_iff p p) in
      (
        b',
        pin_frame rep f (record (b'.pages f) { pin_count = (b'.pages f).pin_count + 1 }) b',
        rw (e, fetch_page, o, load, update_page, w, r) refl,
        rw (found, fetch_page) refl,
        rw (==_self f) refl,
      )
