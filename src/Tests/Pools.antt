-- ===== src/Tests/Pools.antt =====
-- The disk and the buffer pool on a disk with one file of two pages.
use whu_db_practice.Prelude.{
  ◌≡◌, refl, true, [], ◌∷◌, ◌++◌, length, drop, none, some, arith, state, done, raised, Returns,
}
use whu_db_practice.Replacer.Lru.Defs as Lru
use whu_db_practice.Replacer.Lru.Invariant as LruInvariant
use whu_db_practice.Replacer.Lru.Instance.{lru_replacer}
use whu_db_practice.Storage.Page.{PageId, Bytes, page_size, zeroed}
use whu_db_practice.Storage.Disk.{
  Disk, short_read, fits, write_page, read_page, allocate_page, read_page-write_page,
  read_page-write_page_ne, bytes_from,
}
use whu_db_practice.Storage.Pool.Defs.{
  BufferPool, frames_from, write_back, forget, init, find_victim_page, update_page, load,
  fetch_page, unpin_page, new_page,
}
use whu_db_practice.Storage.Pool.Invariant.{IsConsistent, IsClean}
use whu_db_practice.Storage.Pool.Start.{init-IsConsistent}
use whu_db_practice.Storage.Pool.Fetch.{Fetched, fetch_page-Fetched}
use whu_db_practice.Storage.Pool.Unpin.{Unpinned, unpin_page-Unpinned}
use whu_db_practice.Storage.Pool.NewPage.{Created, new_page-Created}
use whu_db_practice.Storage.Pool.Faults.{fetch_page_after_fault}
use whu_db_practice.Storage.Pool.Completion.{Completes, fetch_page-Completes}

abbrev disk : Disk
disk = record {
  file = λ fd. record { size = 8192; byte = λ i. 7 };
  accepts = λ p. true;
  fd2pageno = λ fd. 2;
}

abbrev first_page : PageId
first_page = record { fd = 3; page_no = 0 }

abbrev second_page : PageId
second_page = record { fd = 3; page_no = 1 }

abbrev pool : BufferPool lru_replacer
pool = init lru_replacer 2 disk (Lru.init 2)

program : Unit {0}
unfolding fits short_read write_page read_page allocate_page init frames_from write_back forget
    find_victim_page update_page load fetch_page unpin_page new_page Lru.init Lru.victim Lru.pin
    Lru.unpin
program = tt

pool-IsConsistent : IsConsistent lru_replacer none pool × IsClean lru_replacer pool
unfolding Lru.init
pool-IsConsistent =
    init-IsConsistent lru_replacer 2 disk (Lru.init 2) (LruInvariant.init-IsValid 2) (λ f. refl)

init-IsConsistent_example : IsConsistent lru_replacer none pool × IsClean lru_replacer pool
unfolding Lru.init
init-IsConsistent_example =
    init-IsConsistent lru_replacer 2 disk (Lru.init 2) (LruInvariant.init-IsValid 2) (λ f. refl)

fetch_page-Fetched_example :
    Returns (Fetched lru_replacer first_page pool) (fetch_page lru_replacer first_page pool)
fetch_page-Fetched_example =
    fetch_page-Fetched lru_replacer first_page pool (pool-IsConsistent.0) (pool-IsConsistent.1)

-- The pool that holds the first page in frame 0.
abbrev fetched : BufferPool lru_replacer
fetched = state (fetch_page lru_replacer first_page pool)

fetched-Fetched : Fetched lru_replacer first_page pool (some 0) fetched
unfolding program
fetched-Fetched = fetch_page-Fetched_example

unpin_page-Unpinned_example :
    Unpinned lru_replacer first_page fetched
      (unpin_page lru_replacer first_page true fetched).0
      (unpin_page lru_replacer first_page true fetched).1
unpin_page-Unpinned_example =
    unpin_page-Unpinned lru_replacer first_page true fetched (fetched-Fetched.consistent)

new_page-Created_example :
    Returns (Created lru_replacer 3 fetched) (new_page lru_replacer 3 fetched)
unfolding program
new_page-Created_example =
    new_page-Created lru_replacer 3 fetched (fetched-Fetched.consistent) (fetched-Fetched.clean)
      refl

-- A file that ends inside its first page.
abbrev short_disk : Disk
short_disk = record disk { file = λ fd. record { size = 3; byte = λ i. 7 } }

abbrev short_pool : BufferPool lru_replacer
short_pool = init lru_replacer 2 short_disk (Lru.init 2)

fetch_page_after_fault_example :
    (b' : BufferPool lru_replacer) × (b'' : BufferPool lru_replacer) × (fetch_page lru_replacer
        first_page short_pool
      ≡ raised b')
    × (fetch_page lru_replacer first_page b' ≡ done (some 0) b'')
    × ((b''.pages 0).bytes
        ≡ short_read short_disk first_page page_size
          ++ drop (length (short_read short_disk first_page page_size)) zeroed)
unfolding program
fetch_page_after_fault_example =
    fetch_page_after_fault lru_replacer first_page 0 short_disk short_pool refl refl refl refl refl

abbrev two_bytes : Bytes
two_bytes = 1 ∷ 2 ∷ []

abbrev after_write : Disk
after_write = record disk {
  file = λ fd. elim (write_page disk first_page two_bytes) [
    | none ↦ disk.file fd
    | some d ↦ d.file fd
  ];
}

read_page-write_page_example : read_page after_write first_page 2 ≡ some two_bytes
unfolding program
read_page-write_page_example = read_page-write_page disk after_write first_page two_bytes refl

read_page-write_page_ne_example :
    read_page after_write second_page page_size ≡ some (bytes_from (λ i. 7) 4096 page_size)
unfolding program
read_page-write_page_ne_example =
    read_page-write_page_ne disk after_write first_page second_page two_bytes
      (bytes_from (λ i. 7) 4096 page_size) refl (omega arith) (λ e. ground arith) refl

fetch_page-Completes_example : Completes (fetch_page lru_replacer first_page pool)
unfolding program
fetch_page-Completes_example =
    fetch_page-Completes lru_replacer first_page pool (bytes_from (λ i. 7) 0 page_size)
      (pool-IsConsistent.0) (pool-IsConsistent.1) (λ p. refl) (λ f q e. cc) refl
