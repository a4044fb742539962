-- ===== src/Storage/Pool/Defs.antt =====
-- `BufferPoolManager`: its state and its operations. A `Page*` is the number of its frame, and
-- `nullptr` is `none`.
use whu_db_practice.Prelude.{
  ℕ, zero, suc, ◌+◌, ◌-◌, Bool, true, false, List, [], ◌∷◌, ◌++◌, Option, none, some, ◌==◌,
  if◌then◌else◌, update, nat_eq, drop, length, Outcome, done, raised,
}
use whu_db_practice.Replacer.{Replacer}
use whu_db_practice.Storage.Page.{PageId, page_id_has_eq, Page, Bytes, page_size, zeroed}
use whu_db_practice.Storage.Disk.{Disk, read_page, short_read, write_page, allocate_page}

pub record BufferPool (rep : Replacer) : Type 0 where
  pub pool_size : ℕ
  pub pages : ℕ → Page
  pub page_table : PageId → Option ℕ
  pub free_list : List ℕ
  pub disk : Disk
  pub replacer : rep.State

-- `Page()`, and a page after `delete_page`: no page number, zeros, clean and not pinned.
abbrev pub blank : Page
blank = record { id = none; bytes = zeroed; is_dirty = false; pin_count = 0 }

-- 0, 1, … as the constructor puts them on the free list.
unfoldable pub frames_from : ℕ → ℕ → List ℕ
frames_from i zero = []
frames_from i (suc n) = i ∷ frames_from (suc i) n

-- `update_page`: a dirty page that has a number is written back,
unfoldable pub write_back : Page → Disk → Option Disk
write_back page d = elim page.id [
  | none ↦ some d
  | some old ↦ if page.is_dirty then write_page d old page.bytes else some d
]

-- and its entry leaves the page table.
unfoldable pub forget : Page → (PageId → Option ℕ) → PageId → Option ℕ
forget page table = elim page.id [ none ↦ table | some old ↦ update table old none ]

module _ (rep : Replacer) where
  unfoldable pub init : ℕ → Disk → rep.State → BufferPool rep
  init pool_size disk replacer = record {
    pool_size = pool_size;
    pages = λ _. blank;
    page_table = λ _. none;
    free_list = frames_from 0 pool_size;
    disk = disk;
    replacer = replacer;
  }

  unfoldable pub find_victim_page : BufferPool rep → Option ℕ × BufferPool rep
  find_victim_page b = elim b.free_list [
    | f ∷ rest ↦ (some f, record b { free_list = rest })
    | [] ↦ ((rep.victim b.replacer).0, record b { replacer = (rep.victim b.replacer).1 })
  ]

  -- The state after `update_page`, with `d` the disk after the write.
  abbrev pub renamed : ℕ → PageId → Disk → BufferPool rep → BufferPool rep
  renamed f new_page_id d b = record b {
    pages =
        update b.pages f
          (record { id = some new_page_id; bytes = zeroed; is_dirty = false; pin_count = 0 });
    page_table = update (forget (b.pages f) b.page_table) new_page_id (some f);
    disk = d;
  }

  unfoldable pub update_page : ℕ → PageId → BufferPool rep → Outcome (BufferPool rep) (Unit {0})
  update_page f new_page_id b = elim (write_back (b.pages f) b.disk) [
    | none ↦ raised b
    | some d ↦ done tt (renamed f new_page_id d b)
  ]

  -- The frame that a page was found or loaded in is pinned.
  abbrev pub pin_frame : ℕ → Page → BufferPool rep → BufferPool rep
  pin_frame f page b = record b { pages = update b.pages f page; replacer = rep.pin f b.replacer }

  -- The frame as a `read` that is cut short leaves it.
  abbrev pub cut_short : ℕ → PageId → BufferPool rep → BufferPool rep
  cut_short f page_id b =
      let part = short_read b.disk page_id page_size in
      record b {
        pages =
            update b.pages f
              (record (b.pages f) { bytes = part ++ drop (length part) (b.pages f).bytes });
      }

  -- The second half of `fetch_page`, once a frame is found.
  unfoldable pub load : ℕ → PageId → BufferPool rep → Outcome (BufferPool rep) (Option ℕ)
  load f page_id b = elim (update_page f page_id b) [
    | raised b' ↦ raised b'
    | done _ b' ↦ elim (read_page b'.disk page_id page_size) [
      | none ↦ raised (cut_short f page_id b')
      | some bs ↦ done (some f) (pin_frame f (record (b'.pages f) { bytes = bs; pin_count = 1 }) b')
    ]
  ]

  unfoldable pub fetch_page : PageId → BufferPool rep → Outcome (BufferPool rep) (Option ℕ)
  fetch_page page_id b = elim (b.page_table page_id) [
    | some f ↦
        done (some f) (pin_frame f (record (b.pages f) { pin_count = (b.pages f).pin_count + 1 }) b)
    | none ↦ elim (find_victim_page b).0 [
      | none ↦ done none (find_victim_page b).1
      | some f ↦ load f page_id (find_victim_page b).1
    ]
  ]

  -- The body of `unpin_page` for a page that is pinned.
  unfoldable pub release_pin : ℕ → Bool → BufferPool rep → BufferPool rep
  release_pin f is_dirty b =
      let page = b.pages f in
      record b {
        pages = update b.pages f (record page {
          is_dirty = if is_dirty then true else page.is_dirty;
          pin_count = page.pin_count - 1;
        });
        replacer = if page.pin_count - 1 == 0 then rep.unpin f b.replacer else b.replacer;
      }

  unfoldable pub unpin_page : PageId → Bool → BufferPool rep → Bool × BufferPool rep
  unpin_page page_id is_dirty b = elim (b.page_table page_id) [
    | none ↦ (false, b)
    | some f ↦ if (b.pages f).pin_count == 0 then (false, b) else (true, release_pin f is_dirty b)
  ]

  unfoldable pub flush_page : PageId → BufferPool rep → Outcome (BufferPool rep) Bool
  flush_page page_id b = elim (b.page_table page_id) [
    | none ↦ done false b
    | some f ↦ elim (write_page b.disk page_id (b.pages f).bytes) [
      | none ↦ raised b
      | some d ↦ done true (record b {
        pages = update b.pages f (record (b.pages f) { is_dirty = false });
        disk = d;
      })
    ]
  ]

  -- `new_page`, once a frame is found: a page number is allocated first.
  unfoldable pub place : ℕ → ℕ → BufferPool rep → Outcome (BufferPool rep) (Option (ℕ × PageId))
  place f fd b = elim (allocate_page b.disk fd) [
    | none ↦ raised b
    | some (page_no, d) ↦
        let page_id : PageId = record { fd = fd; page_no = page_no } in
        elim (update_page f page_id (record b { disk = d })) [
          | raised b' ↦ raised b'
          | done _ b' ↦
              done (some (f, page_id)) (pin_frame f (record (b'.pages f) { pin_count = 1 }) b')
        ]
  ]

  unfoldable pub new_page : ℕ → BufferPool rep → Outcome (BufferPool rep) (Option (ℕ × PageId))
  new_page fd b = elim (find_victim_page b).0 [
    | none ↦ done none (find_victim_page b).1
    | some f ↦ place f fd (find_victim_page b).1
  ]

  -- `delete_page`, for a page that is in the pool and not pinned.
  unfoldable pub discard : ℕ → PageId → BufferPool rep → Outcome (BufferPool rep) Bool
  discard f page_id b = elim (write_page b.disk page_id (b.pages f).bytes) [
    | none ↦ raised b
    | some d ↦ done true (record b {
      pages = update b.pages f blank;
      page_table = update b.page_table page_id none;
      free_list = b.free_list ++ f ∷ [];
      disk = d;
      replacer = rep.pin f b.replacer;
    })
  ]

  unfoldable pub delete_page : PageId → BufferPool rep → Outcome (BufferPool rep) Bool
  delete_page page_id b = elim (b.page_table page_id) [
    | none ↦ done true b
    | some f ↦ if (b.pages f).pin_count == 0 then discard f page_id b else done false b
  ]

  -- One round of `flush_all_pages`.
  unfoldable pub flush_frame : ℕ → ℕ → BufferPool rep → Outcome (BufferPool rep) (Unit {0})
  flush_frame fd f b = elim (b.pages f).id [
    | none ↦ done tt b
    | some page_id ↦
        if page_id.fd == fd
        then elim (write_page b.disk page_id (b.pages f).bytes) [
          | none ↦ raised b
          | some d ↦ done tt (record b {
            pages = update b.pages f (record (b.pages f) { is_dirty = false });
            disk = d;
          })
        ]
        else done tt b
  ]

  -- The rounds for the frames `f`, `f + 1`, …, of which `n` are left.
  unfoldable pub flush_frames : ℕ → ℕ → ℕ → BufferPool rep → Outcome (BufferPool rep) (Unit {0})
  flush_frames fd f zero b = done tt b
  flush_frames fd f (suc n) b = elim (flush_frame fd f b) [
    | raised b' ↦ raised b'
    | done _ b' ↦ flush_frames fd (suc f) n b'
  ]

  unfoldable pub flush_all_pages : ℕ → BufferPool rep → Outcome (BufferPool rep) (Unit {0})
  flush_all_pages fd b = flush_frames fd 0 b.pool_size b

  -- `mark_dirty`, and a client's writes through `get_data` to a page that it holds.
  unfoldable pub mark_dirty : ℕ → BufferPool rep → BufferPool rep
  mark_dirty f b = record b { pages = update b.pages f (record (b.pages f) { is_dirty = true }) }

  unfoldable pub store : ℕ → Bytes → BufferPool rep → BufferPool rep
  store f bs b = record b { pages = update b.pages f (record (b.pages f) { bytes = bs }) }
