-- ===== src/Storage/Pool/NewPage.antt =====
-- `new_page`: a fresh page number, an empty page, and no other page lost.
use whu_db_practice.Prelude.{
  ltb, Bool-cases, ℕ, ◌+◌, ◌≡◌, refl, ap, subst, sym, ◌∙◌, ◌≢◌, inl, inr, Option, none, some, arith,
  ==_self, length, nat_eq, Option-cases, some_inj, Returns, Returns-map,
}
use whu_db_practice.Replacer.{Replacer}
use whu_db_practice.Storage.Page.{
  PageId, page_id_has_eq, Page, Bytes, page_size, zeroed, length-zeroed,
}
use whu_db_practice.Storage.Disk.{Disk, read_page, write_page, max_fd, allocated, allocate_page}
use whu_db_practice.Storage.Pool.Defs.{
  BufferPool, pin_frame, find_victim_page, renamed, write_back, update_page, place, new_page,
}
use whu_db_practice.Storage.Pool.Invariant.{
  IsConsistent, IsClean, content, AllPinned, find_victim_page-IsConsistent, find_victim_page-none,
  find_victim_page-IsClean, find_victim_page_frame, content-find_victim_page,
}
use whu_db_practice.Storage.Pool.Update.{renamed-IsConsistent, renamed-IsClean, content-renamed}
use whu_db_practice.Storage.Pool.Pin.{
  pin_frame-IsConsistent, pin_frame-IsClean, content-pin_frame_self, content-pin_frame_ne,
}
use whu_db_practice.Storage.Pool.Fetch.{Holds, pin_frame-Holds}

-- The id that `new_page` takes for the next page of a file.
abbrev pub next_id : Disk → ℕ → PageId
next_id d fd = record { fd = fd; page_no = (allocated d fd).0 }

module _ (rep : Replacer) where
  pub record Created (fd : ℕ) (b : BufferPool rep) (o : Option (ℕ × PageId)) (b' : BufferPool rep)
      : Type 0 where
    pub consistent : IsConsistent rep none b'
    pub clean : IsClean rep b'
    pub kept :
        (q : PageId) (cs : Bytes)
        → q ≢ next_id b.disk fd
        → content rep b q ≡ some cs
        → content rep b' q ≡ some cs
    pub held :
        (f : ℕ) (p : PageId)
        → o ≡ some (f, p)
        → (p ≡ next_id b.disk fd)
          × Holds rep f p b'
          × (content rep b' p ≡ some zeroed)
          × (b'.disk.fd2pageno fd ≡ b.disk.fd2pageno fd + 1)
    pub refused : o ≡ none → AllPinned rep b

  write_back_numbers :
      (page : Page) (d d' : Disk) → write_back page d ≡ some d' → d'.fd2pageno ≡ d.fd2pageno
  unfolding write_back write_page
  write_back_numbers page d d' h = ground arith

  next_number :
      (page : Page) (d d' : Disk) (fd : ℕ)
      → write_back page (allocated d fd).1 ≡ some d'
      → d'.fd2pageno fd ≡ d.fd2pageno fd + 1
  unfolding allocated
  next_number page d d' fd h =
      ground (arith, ap (λ n. n fd) (write_back_numbers page (allocated d fd).1 d' h), ==_self fd)

  -- Taking a number changes nothing that is read.
  module _ (fd : ℕ) (b : BufferPool rep) where
    abbrev numbered : BufferPool rep
    numbered = record b { disk = (allocated b.disk fd).1 }

    numbered-IsConsistent :
        {lent : Option ℕ} → IsConsistent rep lent b → IsConsistent rep lent numbered
    numbered-IsConsistent v = record {
      policy = v.policy;
      mapped = v.mapped;
      owned = v.owned;
      evictable = v.evictable;
      unpinned = v.unpinned;
      free = v.free;
      vacant = v.vacant;
      distinct = v.distinct;
      sized = v.sized;
      taken = v.taken;
    }

    numbered-IsClean : IsClean rep b → IsClean rep numbered
    unfolding read_page
    numbered-IsClean clean = clean

    content-numbered : (q : PageId) → content rep numbered q ≡ content rep b q
    unfolding read_page
    content-numbered q = refl

  module _ (fd f : ℕ) (b : BufferPool rep) (v : IsConsistent rep (some f) b) (clean : IsClean rep b)
      (absent : b.page_table (next_id b.disk fd) ≡ none) where
    placed-Created :
        (d : Disk)
        → write_back (b.pages f) (allocated b.disk fd).1 ≡ some d
        → let p = next_id b.disk fd in
          let b2 = renamed rep f p d (numbered fd b) in
          Created fd b (some (f, p)) (pin_frame rep f (record (b2.pages f) { pin_count = 1 }) b2)
    placed-Created d w =
        let p = next_id b.disk fd in
        let b1 = numbered fd b in
        let v1 = numbered-IsConsistent fd b v in
        let clean1 = numbered-IsClean fd b clean in
        let b2 = renamed rep f p d b1 in
        let page : Page = record (b2.pages f) { pin_count = 1 } in
        let v2 = renamed-IsConsistent rep f p d b1 v1 absent in
        let (lt, _, _, _) = v.taken f refl in
        let here : (b2.pages f).id ≡ some p = ground (arith, ==_self f) in
        let pinned : page.pin_count ≢ 0 = λ z. ground arith in
        let empty : page.bytes ≡ zeroed = ground (arith, ==_self f) in
        let full : length page.bytes ≡ page_size = ap length empty ∙ length-zeroed in
        let only : (g : ℕ) → some f ≡ some g → g ≡ f = λ g h. some_inj (sym h) in
        record {
          consistent = pin_frame-IsConsistent rep f page p b2 v2 lt here here pinned full only;
          clean = pin_frame-IsClean rep f page p b2 v2 lt here here pinned full only λ g q l ne.
              let same : b2.pages g ≡ b.pages g = ground arith in
              rw same (renamed-IsClean rep f p d b1 v1 absent clean1 w g q l ne);
          kept = λ q cs ne h.
              content-pin_frame_ne rep f page p b2 v2 lt here here pinned full only q ne
              ∙ content-renamed rep f p d b1 v1 absent clean1 w q cs ne
                  (content-numbered fd b q ∙ h);
          held = λ g q h.
              let at_f : f ≡ g = ground arith in
              let is_p : p ≡ q = ground arith in
              rw (← at_f, ← is_p)
                (
                  refl,
                  pin_frame-Holds rep f page p b2 v2 lt here here pinned,
                  content-pin_frame_self rep f page p b2 v2 lt here here pinned full only
                      ∙ ap some empty,
                  next_number (b.pages f) b.disk d fd w,
                );
          refused = λ h. cc;
        }

    place-Created : Returns (λ o b'. (o ≢ none) × Created fd b o b') (place rep f fd b)
    unfolding place update_page allocate_page
    place-Created = elim (Bool-cases (ltb fd max_fd)) [
      | inr bad ↦ rw (bad, place, allocate_page) tt
      | inl good ↦ elim (Option-cases (write_back (b.pages f) (allocated b.disk fd).1)) [
        | inl e ↦ rw (good, place, allocate_page, e, update_page) tt
        | inr (d, e) ↦ rw (good, place, allocate_page, e, update_page) (λ h. cc, placed-Created d e)
      ]
    ]

  module _ (fd : ℕ) (b : BufferPool rep) where
    Created-find_victim_page :
        (o : Option (ℕ × PageId)) (b' : BufferPool rep)
        → (o ≢ none) × Created fd (find_victim_page rep b).1 o b'
        → Created fd b o b'
    Created-find_victim_page o b' (some_page, created) =
        let (_, _, disk, _) = find_victim_page_frame rep b in
        record {
          consistent = created.consistent;
          clean = created.clean;
          kept = λ q cs ne h.
              created.kept q cs (subst (λ d. q ≢ next_id d fd) (sym disk) ne)
                (content-find_victim_page rep b q ∙ h);
          held = λ f p h. rw disk at (created.held f p h);
          refused = λ h. absurd (some_page h);
        }

    -- If `new_page` returns on a consistent pool in which clean frames agree with the disk and
    -- the next page number of the file is not in use, the pool is so again, every other page that
    -- could be read reads the same, and a frame that is returned holds the page of that number,
    -- zeroed, pinned and out of the policy's reach, with the number of the file counted up;
    -- `nullptr` is returned only if every frame is pinned.
    pub new_page-Created :
        IsConsistent rep none b
        → IsClean rep b
        → b.page_table (next_id b.disk fd) ≡ none
        → Returns (Created fd b) (new_page rep fd b)
    unfolding new_page
    new_page-Created v clean absent =
        let b1 = (find_victim_page rep b).1 in
        let found = find_victim_page-IsConsistent rep b v in
        let clean1 = find_victim_page-IsClean rep b clean in
        let (_, table, disk, _) = find_victim_page_frame rep b in
        elim (Option-cases (find_victim_page rep b).0) [
          | inl o ↦
              rw (o, new_page)
                (record {
                  consistent = rw o at found;
                  clean = clean1;
                  kept = λ q cs ne h. content-find_victim_page rep b q ∙ h;
                  held = λ f p h. cc;
                  refused = λ _. find_victim_page-none rep b v o;
                })
          | inr (f, o) ↦
              rw (o, new_page)
                (Returns-map (place rep f fd b1) Created-find_victim_page
                  (place-Created fd f b1 (rw o at found) clean1 (rw (table, disk) absent)))
        ]
